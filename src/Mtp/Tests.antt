-- ===== src/Mtp/Tests.antt =====
-- An upload over a recorded cable into a store that keeps a list of paths.
use nx_nexus.Base.{
  Bool, ◌&&◌, ◌||◌, ◌==◌, if◌then◌else◌, false, ℕ, ◌≡◌, refl, true, List, [], ◌∷◌, ◌++◌, Option,
  none, some, length, Bytes, arith,
}
use nx_nexus.ObjectDb.{intern, find_locked, grow}
use nx_nexus.Format.{le, le_bytes}
use nx_nexus.CString.{bytes_eq}
use nx_nexus.Mtp.Path.{name_is_safe, has_separator, path_join, ends_in_slash}
use nx_nexus.Mtp.Reader.{reader_init, read_le, read_string, read_units, until_zero}
use nx_nexus.Mtp.Reply.{param_or, resolve_parent}
use nx_nexus.Mtp.Transport.{recv_to_payload, recv_rest, send_response}
use nx_nexus.Mtp.Upload.{op_send_object_info, read_object_info, begin_upload}
use nx_nexus.Mtp.Container.{MtpContainer, parse, serialize, header_bytes, param_bytes, read_params}
use nx_nexus.Mtp.World.{
  Child, Device, Stores, World, usb_read, usb_write, pure, return, modify_server, modify_stats,
  gets, on_db, on_stores,
}
use nx_nexus.Mtp.Session.{new_server}
use nx_nexus.Mtp.Handle.{zero_stats, handle_command, run_once, abandon_pending, switch}
use nx_nexus.Mtp.Listing.{collect_props}
use nx_nexus.Mtp.Inside.{Inside, collect_props-Inside}
use nx_nexus.Mtp.Wire.{parse-serialize}
use nx_nexus.Mtp.Keeps.{after}
use nx_nexus.Mtp.Says.{Talks}
use nx_nexus.Mtp.Dispatch.{handle_command-Talks}
use nx_nexus.Mtp.Serve.{at_rest, serves}
use nx_nexus.Mtp.Confined.{Confined, Served-Confined}
use nx_nexus.Mtp.Writing.{Writing}

-- What was sent, and what the host still sends.
record Cable : Type 0 where
  pub sent : List Bytes
  pub coming : List Bytes

take_packet : List Bytes → Option Bytes × List Bytes
take_packet [] = (none, [])
take_packet (p ∷ ps) = (some p, ps)

abbrev cable : Device
cable = record {
  State = Cable;
  usb_write = λ bytes d. (some (length bytes), record d { sent = d.sent ++ (bytes ∷ []) });
  usb_read = λ n d. ((take_packet d.coming).0, record d { coming = (take_packet d.coming).1 });
  packet_size = λ d. 512;
  elapsed = λ d. 1;
  charge = λ d. some 80;
  to_utf16 = λ bytes n. some bytes;
  to_utf8 = λ units n. some units;
  alloc = λ n. true;
}

-- The card and the install store may each have a write open; and the paths.
record Shelf : Type 0 where
  pub card_open : Bool
  pub install_open : Bool
  pub paths : List Bytes

abbrev set_open : ℕ → Bool → Shelf → Shelf
set_open id b s = record s {
  card_open = if id == 0x10001 then b else s.card_open;
  install_open = if id == 0x20001 then b else s.install_open;
}

abbrev on_shelf : ℕ → Bool
on_shelf id = id == 0x10001 || id == 0x20001

abbrev shelf : Stores
shelf = record {
  State = Shelf;
  ids = λ s. 0x10001 ∷ 0x20001 ∷ [];
  known = λ id s. on_shelf id;
  present = λ id s. true;
  refresh = λ s. s;
  on_session_open = λ s. s;
  has = λ hook id s. true;
  description = λ id s. b'S' ∷ b'D' ∷ [];
  get_info = λ id s. (none, s);
  enumerate = λ id dir s. (([], true), s);
  stat = λ id path s. (none, s);
  read = λ id path offset n s. (none, s);
  write_begin = λ id path size s. (true, record (set_open id true s) { paths = path ∷ s.paths });
  write_chunk = λ id chunk s. (true, s);
  write_end = λ id whole s. set_open id false s;
  mkdir = λ id path s. (true, record s { paths = path ∷ s.paths });
  remove = λ id path is_dir s. (true, s);
  move = λ id old new is_dir s. (true, s);
  copy = λ id old new s. (true, s);
  thumbnail = λ id path n s. (none, s);
}

abbrev open_at : ℕ → Shelf → Bool
open_at id s = if id == 0x10001 then s.card_open else id == 0x20001 && s.install_open

set_open-at :
    (id : ℕ) (b : Bool) (s : Shelf) → on_shelf id ≡ true → open_at id (set_open id b s) ≡ b
set_open-at id b s k = ground arith

set_open-elsewhere :
    (id j : ℕ) (b : Bool) (s : Shelf)
    → (j == id) ≡ false
    → open_at j (set_open id b s) ≡ open_at j s
set_open-elsewhere id j b s other = ground arith

abbrev law : Writing shelf
law = record {
  writing = open_at;
  able = λ s id k w. refl;
  begins = λ s id path size k w. set_open-at id true s k;
  begins_known = λ s id path size k. k;
  begins_elsewhere = λ s id path size j other k. (k, set_open-elsewhere id j true s other);
  writes_elsewhere = λ s id chunk j other k. (k, refl);
  finishes = λ s id whole k. set_open-at id false s k;
  finishes_elsewhere = λ s id whole j other k. (k, set_open-elsewhere id j false s other);
  refreshes = λ s j k. (k, refl);
  opens = λ s j k. (k, refl);
  informs = λ s id j k. (k, refl);
  lists = λ s id dir j k. (k, refl);
  looks = λ s id path j k. (k, refl);
  reads = λ s id path offset n j k. (k, refl);
  pictures = λ s id path n j k. (k, refl);
  makes = λ s id path j k. (k, refl);
  removes = λ s id path is_dir j k. (k, refl);
  moves = λ s id old new is_dir j k. (k, refl);
  copies = λ s id old new j k. (k, refl);
}

-- SendObjectInfo for `a`, with its data, and then SendObject with three bytes.
abbrev info_command : MtpContainer
info_command = record {
  len = 20;
  container_type = 1;
  code = 0x100C;
  transaction_id = 7;
  params = 0x10001 ∷ 0xFFFFFFFF ∷ [];
}

abbrev object_info : Bytes
object_info =
    le_bytes 4 0
    ++ (le_bytes 2 0x3000
        ++ (le_bytes 2 0
            ++ (le_bytes 4 3
                ++ (le_bytes 2 0
                    ++ (le_bytes 4 0
                        ++ (le_bytes 4 0
                            ++ (le_bytes 4 0
                                ++ (le_bytes 4 0
                                    ++ (le_bytes 4 0
                                        ++ (le_bytes 4 0
                                            ++ (le_bytes 4 0
                                                ++ (le_bytes 2 0
                                                    ++ (le_bytes 4 0
                                                        ++ (le_bytes 4 0
                                                            ++ (2 ∷ b'a' ∷ 0 ∷ 0 ∷ 0
                                                            ∷ [])))))))))))))))

abbrev coming : List Bytes
coming =
    serialize info_command 4096
    ∷ (header_bytes 71 2 0x100C 7 ++ object_info)
    ∷ serialize (record info_command { code = 0x100D; transaction_id = 8; params = [] }) 4096
    ∷ (header_bytes 15 2 0x100D 8 ++ (1 ∷ 2 ∷ 3 ∷ []))
    ∷ []

abbrev start : World cable shelf
start = record {
  server = record (new_server zero_stats) { session_open = true; session_id = 1 };
  db = record { entries = []; capacity = 0; live = 0 };
  stores = record { card_open = false; install_open = false; paths = [] };
  device = record { sent = []; coming = coming };
}

abbrev informed : World cable shelf
informed = after (run_once start)

parse-serialize_example :
    parse (serialize info_command 4096 ++ (9 ∷ [])) ≡ some (record info_command { len = 20 })
parse-serialize_example =
    parse-serialize info_command 4096 (9 ∷ [])
      (record {
        type_fits = omega arith;
        code_fits = omega arith;
        id_fits = omega arith;
        params_fit = (omega arith, (omega arith, tt));
      })
      (omega arith)

handle_command-Talks_example : Talks cable shelf 7 start.device (handle_command info_command start)
handle_command-Talks_example = handle_command-Talks info_command refl refl start

Served-Confined_example : Confined shelf start.stores (after (run_once informed)).stores
Served-Confined_example =
    Served-Confined start (after (run_once informed)) (serves (serves at_rest))

-- The upload waits after the first transaction, and is whole after the second.
upload_waits :
    (informed.server.pending_send ≡ true) × (informed.stores.paths ≡ ((b'/' ∷ b'a' ∷ []) ∷ []))
unfolding run_once handle_command usb_read take_packet serialize le_bytes param_bytes pure parse le
    modify_server gets abandon_pending switch op_send_object_info recv_to_payload modify_stats
    recv_rest resolve_parent param_or read_object_info reader_init read_le read_string read_units
    until_zero name_is_safe has_separator bytes_eq path_join ends_in_slash begin_upload on_db
    on_stores intern send_response usb_write return read_params find_locked grow
upload_waits = (refl, refl)

-- A list that has room for one child and a part of the other.
abbrev children : List Child
children =
    record { name = b'a' ∷ []; is_dir = false; size = 3 }
    ∷ record { name = b'b' ∷ []; is_dir = true; size = 0 }
    ∷ []

collect_props-Inside_example :
    Inside 150
      (collect_props cable.to_utf16 cable.alloc 0x10001 1
        (b'/' ∷ [])
        children
        (record { cap = 150; written = []; overflow = false }, 0)
        start.db).0.0
collect_props-Inside_example =
    collect_props-Inside cable.to_utf16 cable.alloc 0x10001 1 (b'/' ∷ []) children 150
      (record { cap = 150; written = []; overflow = false }, 0) start.db
      (record { cap_is = refl; fits_in = omega arith })
