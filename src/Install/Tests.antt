-- ===== src/Install/Tests.antt =====
-- A package of a compressed content and a manifest, put in the container in the other order, and
-- a backend that notes the calls it gets.
use nx_nexus.Base.{ap, sym, append_assoc, inr, ◌<◌}
use nx_nexus.Base.{
  ℕ, ◌≡◌, ◌≢◌, refl, true, List, [], ◌∷◌, ◌++◌, Option, some, none, replicate, arith, take, drop,
  Bytes,
}
use mathlib.Core.List.{Perm}
use nx_nexus.Samples.{start_of, entry_bytes}
use nx_nexus.Install.{
  InstallResult, install_ok, in_progress, not_finished, bad_container, no_decompressor, Backend,
  Decoder, returns, emits, InstallEntry, Session, begin_install, set_decompressor, nca, streaming,
  complete, failed,
}
use nx_nexus.Install.Classify.{classify_name}
use nx_nexus.Install.Entries.{sort_entries}
use nx_nexus.Install.Feed.{install_feed}
use nx_nexus.Install.Finish.{install_finish}
use nx_nexus.Install.Feed.{
  absorb_header, after_route, announced, close_entry, commit_content, end_decoding, entry_attempt,
  entry_turn, fail_session, feed_at, feed_decoder, feed_loop, header_turn, magic_turn, ncz_sink,
  next_entry, open_entry, opened, route_bytes, route_some, run_emission, sink_write, streaming_turn,
  subtract, turn, turn_at, write_content,
}
use nx_nexus.Install.Entries.{
  back_to_front, build_entries, collect, keep_entry, order_entries, place, sort_onto, take_entry,
}
use nx_nexus.Install.Classify.{ends_with, stem}
use nx_nexus.PartitionFs.{
  check_name, check_names, get_data_offset, get_entry, get_entry_count, peek_header_size, classify,
  compute_header_size,
}
use nx_nexus.Format.{rd, le, read, mul_overflows, add_overflows}
use nx_nexus.CString.{bytes_eq, c_string, has_nul, memchr_nul, until_nul}
use nx_nexus.Hex.{hex_byte, hex_nibble, parse_bytes, parse_content_id}
use nx_nexus.Install.Finish.{
  is_present, list_contents, build_meta, import_ticket, use_cnmt, use_blob, read_meta, register,
  finish_complete, finish_at, note_ticket,
}
use nx_nexus.Cnmt.{get_content_info, get_content_count, required_size, read_context}
use nx_nexus.Install.Sorted.{Ascending, sort_entries_lem}
use nx_nexus.Install.Round.{IsRunning}
use nx_nexus.Install.Tracked.{Placeholder, IsTracked}
use nx_nexus.Install.Total.{FeedEnds, install_feed-FeedEnds}
use nx_nexus.Install.Seen.{Appends}
use nx_nexus.Install.Laid.{IsLaid}
use nx_nexus.Install.Life.{Reached, started, attached, stopped, IsOver, Reached-IsOver}
use nx_nexus.Install.Finish.{install_abort}
use nx_nexus.Install.{aborted}
use nx_nexus.Base.{◌⊎◌, Bool, false, ◌∙◌}
use nx_nexus.Install.Chunks.{seen_out, then_feed, install_feed-append}
use nx_nexus.Install.Registered.{FinishEnds, install_finish-FinishEnds}

data Call : Type 0 where
  began : Bytes → ℕ → Call
  wrote : Bytes → Call
  committed discarded read_back registered pushed rolled_back : Call
  imported : Bytes → Bytes → Call

abbrev zeros : ℕ → Bytes
zeros n = replicate n 0

-- A manifest that lists content 0xaa... of 3 bytes.
abbrev manifest : Bytes
manifest =
    (7 ∷ zeros 13)
    ++ (0 ∷ 0 ∷ 1 ∷ 0 ∷ 0 ∷ 0 ∷ zeros 12)
    ++ (replicate 0x30 0xaa ++ (3 ∷ 0 ∷ 0 ∷ 0 ∷ 0 ∷ 0 ∷ 1 ∷ 0 ∷ []))

abbrev notes : Backend
notes = record {
  State = List Call;
  content_begin = λ id size log. (true, log ++ (began id size ∷ []));
  content_write = λ bytes log. (true, log ++ (wrote bytes ∷ []));
  content_commit = λ log. (true, log ++ (committed ∷ []));
  content_discard = λ log. log ++ (discarded ∷ []);
  read_cnmt = λ id room log. (some manifest, log ++ (read_back ∷ []));
  import_ticket = λ tik cert log. (true, log ++ (imported tik cert ∷ []));
  register_meta = λ m log. (true, log ++ (registered ∷ []));
  push_record = λ m log. (true, log ++ (pushed ∷ []));
  rollback = λ m log. log ++ (rolled_back ∷ []);
}

-- A decoder that gives what it is fed.
abbrev copies : Decoder
copies = record {
  State = ℕ;
  begin = λ n. (true, n);
  feed = λ bytes n. emits 3 bytes (λ b. returns b n);
  end = λ n. (true, n);
  size = λ n. 3;
}

abbrev content_name : Bytes
content_name = replicate 32 b'a' ++ (b'.' ∷ b'n' ∷ b'c' ∷ b'z' ∷ [])

abbrev meta_name : Bytes
meta_name = replicate 32 b'b' ++ (b'.' ∷ b'c' ∷ b'n' ∷ b'm' ∷ b't' ∷ b'.' ∷ b'n' ∷ b'c' ∷ b'a' ∷ [])

abbrev nsz : Bytes
nsz =
    start_of 2 79
    ++ entry_bytes 3 4 0
    ++ entry_bytes 0 3 42
    ++ meta_name
    ++ (0 ∷ [])
    ++ content_name
    ++ (0 ∷ [])
    ++ (1 ∷ 2 ∷ 3 ∷ 4 ∷ 5 ∷ 6 ∷ 7 ∷ [])

abbrev begun : Session notes copies
begun = record { ins = set_decompressor (begin_install 5); user = []; ncz_user = 0 }

abbrev after : Option (InstallResult × Session notes copies) → InstallResult × List Call
after none = (in_progress, [])
after (some (r, s)) = (r, s.user)

abbrev finished : Option (InstallResult × Session notes copies) → InstallResult × List Call
finished none = (in_progress, [])
finished (some (r, s)) = let f = install_finish s in (f.0, f.1.user)

abbrev streamed : List Call
streamed =
    began (replicate 16 0xaa) 3
    ∷ wrote (1 ∷ 2 ∷ 3 ∷ [])
    ∷ committed
    ∷ began (replicate 16 0xbb) 4
    ∷ wrote (4 ∷ 5 ∷ 6 ∷ 7 ∷ [])
    ∷ committed
    ∷ []

abbrev plain : Session notes copies
plain = record { ins = begin_install 5; user = []; ncz_user = 0 }

-- The whole package installs, a stream cut short is rolled back; and so is a
-- compressed content without a decoder.
runs :
    (after (install_feed begun nsz) ≡ (install_ok, streamed))
    × (finished (install_feed begun nsz)
        ≡ (install_ok, streamed ++ (read_back ∷ registered ∷ pushed ∷ [])))
    × (finished (install_feed begun (take 145 nsz)) ≡ (
      not_finished,
      began (replicate 16 0xaa) 3 ∷ wrote (1 ∷ 2 ∷ []) ∷ discarded ∷ rolled_back ∷ [],
    ))
    × (after (install_feed plain nsz) ≡ (no_decompressor, rolled_back ∷ []))
    × (after (install_feed begun (drop 1 nsz)) ≡ (bad_container, rolled_back ∷ []))
unfolding absorb_header after_route announced close_entry commit_content end_decoding entry_attempt
    entry_turn fail_session feed_at feed_decoder feed_loop header_turn install_feed magic_turn
    ncz_sink next_entry open_entry opened route_bytes route_some run_emission sink_write
    streaming_turn subtract turn turn_at write_content back_to_front build_entries collect
    keep_entry order_entries place sort_entries sort_onto take_entry classify_name ends_with stem
    check_name check_names get_data_offset get_entry get_entry_count peek_header_size classify
    compute_header_size rd le read mul_overflows add_overflows bytes_eq c_string has_nul memchr_nul
    until_nul hex_byte hex_nibble parse_bytes parse_content_id is_present list_contents build_meta
    import_ticket use_cnmt use_blob read_meta register finish_complete finish_at install_finish
    note_ticket get_content_info get_content_count required_size read_context
    nx_nexus.PartitionFs.init nx_nexus.Cnmt.init begin_install set_decompressor
runs = (refl, refl, refl, refl, refl)

abbrev file : ℕ → ℕ → InstallEntry
file offset size = record {
  pfs_index = 0;
  kind = nca;
  content_id = zeros 16;
  abs_offset = offset;
  size = size;
}

-- An empty file that stands after a file at the same offset.
abbrev overlapping : Session notes copies
overlapping = record begun {
  ins = record (begun.ins) {
    stage = streaming;
    entries = file 0 2 ∷ file 0 0 ∷ file 2 1 ∷ [];
    stream_pos = 0;
  };
}

-- A package that ends with an empty file.
abbrev empty_last : Session notes copies
empty_last = record begun {
  ins = record (begun.ins) { stage = streaming; entries = file 0 2 ∷ file 2 0 ∷ [] };
}

-- What is left of the first wraps round, and it is given the bytes of the next file; the second never
-- completes.
empty_files :
    (after (install_feed overlapping (1 ∷ 2 ∷ 3 ∷ [])) ≡ (
      in_progress,
      began (zeros 16) 2
          ∷ wrote (1 ∷ 2 ∷ [])
          ∷ committed
          ∷ began (zeros 16) 0
          ∷ wrote (3 ∷ [])
          ∷ committed
          ∷ [],
    ))
    × (finished (install_feed empty_last (1 ∷ 2 ∷ []))
        ≡ (not_finished, began (zeros 16) 2 ∷ wrote (1 ∷ 2 ∷ []) ∷ committed ∷ rolled_back ∷ []))
unfolding install_finish finish_at absorb_header after_route announced close_entry commit_content
    end_decoding entry_attempt entry_turn fail_session feed_at feed_decoder feed_loop header_turn
    install_feed magic_turn ncz_sink next_entry open_entry opened route_bytes route_some
    run_emission sink_write streaming_turn subtract turn turn_at write_content begin_install
    set_decompressor
empty_files = (refl, refl)

begun-IsRunning : IsRunning begun
unfolding begin_install set_decompressor
begun-IsRunning = record {
  header_fits = omega arith;
  small = record { tik = omega arith; cert = omega arith };
  few = omega arith;
  position = omega arith;
}

-- A content is open after its `began`, until it is committed or discarded.
abbrev opened_by : Bool → Call → Bool
opened_by b (began id size) = true
opened_by b committed = false
opened_by b discarded = false
opened_by b _ = b

abbrev open_in : Bool → List Call → Bool
open_in b [] = b
open_in b (c ∷ log) = open_in (opened_by b c) log

open_in-append :
    (b : Bool) (log : List Call) (c : Call)
    → open_in b (log ++ (c ∷ [])) ≡ opened_by (open_in b log) c
open_in-append b [] c = refl
open_in-append b (d ∷ log) c = open_in-append (opened_by b d) log c

notes_begins : {A : Type 0} → true ≡ false → A
notes_begins e = absurd (cc)

abbrev noted : Placeholder notes
noted = record {
  is_open = open_in false;
  begins = λ u id size shut n. notes_begins n;
  writes = λ u bytes shut. open_in-append false u (wrote bytes) ∙ shut;
  commits = λ u y. open_in-append false u committed;
  discards = λ u. open_in-append false u discarded;
  rolls = λ u m shut. open_in-append false u rolled_back ∙ shut;
}

install_feed-FeedEnds_example :
    (out : InstallResult × Session notes copies) × (install_feed begun nsz ≡ some out)
    × FeedEnds noted out
install_feed-FeedEnds_example = install_feed-FeedEnds noted begun nsz begun-IsRunning (λ _. refl)

abbrev arrived : Session notes copies
arrived = record begun {
  ins = record (begun.ins) { stage = complete; entries = file 0 2 ∷ file 2 1 ∷ []; tik = 1 ∷ [] };
}

arrived-ne-failed : arrived.ins.stage ≢ failed
unfolding begin_install set_decompressor
arrived-ne-failed e = cc

install_finish-FinishEnds_example : FinishEnds arrived (install_finish arrived)
install_finish-FinishEnds_example = install_finish-FinishEnds arrived arrived-ne-failed

sort_entries_example :
    Ascending (sort_entries (file 7 1 ∷ file 0 2 ∷ file 0 3 ∷ []))
    × Perm
        (sort_entries (file 7 1 ∷ file 0 2 ∷ file 0 3 ∷ []))
        (file 7 1 ∷ file 0 2 ∷ file 0 3 ∷ [])
sort_entries_example = sort_entries_lem (file 7 1 ∷ file 0 2 ∷ file 0 3 ∷ [])

-- A backend that keeps the bytes it is given.
abbrev gathers : Backend
gathers = record {
  State = Bytes;
  content_begin = λ id size kept. (true, kept);
  content_write = λ bytes kept. (true, kept ++ bytes);
  content_commit = λ kept. (true, kept);
  content_discard = λ kept. kept;
  read_cnmt = λ id room kept. (none, kept);
  import_ticket = λ tik cert kept. (true, kept);
  register_meta = λ m kept. (true, kept);
  push_record = λ m kept. (true, kept);
  rollback = λ m kept. [];
}

gathers-Appends : Appends gathers
gathers-Appends a b kept = ap (λ s. (true, s)) (sym (append_assoc kept a b))

abbrev two_files : Session gathers copies
two_files = record {
  ins = record (begin_install 5) { stage = streaming; entries = file 0 4 ∷ file 5 2 ∷ [] };
  user = [];
  ncz_user = 0;
}

two_files-IsRunning : IsRunning two_files
unfolding begin_install
two_files-IsRunning = record {
  header_fits = omega arith;
  small = record { tik = omega arith; cert = omega arith };
  few = omega arith;
  position = omega arith;
}

two_files-IsLaid : IsLaid two_files
unfolding begin_install
two_files-IsLaid =
    inr (refl, (refl, omega arith, omega arith, (refl, omega arith, omega arith, tt)))

install_feed-append_example :
    seen_out (install_feed two_files ((1 ∷ 2 ∷ 3 ∷ []) ++ (4 ∷ 0 ∷ 5 ∷ 6 ∷ [])))
    ≡ seen_out (then_feed (install_feed two_files (1 ∷ 2 ∷ 3 ∷ [])) (4 ∷ 0 ∷ 5 ∷ 6 ∷ []))
install_feed-append_example =
    install_feed-append gathers-Appends two_files (1 ∷ 2 ∷ 3 ∷ []) (4 ∷ 0 ∷ 5 ∷ 6 ∷ [])
      two_files-IsRunning two_files-IsLaid three four
  where
    three : 0 < 3
    three = omega arith

    four : 0 < 4
    four = omega arith

-- A decoder is attached, and the install is aborted.
aborted_early :
    Reached {N = copies} noted (install_abort (record plain { ins = set_decompressor plain.ins }))
aborted_early =
    stopped (record plain { ins = set_decompressor plain.ins })
      (attached plain (started 5 [] 0 refl))

abbrev over : Session notes copies
over = install_abort (record plain { ins = set_decompressor plain.ins })

Reached-IsOver_example :
    (IsRunning over × IsTracked noted over)
    ⊎ (IsOver over
        × (noted.is_open over.user ≡ false)
        × (install_feed over nsz ≡ some (aborted, over))
        × (install_finish over ≡ (aborted, over))
        × (install_abort over ≡ over))
Reached-IsOver_example = Reached-IsOver noted over nsz aborted_early
