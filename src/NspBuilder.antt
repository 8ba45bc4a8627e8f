-- ===== src/NspBuilder.antt =====
-- src/format/nsp_builder.c and include/nexus/nsp_builder.h: the NSP that exists only while it is
-- copied. `entries` holds the first `count` elements of the array; `header` is the caller's buffer
-- of `header_cap` bytes with what has been written to it. A function that updates the builder
-- returns its result code beside the builder, on errors too.
pub mod Image
pub mod Fill
pub mod Build
pub mod Pieces
pub mod RoundTrip
pub mod Valid
pub mod Locate
mod Tests
use nx_nexus.Base.{
  ℕ, suc, ◌+◌, ◌-◌, ◌*◌, ◌%◌, ◌^◌, Bool, true, false, ◌||◌, List, [], ◌∷◌, ◌++◌, Option, none, some,
  ltb, leb, ◌==◌, if◌then◌else◌, length, take, replicate, splice, Bytes,
}
use nx_nexus.Outcome.{
  Outcome, ok, err, fault, truncated, too_large, overflow, out_of_range, unsupported, reject, ◌>>=◌,
  ◌>>◌,
}
use nx_nexus.Format.{le_bytes, add_overflows, or_overflow}
use nx_nexus.PartitionFs.{partition_fs_header_size, pfs0_entry_size, pfs0_magic}

abbrev pub nsp_max_entries : ℕ
nsp_max_entries = 64

abbrev pub nsp_max_name_len : ℕ
nsp_max_name_len = 80

pub record NspBuilderEntry : Type 0 where
  pub name : Bytes
  pub size : ℕ
  pub data_offset : ℕ

pub record NspBuilder : Type 0 where
  pub entries : List NspBuilderEntry
  pub header : Bytes
  pub header_size : ℕ
  pub total_size : ℕ
  pub finalised : Bool

-- `header_off` counts when `in_header` holds, the other two positions when it does not.
pub record NspLocation : Type 0 where
  pub in_header : Bool
  pub header_off : ℕ
  pub entry_index : ℕ
  pub entry_off : ℕ
  pub run : ℕ

abbrev pub count : NspBuilder → ℕ
count b = length b.entries

unfoldable pub init : Bytes → NspBuilder
init header_buf = record {
  entries = [];
  header = header_buf;
  header_size = 0;
  total_size = 0;
  finalised = false;
}

unfoldable pub add : NspBuilder → Bytes → ℕ → Outcome (Unit {0}) × NspBuilder
add b name size =
    if b.finalised
    then (err unsupported, b)
    else if leb nsp_max_entries (count b)
    then (err too_large, b)
    else if length name == 0 || leb nsp_max_name_len (length name)
    then (err too_large, b)
    else (
      ok tt,
      record b {
        entries = b.entries ++ (record { name = name; size = size; data_offset = 0 } ∷ []);
      },
    )

-- `memcpy` into a buffer.
unfoldable pub write : ℕ → Bytes → Bytes → Outcome Bytes
write off bs buf = if leb (off + length bs) (length buf) then ok (splice off bs buf) else fault

abbrev pub name_table_size : List NspBuilderEntry → ℕ
name_table_size [] = 0
name_table_size (e ∷ es) = length e.name + 1 + name_table_size es

-- `wr_u64`, `wr_u64` and `wr_u32` at the slot that starts at `slot`.
unfoldable pub write_fields : ℕ → ℕ → ℕ → ℕ → Bytes → Outcome Bytes
write_fields slot data_offset size name_offset header = do
  h1 ← write (slot + 0x00) (le_bytes 8 data_offset) header
  h2 ← write (slot + 0x08) (le_bytes 8 size) h1
  write (slot + 0x10) (le_bytes 4 name_offset) h2

-- The writes of one round of the loop in `nspBuilderFinalize`: the slot's three fields, and the
-- name with its NUL.
unfoldable pub write_entry : ℕ → Bytes → ℕ → ℕ → ℕ → NspBuilderEntry → Outcome Bytes
write_entry total header i data_offset name_offset e = do
  let slot = partition_fs_header_size + i * pfs0_entry_size
  let table = partition_fs_header_size + total * pfs0_entry_size
  h ← write_fields slot data_offset e.size name_offset header
  write (table + name_offset) (e.name ++ (0 ∷ [])) h

-- What the loop leaves: the data offset it ended at or its failure, the buffer, the entries.
pub record Filled : Type 0 where
  pub status : Outcome ℕ
  pub header : Bytes
  pub entries : List NspBuilderEntry

abbrev pub stopped : Outcome ℕ → Bytes → List NspBuilderEntry → Filled
stopped status header entries = record { status = status; header = header; entries = entries }

abbrev pub and_entry : NspBuilderEntry → Filled → Filled
and_entry e r = record r { entries = e ∷ r.entries }

-- The loop, on the entries from index `i` on.
unfoldable pub fill : ℕ → Bytes → ℕ → ℕ → ℕ → List NspBuilderEntry → Filled
fill total header i data_offset name_offset [] = stopped (ok data_offset) header []
fill total header i data_offset name_offset (e ∷ es) =
    let e' : NspBuilderEntry = record e { data_offset = data_offset } in
    elim (write_entry total header i data_offset name_offset e) [
      | ok header' ↦ elim (add_overflows data_offset e.size) [
        | none ↦ stopped (err overflow) header' (e' ∷ es)
        | some next ↦
            and_entry e' (fill total header' (i + 1) next (name_offset + (length e.name + 1)) es)
      ]
      | err x ↦ stopped (err x) header (e ∷ es)
      | fault ↦ stopped fault header (e ∷ es)
    ]

-- The three fields at the start of the zeroed header.
unfoldable pub write_start : Bytes → ℕ → ℕ → ℕ → Outcome Bytes
write_start header header_size total table = do
  h0 ← write 0 (replicate header_size 0) header
  h1 ← write 0x0 (le_bytes 4 pfs0_magic) h0
  h2 ← write 0x4 (le_bytes 4 total) h1
  write 0x8 (le_bytes 4 table) h2

-- What follows the loop.
unfoldable pub close : NspBuilder → ℕ → Filled → Outcome (Unit {0}) × NspBuilder
close b header_size r =
    let b' : NspBuilder = record b { entries = r.entries; header = r.header } in
    elim (do data_offset ← r.status; or_overflow (add_overflows header_size data_offset)) [
      | ok total ↦
          (ok tt, record b' { header_size = header_size; total_size = total; finalised = true })
      | err x ↦ (err x, b')
      | fault ↦ (fault, b')
    ]

unfoldable pub finalize : NspBuilder → Outcome (Unit {0}) × NspBuilder
finalize b =
    let table = name_table_size b.entries in
    let header_size = partition_fs_header_size + count b * pfs0_entry_size + table in
    if b.finalised
    then (ok tt, b)
    else if count b == 0
    then (err truncated, b)
    else if ltb (length b.header) header_size
    then (err too_large, b)
    else elim (write_start b.header header_size (count b) table) [
      | ok header ↦ close b header_size (fill (count b) header 0 0 0 b.entries)
      | err x ↦ (err x, b)
      | fault ↦ (fault, b)
    ]

unfoldable pub total_size : NspBuilder → ℕ
total_size b = if b.finalised then b.total_size else 0

-- The header's first `header_size` bytes, once it is built.
unfoldable pub header : NspBuilder → Option Bytes
header b = if b.finalised then some (take b.header_size b.header) else none

-- The scan over the entries from index `i` on.
unfoldable pub locate_entry : List NspBuilderEntry → ℕ → ℕ → Outcome NspLocation
locate_entry [] i data_pos = err out_of_range
locate_entry (e ∷ es) i data_pos =
    if ltb data_pos e.data_offset || leb ((e.data_offset + e.size) % 2 ^ 64) data_pos
    then locate_entry es (i + 1) data_pos
    else ok (record {
      in_header = false;
      header_off = 0;
      entry_index = i;
      entry_off = data_pos - e.data_offset;
      run = e.size - (data_pos - e.data_offset);
    })

unfoldable pub locate : NspBuilder → ℕ → Outcome NspLocation
locate b offset = do
  reject (if b.finalised then false else true) unsupported
  reject (leb b.total_size offset) out_of_range
  if ltb offset b.header_size
      then ok (record {
        in_header = true;
        header_off = offset;
        entry_index = 0;
        entry_off = 0;
        run = b.header_size - offset;
      })
      else locate_entry b.entries 0 (offset - b.header_size)
