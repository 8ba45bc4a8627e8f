-- ===== src/PartitionFs.antt =====
-- src/format/partition_fs.c and include/nexus/partition_fs.h: the PFS0 and HFS0 containers.
-- A header blob is the list of its `header_len` bytes. The null checks of the code have no
-- counterpart: an argument of the model is always there.
pub mod Parsed
pub mod Lookup
pub mod Peek
mod Tests
use nx_nexus.Base.{
  ℕ, zero, suc, ◌+◌, ◌-◌, ◌*◌, Bool, true, false, not, Option, none, some, ltb, leb, ◌==◌,
  if◌then◌else◌, length, Bytes,
}
use nx_nexus.Outcome.{
  Outcome, ok, err, fault, bad_magic, truncated, too_large, bad_name_table, out_of_range, not_found,
  reject, ◌>>=◌, ◌>>◌,
}
use nx_nexus.Format.{rd_u32, rd_u64, add_overflows, mul_overflows, or_overflow}
use nx_nexus.Search.{find_from}
use nx_nexus.CString.{c_string, memchr_nul, bytes_eq}

abbrev pub pfs0_magic : ℕ
pfs0_magic = 0x30534650

abbrev pub hfs0_magic : ℕ
hfs0_magic = 0x30534648

abbrev pub partition_fs_header_size : ℕ
partition_fs_header_size = 0x10

abbrev pub pfs0_entry_size : ℕ
pfs0_entry_size = 0x18

abbrev pub hfs0_entry_size : ℕ
hfs0_entry_size = 0x40

abbrev pub max_entries : ℕ
max_entries = 0x10000

abbrev pub max_name_table : ℕ
max_name_table = 0x100000

pub data PartitionFsType : Type 0 where
  pfs0 hfs0 : PartitionFsType

pub record PartitionFsEntry : Type 0 where
  pub name : Bytes
  pub offset : ℕ
  pub size : ℕ

pub record PartitionFsContext : Type 0 where
  pub fs_type : PartitionFsType
  pub header : Bytes
  pub header_len : ℕ
  pub entry_count : ℕ
  pub name_table_size : ℕ
  pub entry_size : ℕ
  pub header_size : ℕ
  pub name_table_off : ℕ

unfoldable pub compute_header_size : ℕ → ℕ → ℕ → Outcome ℕ
compute_header_size entry_count name_table_size entry_size = do
  reject (ltb max_entries entry_count) too_large
  reject (ltb max_name_table name_table_size) too_large
  entries_bytes ← or_overflow (mul_overflows entry_count entry_size)
  total ← or_overflow (add_overflows partition_fs_header_size entries_bytes)
  or_overflow (add_overflows total name_table_size)

unfoldable pub classify : ℕ → Outcome (PartitionFsType × ℕ)
classify magic =
    if magic == pfs0_magic
    then ok (pfs0, pfs0_entry_size)
    else if magic == hfs0_magic
    then ok (hfs0, hfs0_entry_size)
    else err bad_magic

unfoldable pub peek_header_size : Bytes → Outcome (PartitionFsType × ℕ)
peek_header_size buf = do
  reject (ltb (length buf) partition_fs_header_size) truncated
  magic ← rd_u32 buf 0x0
  c ← classify magic
  entry_count ← rd_u32 buf 0x4
  name_table_size ← rd_u32 buf 0x8
  header_size ← compute_header_size entry_count name_table_size c.1
  ok (c.0, header_size)

-- Where entry `index` starts. With a context that `init` returned, this lies inside the header.
abbrev pub entry_at : PartitionFsContext → ℕ → ℕ
entry_at ctx index = partition_fs_header_size + index * ctx.entry_size

-- One round of the loop in `partitionFsInit`.
unfoldable pub check_name : PartitionFsContext → ℕ → Outcome (Unit {0})
check_name ctx i = do
  name_off ← rd_u32 ctx.header (entry_at ctx i + 0x10)
  reject (leb ctx.name_table_size name_off) bad_name_table
  ended ← memchr_nul ctx.header (ctx.name_table_off + name_off) (ctx.name_table_size - name_off)
  reject (not ended) bad_name_table

-- The first number is that of the rounds left.
unfoldable pub check_names : PartitionFsContext → ℕ → ℕ → Outcome (Unit {0})
check_names ctx zero i = ok tt
check_names ctx (suc n) i = do check_name ctx i; check_names ctx n (i + 1)

unfoldable pub init : Bytes → Outcome PartitionFsContext
init header = do
  reject (ltb (length header) partition_fs_header_size) truncated
  magic ← rd_u32 header 0x0
  c ← classify magic
  entry_count ← rd_u32 header 0x4
  name_table_size ← rd_u32 header 0x8
  header_size ← compute_header_size entry_count name_table_size c.1
  reject (ltb (length header) header_size) truncated
  let ctx : PartitionFsContext = record {
    fs_type = c.0;
    header = header;
    header_len = length header;
    entry_count = entry_count;
    name_table_size = name_table_size;
    entry_size = c.1;
    header_size = header_size;
    name_table_off = partition_fs_header_size + entry_count * c.1;
  }
  check_names ctx entry_count 0
  ok ctx

unfoldable pub get_entry_count : PartitionFsContext → ℕ
get_entry_count ctx = ctx.entry_count

unfoldable pub get_data_offset : PartitionFsContext → ℕ
get_data_offset ctx = ctx.header_size

unfoldable pub get_entry : PartitionFsContext → ℕ → Outcome PartitionFsEntry
get_entry ctx index = do
  reject (leb ctx.entry_count index) out_of_range
  offset ← rd_u64 ctx.header (entry_at ctx index + 0x0)
  size ← rd_u64 ctx.header (entry_at ctx index + 0x8)
  name_off ← rd_u32 ctx.header (entry_at ctx index + 0x10)
  name ← c_string ctx.header (ctx.name_table_off + name_off)
  ok (record { name = name; offset = offset; size = size })

unfoldable pub find_entry : PartitionFsContext → Bytes → Outcome PartitionFsEntry
find_entry ctx name = find_from (get_entry ctx) (λ e. bytes_eq e.name name) ctx.entry_count 0
