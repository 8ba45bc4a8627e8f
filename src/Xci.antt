-- ===== src/Xci.antt =====
-- src/format/xci.c and include/nexus/xci.h: the header of a game card image, and where its
-- partitions lie.
pub mod Bounds
mod Tests
use nx_nexus.Base.{ℕ, ◌+◌, ◌*◌, ◌^◌, not, ◌||◌, ltb, ◌==◌, if◌then◌else◌, length, Bytes}
use nx_nexus.Outcome.{Outcome, ok, err, fault, truncated, bad_magic, too_large, reject, ◌>>=◌, ◌>>◌}
use nx_nexus.Format.{rd_u8, rd_u32, rd_u64, add_overflows, mul_overflows, or_overflow}
use nx_nexus.PartitionFs
use nx_nexus.PartitionFs.{PartitionFsContext, find_entry, get_data_offset}

abbrev pub xci_header_size : ℕ
xci_header_size = 0x200

abbrev pub xci_magic : ℕ
xci_magic = 0x44414548

abbrev pub media_unit : ℕ
media_unit = 0x200

pub record XciHeader : Type 0 where
  pub root_offset : ℕ
  pub root_header_size : ℕ
  pub valid_data_end : ℕ
  pub cart_size : ℕ
  pub header_version : ℕ
  pub flags : ℕ

abbrev gib : ℕ
gib = 2 ^ 30

unfoldable pub rom_size_bytes : ℕ → ℕ
rom_size_bytes rom_size =
    if rom_size == 0xFA
    then 1 * gib
    else if rom_size == 0xF8
    then 2 * gib
    else if rom_size == 0xF0
    then 4 * gib
    else if rom_size == 0xE0
    then 8 * gib
    else if rom_size == 0xE1
    then 16 * gib
    else if rom_size == 0xE2
    then 32 * gib
    else 0

unfoldable pub parse_header : Bytes → Outcome XciHeader
parse_header buf = do
  reject (ltb (length buf) xci_header_size) truncated
  magic ← rd_u32 buf 0x100
  reject (not (magic == xci_magic)) bad_magic
  root_offset ← rd_u64 buf 0x130
  root_header_size ← rd_u64 buf 0x138
  header_version ← rd_u8 buf 0x10E
  flags ← rd_u8 buf 0x10F
  rom_size ← rd_u8 buf 0x10D
  end_pages ← rd_u32 buf 0x118
  valid_data_end ← or_overflow (mul_overflows (end_pages + 1) media_unit)
  reject (ltb root_offset xci_header_size) truncated
  reject
      (ltb root_header_size PartitionFs.partition_fs_header_size
        || ltb PartitionFs.max_name_table root_header_size)
      too_large
  root_end ← or_overflow (add_overflows root_offset root_header_size)
  ok (record {
    root_offset = root_offset;
    root_header_size = root_header_size;
    valid_data_end = valid_data_end;
    cart_size = rom_size_bytes rom_size;
    header_version = header_version;
    flags = flags;
  })

-- The offset and the size of the partition.
unfoldable pub find_partition : XciHeader → PartitionFsContext → Bytes → Outcome (ℕ × ℕ)
find_partition hdr root name = do
  entry ← find_entry root name
  base ← or_overflow (add_overflows hdr.root_offset (get_data_offset root))
  absolute ← or_overflow (add_overflows base entry.offset)
  end ← or_overflow (add_overflows absolute entry.size)
  ok (absolute, entry.size)
