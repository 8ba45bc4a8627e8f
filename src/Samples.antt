-- ===== src/Samples.antt =====
-- Containers that the tests of several components share.
use nx_nexus.Base.{ℕ, [], ◌∷◌, ◌++◌, Bytes}
use nx_nexus.PartitionFs.{pfs0, PartitionFsContext}

abbrev pub u64_bytes : ℕ → Bytes
u64_bytes v = v ∷ 0 ∷ 0 ∷ 0 ∷ 0 ∷ 0 ∷ 0 ∷ 0 ∷ []

abbrev pub u32_bytes : ℕ → Bytes
u32_bytes v = v ∷ 0 ∷ 0 ∷ 0 ∷ []

-- magic, number of files, size of the name table
abbrev pub start_of : ℕ → ℕ → Bytes
start_of files table =
    b'P' ∷ b'F' ∷ b'S' ∷ b'0' ∷ (u32_bytes files ++ (u32_bytes table ++ u32_bytes 0))

abbrev pub entry_bytes : ℕ → ℕ → ℕ → Bytes
entry_bytes offset size name =
    u64_bytes offset ++ (u64_bytes size ++ (u32_bytes name ++ u32_bytes 0))

abbrev pub two_files : Bytes
two_files = start_of 2 4 ++ (entry_bytes 0 3 0 ++ (entry_bytes 3 5 2 ++ (b'a' ∷ 0 ∷ b'b' ∷ 0 ∷ [])))

abbrev pub context : PartitionFsContext
context = record {
  fs_type = pfs0;
  header = two_files;
  header_len = 68;
  entry_count = 2;
  name_table_size = 4;
  entry_size = 0x18;
  header_size = 68;
  name_table_off = 64;
}
