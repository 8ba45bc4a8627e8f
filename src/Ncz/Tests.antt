-- ===== src/Ncz/Tests.antt =====
-- A table of two sections: 16 bytes of AES-CTR from 0x4000, then 32 bytes stored plain.
use nx_nexus.Base.{
  ℕ, ◌/◌, ◌<◌, ◌≤◌, ◌≡◌, ◌≢◌, ◌⊎◌, refl, [], ◌∷◌, ◌++◌, some, none, arith, replicate, take, drop,
  length, Bytes, false,
}
use nx_nexus.Outcome.{ok, err, fault, unsupported}
use nx_nexus.Format.{rd, read, add_overflows}
use nx_nexus.CString.{bytes_eq}
use nx_nexus.Ncz.{
  NczContext, NczSection, section_magic, block_magic, has_magic, header_size_for, read_section,
  check_section, parse_sections, finish, parse_table, section_count, parse_header, section_at,
  find_section, build_counter,
}
use nx_nexus.Ncz.Tiling.{InOne, section_at_lem}
use nx_nexus.Ncz.Table.{IsTable, parse_header-IsTable}
use nx_nexus.Ncz.Counter.{be_from, build_counter_lem}
use nx_nexus.Ncz.Bounds.{parse_header-ne-fault, parse_header_overread}

abbrev u64_bytes : ℕ → ℕ → Bytes
u64_bytes low high = low ∷ high ∷ replicate 6 0

abbrev entry : ℕ → ℕ → ℕ → ℕ → Bytes
entry low size crypto mark =
    u64_bytes low 0x40
    ++ (u64_bytes size 0
        ++ (u64_bytes crypto 0 ++ (replicate 8 0 ++ (replicate 16 mark ++ replicate 8 mark))))

abbrev table : Bytes
table = section_magic ++ (u64_bytes 2 0 ++ (entry 0 0x10 3 0xa0 ++ entry 0x10 0x20 1 0xa1))

abbrev spare : Bytes
spare = replicate 8 0xff

abbrev first : NczSection
first = record {
  offset = 0x4000;
  size = 0x10;
  crypto_type = 3;
  key = replicate 16 0xa0;
  counter = replicate 8 0xa0 ++ u64_bytes 0x10 0x40;
}

abbrev second : NczSection
second = record {
  offset = 0x4010;
  size = 0x20;
  crypto_type = 1;
  key = replicate 16 0xa1;
  counter = replicate 8 0xa1 ++ spare;
}

abbrev context : NczContext
context = record {
  section_count = 2;
  sections = first ∷ second ∷ [];
  header_bytes = 128;
  decompressed_size = 0x4030;
  block_compressed = false;
}

parse_two : parse_header (table ++ spare) ≡ (ok tt, context)
unfolding parse_header parse_table section_count has_magic bytes_eq read rd parse_sections
    read_section check_section add_overflows finish
parse_two = refl

-- Exactly the bytes of the table: the last counter is read past the end.
parse_exact : (parse_header table).0 ≡ fault
unfolding parse_header parse_table section_count has_magic bytes_eq read rd parse_sections
    read_section check_section add_overflows finish
parse_exact = refl

refuses_blocks : (parse_header (table ++ block_magic)).0 ≡ err unsupported
unfolding parse_header parse_table section_count has_magic bytes_eq read rd parse_sections
    read_section check_section add_overflows finish
refuses_blocks = refl

sizes : header_size_for table ≡ ok 128
unfolding header_size_for has_magic bytes_eq read rd
sizes = refl

sizes_spare : header_size_for (table ++ spare) ≡ ok 128
unfolding header_size_for has_magic bytes_eq read rd
sizes_spare = refl

lookup : (section_at context 0x4012 ≡ some second) × (section_at context 0x4030 ≡ none)
unfolding section_at find_section
lookup = (refl, refl)

parse_header-IsTable_example : IsTable (table ++ spare) context
parse_header-IsTable_example = parse_header-IsTable (table ++ spare) (omega arith) parse_two

section_at_example :
    ((0x4000 ≤ 0x4012)
      × (0x4012 < 0x4030)
      × ((s : NczSection) × (section_at context 0x4012 ≡ some s)
          × InOne (first ∷ second ∷ []) 0x4012 s))
    ⊎ (((0x4012 < 0x4000) ⊎ (0x4030 ≤ 0x4012)) × (section_at context 0x4012 ≡ none))
section_at_example = section_at_lem (table ++ spare) 0x4012 (omega arith) parse_two

build_counter_example :
    (take 8 (build_counter first 0x4000) ≡ replicate 8 0xa0)
    × (be_from 0 (drop 8 (build_counter first 0x4000)) ≡ 0x4000 / 16)
    × (length (build_counter first 0x4000) ≡ 16)
build_counter_example = build_counter_lem first 0x4000 refl (omega arith)

parse_header-ne-fault_example : (parse_header (table ++ spare)).0 ≢ fault
parse_header-ne-fault_example = parse_header-ne-fault (table ++ spare) sizes_spare (omega arith)

parse_header_overread_example : (parse_header table).0 ≡ fault
parse_header_overread_example = parse_header_overread table spare sizes (omega arith) parse_two
