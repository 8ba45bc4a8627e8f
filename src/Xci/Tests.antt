-- ===== src/Xci/Tests.antt =====
-- A card header whose root partition is at 0xf000, and a root that lists two partitions.
use nx_nexus.Base.{ℕ, ◌+◌, ◌<◌, ◌≤◌, ◌^◌, ◌≡◌, ◌⊎◌, refl, [], ◌∷◌, ◌++◌, arith, replicate, Bytes}
use nx_nexus.Outcome.{ok, err, overflow}
use nx_nexus.Format.{rd, add_overflows, mul_overflows, read}
use nx_nexus.CString.{c_string, until_nul, bytes_eq}
use nx_nexus.Search.{find_from}
use nx_nexus.Samples.{context}
use nx_nexus.PartitionFs.{PartitionFsEntry, find_entry, get_entry, get_data_offset}
use nx_nexus.Xci.{XciHeader, parse_header, find_partition, rom_size_bytes}
use nx_nexus.Xci.Bounds.{IsParsed, parse_header-IsParsed, find_partition_cases}

abbrev zeros : ℕ → Bytes
zeros n = replicate n 0

abbrev card : Bytes
card =
    zeros 0x100
    ++ (b'H'
        ∷ b'E'
        ∷ b'A'
        ∷ b'D'
        ∷ (zeros 9
            ++ (0xFA
                ∷ 1
                ∷ 2
                ∷ (zeros 8
                    ++ (4
                        ∷ 0
                        ∷ 0
                        ∷ 0
                        ∷ (zeros 0x14 ++ (0 ∷ 0xf0 ∷ (zeros 6 ++ (0 ∷ 2 ∷ zeros 0xC6)))))))))

abbrev header : XciHeader
header = record {
  root_offset = 0xf000;
  root_header_size = 0x200;
  valid_data_end = 2560;
  cart_size = 2 ^ 30;
  header_version = 1;
  flags = 2;
}

parse_card : parse_header card ≡ ok header
unfolding parse_header rd add_overflows mul_overflows rom_size_bytes
parse_card = refl

second : PartitionFsEntry
second = record { name = b'b' ∷ []; offset = 3; size = 5 }

find_second : find_entry context (b'b' ∷ []) ≡ ok second
unfolding find_entry find_from get_entry rd read c_string until_nul bytes_eq second
find_second = refl

parse_header-IsParsed_example : IsParsed card header
parse_header-IsParsed_example = parse_header-IsParsed card (omega arith) parse_card

find_partition_example :
    ((0xf000 + get_data_offset context + 3 + 5 < 2 ^ 64)
      × (find_partition header context (b'b' ∷ []) ≡ ok (0xf000 + get_data_offset context + 3, 5)))
    ⊎ ((2 ^ 64 ≤ 0xf000 + get_data_offset context + 3 + 5)
        × (find_partition header context (b'b' ∷ []) ≡ err overflow))
unfolding get_data_offset second
find_partition_example =
    find_partition_cases header context (b'b' ∷ []) (omega arith) (omega arith) (omega arith)
      (omega arith) find_second
