-- ===== src/PartitionFs/Tests.antt =====
-- A PFS0 header of two files, "a" of 3 bytes and "b" of 5, and the parser's theorems on it.
use nx_nexus.Base.{◌≤◌, ◌<◌, ◌≡◌, ◌≢◌, refl, ◌⊎◌, [], ◌∷◌, ◌++◌, length, take, drop, replicate}
use nx_nexus.Outcome.{ok, err, fault, bad_magic, truncated, bad_name_table, out_of_range}
use nx_nexus.Format.{rd}
use nx_nexus.CString.{c_string, memchr_nul, until_nul, has_nul, bytes_eq}
use nx_nexus.Format.{read, add_overflows, mul_overflows}
use nx_nexus.PartitionFs.{
  pfs0, PartitionFsEntry, init, peek_header_size, classify, compute_header_size, check_names,
  check_name, get_entry, find_entry,
}
use nx_nexus.Search.{Finds, find_from}
use nx_nexus.Samples.{start_of, entry_bytes, two_files, context}
use nx_nexus.PartitionFs.Parsed.{IsParsed, init-IsParsed, init-ne-fault}
use nx_nexus.PartitionFs.Lookup.{get_entry_total, find_entry-Finds, has_name}
use nx_nexus.PartitionFs.Peek.{peek_decides, Ends}

parse_two : init two_files ≡ ok context
unfolding init rd classify compute_header_size mul_overflows add_overflows check_names check_name
    memchr_nul has_nul read
parse_two = refl

second_file :
    find_entry context (b'b' ∷ []) ≡ ok (record { name = b'b' ∷ []; offset = 3; size = 5 })
unfolding find_entry find_from get_entry rd c_string until_nul bytes_eq
second_file = refl

refusals :
    (init (take 67 two_files) ≡ err truncated)
    × (init (b'X' ∷ drop 1 two_files) ≡ err bad_magic)
    × (init (start_of 0 4 ++ replicate 3 0) ≡ err truncated)
    × (init (start_of 1 2 ++ (entry_bytes 0 0 2 ++ (b'a' ∷ 0 ∷ []))) ≡ err bad_name_table)
    × (init (start_of 1 2 ++ (entry_bytes 0 0 0 ++ (b'a' ∷ b'b' ∷ []))) ≡ err bad_name_table)
unfolding init rd classify compute_header_size mul_overflows add_overflows check_names check_name
    memchr_nul has_nul read
refusals = (refl, refl, refl, refl, refl)

peek_two : peek_header_size (start_of 2 4) ≡ ok (pfs0, 68)
unfolding peek_header_size rd classify compute_header_size mul_overflows add_overflows
peek_two = refl

init-IsParsed_example : IsParsed two_files context
init-IsParsed_example = init-IsParsed two_files parse_two

get_entry_total_example :
    ((1 < 2) × ((e : PartitionFsEntry) × (get_entry context 1 ≡ ok e)))
    ⊎ ((2 ≤ 1) × (get_entry context 1 ≡ err out_of_range))
get_entry_total_example = get_entry_total two_files 1 parse_two

find_entry-Finds_example :
    Finds (get_entry context) (has_name (b'b' ∷ [])) 0 (find_entry context (b'b' ∷ []))
find_entry-Finds_example = find_entry-Finds two_files (b'b' ∷ []) parse_two

peek_decides_example :
    ((length two_files < 68) × (init two_files ≡ err truncated))
    ⊎ ((68 ≤ length two_files) × Ends pfs0 68 (init two_files))
peek_decides_example = peek_decides (start_of 2 4) (drop 16 two_files) peek_two

init-ne-fault_example : init (take 40 two_files) ≢ fault
init-ne-fault_example = init-ne-fault (take 40 two_files)
