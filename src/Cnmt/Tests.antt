-- ===== src/Cnmt/Tests.antt =====
-- A manifest of two contents: a Program of 0x0102 bytes and a Control of 3.
use nx_nexus.Base.{
  ℕ, ◌+◌, ◌<◌, ◌≤◌, ◌≡◌, ◌⊎◌, refl, List, [], ◌∷◌, ◌++◌, arith, replicate, take, Bytes,
}
use nx_nexus.Outcome.{ok, err, truncated, out_of_range}
use nx_nexus.Search.{Finds}
use nx_nexus.Format.{rd, read, add_overflows}
use nx_nexus.Cnmt.{
  CnmtContext, CnmtContentInfo, init, required_size, read_context, get_content_info,
  find_content_by_type, total_from, get_total_content_size,
}
use nx_nexus.Cnmt.Parsed.{
  IsManifest, init-IsManifest, get_content_info_total, find_content_by_type-Finds, has_type,
}
use nx_nexus.Cnmt.Totals.{Contents, sizes, get_total_content_size_lem}

abbrev zeros : ℕ → Bytes
zeros n = replicate n 0

-- A content whose hash and id are one byte repeated.
abbrev content : ℕ → ℕ → ℕ → ℕ → Bytes
content mark size0 size1 kind =
    replicate 0x30 mark ++ (size0 ∷ size1 ∷ 0 ∷ 0 ∷ 0 ∷ 0 ∷ kind ∷ 0 ∷ [])

abbrev manifest : Bytes
manifest =
    (7 ∷ zeros 13) ++ (0 ∷ 0 ∷ 2 ∷ 0 ∷ 0 ∷ 0 ∷ zeros 12) ++ content 0xaa 2 1 1 ++ content 0xbb 3 0 3

abbrev context : CnmtContext
context = record {
  blob = manifest;
  len = 144;
  title_id = 7;
  version = 0;
  meta_type = 0;
  meta_platform = 0;
  extended_header_size = 0;
  content_count = 2;
  content_meta_count = 0;
  content_meta_attributes = 0;
  required_download_system_version = 0;
  content_info_off = 0x20;
}

parse_manifest : init manifest ≡ ok context
unfolding init rd required_size read_context add_overflows
parse_manifest = refl

short : init (take 143 manifest) ≡ err truncated
unfolding init rd required_size read_context add_overflows
short = refl

total : get_total_content_size context ≡ ok (0x0102 + 3)
unfolding get_total_content_size total_from get_content_info rd read add_overflows
total = refl

init-IsManifest_example : IsManifest manifest context
init-IsManifest_example = init-IsManifest manifest (omega arith) parse_manifest

get_content_info_total_example :
    ((1 < 2) × ((info : CnmtContentInfo) × (get_content_info context 1 ≡ ok info)))
    ⊎ ((2 ≤ 1) × (get_content_info context 1 ≡ err out_of_range))
get_content_info_total_example = get_content_info_total manifest 1 (omega arith) parse_manifest

find_content_by_type-Finds_example :
    Finds (get_content_info context) (has_type 3) 0 (find_content_by_type context 3)
find_content_by_type-Finds_example =
    find_content_by_type-Finds manifest 3 (omega arith) parse_manifest

get_total_content_size_example :
    (infos : List CnmtContentInfo) × Contents context 0 infos
    × (get_total_content_size context ≡ ok (sizes infos))
get_total_content_size_example = get_total_content_size_lem manifest (omega arith) parse_manifest
