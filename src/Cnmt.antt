-- ===== src/Cnmt.antt =====
-- src/format/cnmt.c and include/nexus/cnmt.h: the manifest that lists the contents of a title.
pub mod Parsed
pub mod Totals
mod Tests
use nx_nexus.Base.{ℕ, zero, suc, ◌+◌, ◌*◌, Bool, ltb, leb, ◌==◌, length, Bytes}
use nx_nexus.Outcome.{
  Outcome, ok, err, fault, truncated, too_large, out_of_range, reject, ◌>>=◌, ◌>>◌,
}
use nx_nexus.Format.{read, rd_u8, rd_u16, rd_u32, rd_u40, rd_u64, add_overflows, or_overflow}
use nx_nexus.Search.{find_from}

abbrev pub cnmt_header_size : ℕ
cnmt_header_size = 0x20

abbrev pub content_info_size : ℕ
content_info_size = 0x38

abbrev pub meta_info_size : ℕ
meta_info_size = 0x10

abbrev pub max_contents : ℕ
max_contents = 0x1000

pub record CnmtContentInfo : Type 0 where
  pub hash : Bytes
  pub content_id : Bytes
  pub size : ℕ
  pub content_attributes : ℕ
  pub content_type : ℕ
  pub id_offset : ℕ

-- `blob` is the field `data`.
pub record CnmtContext : Type 0 where
  pub blob : Bytes
  pub len : ℕ
  pub title_id : ℕ
  pub version : ℕ
  pub meta_type : ℕ
  pub meta_platform : ℕ
  pub extended_header_size : ℕ
  pub content_count : ℕ
  pub content_meta_count : ℕ
  pub content_meta_attributes : ℕ
  pub required_download_system_version : ℕ
  pub content_info_off : ℕ

-- The bytes that the counts of the header call for.
unfoldable pub required_size : ℕ → ℕ → ℕ → Outcome ℕ
required_size ext_header_size content_count meta_count = do
  required ←
      or_overflow
        (add_overflows (cnmt_header_size + ext_header_size) (content_count * content_info_size))
  or_overflow (add_overflows required (meta_count * meta_info_size))

-- The fields of the context, once the sizes are accepted.
unfoldable pub read_context : Bytes → ℕ → ℕ → ℕ → Outcome CnmtContext
read_context blob ext_header_size content_count meta_count = do
  title_id ← rd_u64 blob 0x00
  version ← rd_u32 blob 0x08
  meta_type ← rd_u8 blob 0x0C
  meta_platform ← rd_u8 blob 0x0D
  content_meta_attributes ← rd_u8 blob 0x14
  required_download_system_version ← rd_u32 blob 0x18
  ok (record {
    blob = blob;
    len = length blob;
    title_id = title_id;
    version = version;
    meta_type = meta_type;
    meta_platform = meta_platform;
    extended_header_size = ext_header_size;
    content_count = content_count;
    content_meta_count = meta_count;
    content_meta_attributes = content_meta_attributes;
    required_download_system_version = required_download_system_version;
    content_info_off = cnmt_header_size + ext_header_size;
  })

unfoldable pub init : Bytes → Outcome CnmtContext
init blob = do
  reject (ltb (length blob) cnmt_header_size) truncated
  ext_header_size ← rd_u16 blob 0x0E
  content_count ← rd_u16 blob 0x10
  meta_count ← rd_u16 blob 0x12
  reject (ltb max_contents content_count) too_large
  required ← required_size ext_header_size content_count meta_count
  reject (ltb (length blob) required) truncated
  read_context blob ext_header_size content_count meta_count

unfoldable pub get_content_count : CnmtContext → ℕ
get_content_count ctx = ctx.content_count

-- Where content `index` starts.
abbrev pub content_at : CnmtContext → ℕ → ℕ
content_at ctx index = ctx.content_info_off + index * content_info_size

unfoldable pub get_content_info : CnmtContext → ℕ → Outcome CnmtContentInfo
get_content_info ctx index = do
  reject (leb ctx.content_count index) out_of_range
  hash ← read 0x20 ctx.blob (content_at ctx index + 0x00)
  content_id ← read 0x10 ctx.blob (content_at ctx index + 0x20)
  size ← rd_u40 ctx.blob (content_at ctx index + 0x30)
  content_attributes ← rd_u8 ctx.blob (content_at ctx index + 0x35)
  content_type ← rd_u8 ctx.blob (content_at ctx index + 0x36)
  id_offset ← rd_u8 ctx.blob (content_at ctx index + 0x37)
  ok (record {
    hash = hash;
    content_id = content_id;
    size = size;
    content_attributes = content_attributes;
    content_type = content_type;
    id_offset = id_offset;
  })

unfoldable pub find_content_by_type : CnmtContext → ℕ → Outcome CnmtContentInfo
find_content_by_type ctx content_type =
    find_from (get_content_info ctx) (λ info. info.content_type == content_type) ctx.content_count 0

-- The loop of `cnmtGetTotalContentSize`, with `n` rounds left.
unfoldable pub total_from : CnmtContext → ℕ → ℕ → ℕ → Outcome ℕ
total_from ctx zero i total = ok total
total_from ctx (suc n) i total = do
  info ← get_content_info ctx i
  next ← or_overflow (add_overflows total info.size)
  total_from ctx n (i + 1) next

unfoldable pub get_total_content_size : CnmtContext → Outcome ℕ
get_total_content_size ctx = total_from ctx ctx.content_count 0 0
