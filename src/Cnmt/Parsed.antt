-- ===== src/Cnmt/Parsed.antt =====
-- What `cnmtInit` establishes, and that no manifest makes the parser read outside the buffer.
use native.Mathlib.Decide.{dec_lt}
use mathlib.Core.Path.{subst}
use nx_nexus.Base.{
  ℕ, ◌+◌, ◌*◌, ◌^◌, ◌≤◌, ◌<◌, ◌≡◌, ◌≢◌, ◌⊎◌, refl, Bool, inl, inr, arith, length, slice, Bytes,
  IsBytes, ltb, ◌==◌,
}
use nx_nexus.Outcome.{
  ok, err, fault, truncated, too_large, out_of_range, reject, reject-ne-fault, >>=-eq-ok,
  >>=-ne-fault, ok-injective,
}
use nx_nexus.Format.{le, rd_u8, rd_u16, rd_u32, rd_u64, add_overflows, or_overflow}
use nx_nexus.Format.Words.{
  rd_lem, read_lem, rd-ne-fault, rd-lt, rd-eq-ok, or_overflow-ne-fault, add_overflows_iff,
}
use nx_nexus.Search.{Finds, find_from-Finds}
use nx_nexus.Cnmt.{
  CnmtContext, CnmtContentInfo, required_size, read_context, init, content_at, get_content_info,
  find_content_by_type, max_contents,
}

-- The sizes are 16-bit fields, so their checked sum never overflows.
required_size_lem :
    (ext count meta : ℕ)
    → ext < 2 ^ 16
    → count < 2 ^ 16
    → meta < 2 ^ 16
    → required_size ext count meta ≡ ok (0x20 + ext + count * 0x38 + meta * 0x10)
unfolding required_size
required_size_lem ext count meta he hc hm = ground (
  arith,
  (add_overflows_iff (0x20 + ext) (count * 0x38) (0x20 + ext + count * 0x38) (omega arith)
      (omega arith)).1,
  (add_overflows_iff (0x20 + ext + count * 0x38) (meta * 0x10)
      (0x20 + ext + count * 0x38 + meta * 0x10) (omega arith) (omega arith)).1,
)

-- What a context that `init` returned is known to satisfy.
pub record IsManifest (blob : Bytes) (ctx : CnmtContext) : Type 0 where
  pub blob_is : ctx.blob ≡ blob
  pub len_is : ctx.len ≡ length blob
  pub title_id : ctx.title_id ≡ le (slice 0x00 8 blob)
  pub version : ctx.version ≡ le (slice 0x08 4 blob)
  pub meta_type : ctx.meta_type ≡ le (slice 0x0C 1 blob)
  pub meta_platform : ctx.meta_platform ≡ le (slice 0x0D 1 blob)
  pub extended_header_size : ctx.extended_header_size ≡ le (slice 0x0E 2 blob)
  pub content_count : ctx.content_count ≡ le (slice 0x10 2 blob)
  pub content_meta_count : ctx.content_meta_count ≡ le (slice 0x12 2 blob)
  pub content_meta_attributes : ctx.content_meta_attributes ≡ le (slice 0x14 1 blob)
  pub required_download_system_version :
      ctx.required_download_system_version ≡ le (slice 0x18 4 blob)
  pub info_at : ctx.content_info_off ≡ 0x20 + ctx.extended_header_size
  pub few : ctx.content_count ≤ max_contents
  pub inside :
      0x20 + ctx.extended_header_size + ctx.content_count * 0x38 + ctx.content_meta_count * 0x10
      ≤ length ctx.blob

read_context-IsManifest :
    (blob : Bytes) (ext count meta : ℕ) {ctx : CnmtContext}
    → ext ≡ le (slice 0x0E 2 blob)
    → count ≡ le (slice 0x10 2 blob)
    → meta ≡ le (slice 0x12 2 blob)
    → count ≤ max_contents
    → 0x20 + ext + count * 0x38 + meta * 0x10 ≤ length blob
    → read_context blob ext count meta ≡ ok ctx
    → IsManifest blob ctx
unfolding read_context
read_context-IsManifest blob ext count meta re rc rm hc fits h =
    let (title, rt, h1) = >>=-eq-ok (rd_u64 blob 0x00) _ h in
    let (version, rv, h2) = >>=-eq-ok (rd_u32 blob 0x08) _ h1 in
    let (kind, rk, h3) = >>=-eq-ok (rd_u8 blob 0x0C) _ h2 in
    let (platform, rp, h4) = >>=-eq-ok (rd_u8 blob 0x0D) _ h3 in
    let (attributes, ra, h5) = >>=-eq-ok (rd_u8 blob 0x14) _ h4 in
    let (required, rr, e) = >>=-eq-ok (rd_u32 blob 0x18) _ h5 in
    subst (IsManifest blob) (ok-injective e) (record {
      blob_is = refl;
      len_is = refl;
      title_id = (rd-eq-ok 8 0x00 blob rt).1;
      version = (rd-eq-ok 4 0x08 blob rv).1;
      meta_type = (rd-eq-ok 1 0x0C blob rk).1;
      meta_platform = (rd-eq-ok 1 0x0D blob rp).1;
      extended_header_size = re;
      content_count = rc;
      content_meta_count = rm;
      content_meta_attributes = (rd-eq-ok 1 0x14 blob ra).1;
      required_download_system_version = (rd-eq-ok 4 0x18 blob rr).1;
      info_at = refl;
      few = hc;
      inside = fits;
    })

-- Every field that `cnmtInit` gives for a manifest it accepts is the little-endian field at its offset
-- in the header, and the manifest holds the extended header and all the contents and meta records that
-- those fields count.
pub init-IsManifest :
    (blob : Bytes) {ctx : CnmtContext} → IsBytes blob → init blob ≡ ok ctx → IsManifest blob ctx
unfolding init
init-IsManifest blob b h =
    let (_, long, h1) = >>=-eq-ok (reject (ltb (length blob) 0x20) truncated) _ h in
    let (ext, re, h2) = >>=-eq-ok (rd_u16 blob 0x0E) _ h1 in
    let (count, rc, h3) = >>=-eq-ok (rd_u16 blob 0x10) _ h2 in
    let (meta, rm, h4) = >>=-eq-ok (rd_u16 blob 0x12) _ h3 in
    let (_, few, h5) = >>=-eq-ok (reject (ltb max_contents count) too_large) _ h4 in
    let (required, rq, h6) = >>=-eq-ok (required_size ext count meta) _ h5 in
    let (_, whole, h7) = >>=-eq-ok (reject (ltb (length blob) required) truncated) _ h6 in
    let size =
      required_size_lem ext count meta (rd-lt 2 0x0E blob b re) (rd-lt 2 0x10 blob b rc)
        (rd-lt 2 0x12 blob b rm) in
    read_context-IsManifest blob ext count meta (rd-eq-ok 2 0x0E blob re).1
      (rd-eq-ok 2 0x10 blob rc).1 (rd-eq-ok 2 0x12 blob rm).1 (ground arith)
      (ground (arith, rq, size, whole)) h7

read_context-ne-fault :
    (blob : Bytes) (ext count meta : ℕ)
    → 0x20 ≤ length blob
    → read_context blob ext count meta ≢ fault
unfolding read_context
read_context-ne-fault blob ext count meta long =
    >>=-ne-fault (rd_u64 blob 0x00) _ (rd-ne-fault 8 0x00 blob (omega arith)) λ _ _.
      >>=-ne-fault (rd_u32 blob 0x08) _ (rd-ne-fault 4 0x08 blob (omega arith)) λ _ _.
        >>=-ne-fault (rd_u8 blob 0x0C) _ (rd-ne-fault 1 0x0C blob (omega arith)) λ _ _.
          >>=-ne-fault (rd_u8 blob 0x0D) _ (rd-ne-fault 1 0x0D blob (omega arith)) λ _ _.
            >>=-ne-fault (rd_u8 blob 0x14) _ (rd-ne-fault 1 0x14 blob (omega arith)) λ _ _.
              >>=-ne-fault (rd_u32 blob 0x18) _ (rd-ne-fault 4 0x18 blob (omega arith)) λ _ _ e. cc

required_size-ne-fault : (ext count meta : ℕ) → required_size ext count meta ≢ fault
unfolding required_size
required_size-ne-fault ext count meta =
    >>=-ne-fault (or_overflow (add_overflows (0x20 + ext) (count * 0x38))) _
      (or_overflow-ne-fault _) λ r _. or_overflow-ne-fault (add_overflows r (meta * 0x10))

-- `cnmtInit` reads inside the buffer, whatever the buffer holds.
pub manifest-ne-fault : (blob : Bytes) → init blob ≢ fault
unfolding init
manifest-ne-fault blob =
    >>=-ne-fault (reject (ltb (length blob) 0x20) truncated) _ (reject-ne-fault _ _) λ _ long.
      >>=-ne-fault (rd_u16 blob 0x0E) _ (rd-ne-fault 2 0x0E blob (ground arith)) λ ext _.
        >>=-ne-fault (rd_u16 blob 0x10) _ (rd-ne-fault 2 0x10 blob (ground arith)) λ count _.
          >>=-ne-fault (rd_u16 blob 0x12) _ (rd-ne-fault 2 0x12 blob (ground arith)) λ meta _.
            >>=-ne-fault (reject (ltb max_contents count) too_large) _ (reject-ne-fault _ _) λ _ _.
              >>=-ne-fault (required_size ext count meta) _ (required_size-ne-fault ext count meta)
                λ required _.
                  >>=-ne-fault (reject (ltb (length blob) required) truncated) _
                    (reject-ne-fault _ _)
                    λ _ _. read_context-ne-fault blob ext count meta (ground arith)

module _ {blob : Bytes} {ctx : CnmtContext} (p : IsManifest blob ctx) (i : ℕ) where
  -- The content that the record's own fields describe.
  abbrev pub info_of : CnmtContentInfo
  info_of = record {
    hash = slice (content_at ctx i + 0x00) 0x20 ctx.blob;
    content_id = slice (content_at ctx i + 0x20) 0x10 ctx.blob;
    size = le (slice (content_at ctx i + 0x30) 5 ctx.blob);
    content_attributes = le (slice (content_at ctx i + 0x35) 1 ctx.blob);
    content_type = le (slice (content_at ctx i + 0x36) 1 ctx.blob);
    id_offset = le (slice (content_at ctx i + 0x37) 1 ctx.blob);
  }

  pub get_content_info_lem : i < ctx.content_count → get_content_info ctx i ≡ ok info_of
  unfolding get_content_info
  get_content_info_lem h =
      let inside : content_at ctx i + 0x38 ≤ length ctx.blob = omega (arith, p.inside, p.info_at) in
      ground (
        arith,
        read_lem 0x20 (content_at ctx i + 0x00) ctx.blob (omega arith),
        read_lem 0x10 (content_at ctx i + 0x20) ctx.blob (omega arith),
        rd_lem 5 (content_at ctx i + 0x30) ctx.blob (omega arith),
        rd_lem 1 (content_at ctx i + 0x35) ctx.blob (omega arith),
        rd_lem 1 (content_at ctx i + 0x36) ctx.blob (omega arith),
        rd_lem 1 (content_at ctx i + 0x37) ctx.blob (omega arith),
      )

pub get_content_info_past :
    (ctx : CnmtContext) (i : ℕ) → ctx.content_count ≤ i → get_content_info ctx i ≡ err out_of_range
unfolding get_content_info
get_content_info_past ctx i h = ground arith

-- On an accepted manifest every index below the count gives a content, and every other index is
-- refused; no index makes the read leave the buffer.
pub get_content_info_total :
    (blob : Bytes) {ctx : CnmtContext} (i : ℕ)
    → IsBytes blob
    → init blob ≡ ok ctx
    → ((i < ctx.content_count) × ((info : CnmtContentInfo) × (get_content_info ctx i ≡ ok info)))
      ⊎ ((ctx.content_count ≤ i) × (get_content_info ctx i ≡ err out_of_range))
get_content_info_total blob {ctx} i b h = elim (dec_lt i ctx.content_count) [
  | yes lt ↦
      let p = init-IsManifest blob b h in inl (lt, (info_of p i, get_content_info_lem p i lt))
  | no ge ↦ inr (omega arith, get_content_info_past ctx i (omega arith))
]

-- Whether a content has the type looked for.
abbrev pub has_type : ℕ → CnmtContentInfo → Bool
has_type content_type info = info.content_type == content_type

-- A lookup by type on an accepted manifest returns the first content of that type, or `not_found`
-- when no content has it.
pub find_content_by_type-Finds :
    (blob : Bytes) {ctx : CnmtContext} (content_type : ℕ)
    → IsBytes blob
    → init blob ≡ ok ctx
    → Finds (get_content_info ctx) (has_type content_type) 0 (find_content_by_type ctx content_type)
unfolding find_content_by_type
find_content_by_type-Finds blob {ctx} content_type b h =
    let p = init-IsManifest blob b h in
    find_from-Finds (get_content_info ctx) (has_type content_type) ctx.content_count
      (λ j lt. (info_of p j, get_content_info_lem p j lt))
      (λ j e ge g. ground (arith, g, get_content_info_past ctx j ge)) ctx.content_count 0
      (omega arith)
