-- ===== src/Ncz/Parsed.antt =====
-- What a parse that succeeds has read.
use nx_nexus.Base.{
  ℕ, ◌+◌, ◌*◌, ◌≤◌, ◌<◌, ◌≡◌, ◌≢◌, false, not, arith, length, slice, sym, ◌∙◌, Bytes, ltb, ◌==◌,
  inl, inr,
}
use nx_nexus.Outcome.{
  ok, fault, truncated, bad_magic, too_large, Outcome-cases, reject, reject-ne-fault, >>=-eq-ok,
  >>=-ne-fault, ok-injective,
}
use nx_nexus.Format.{le, rd_u64}
use nx_nexus.Format.Words.{rd-ne-fault, read_lem, rd-eq-ok}
use nx_nexus.Ncz.{
  NczContext, has_magic, section_magic, parse_sections, finish, parse_table, section_count,
  parse_header, header_size_for,
}

-- The two stages agree: a table that is counted has the announced size.
pub header_size_for-section_count :
    (buf : Bytes) {count : ℕ}
    → section_count buf ≡ ok count
    → (header_size_for buf ≡ ok (16 + count * 0x38)) × (0 < count) × (count ≤ 64)
unfolding section_count header_size_for
header_size_for-section_count buf {count} h =
    let (_, long, h1) = >>=-eq-ok (reject (ltb (length buf) 16) truncated) _ h in
    let (magic, m, h2) = >>=-eq-ok (has_magic section_magic buf 0) _ h1 in
    let (_, is_ncz, h3) = >>=-eq-ok (reject (not magic) bad_magic) _ h2 in
    let (n, rn, h4) = >>=-eq-ok (rd_u64 buf 8) _ h3 in (ground arith, ground arith, ground arith)

-- The count of an accepted header is the one that stands in it.
pub section_count-header :
    (buf : Bytes) {count : ℕ} → section_count buf ≡ ok count → count ≡ le (slice 8 8 buf)
unfolding section_count
section_count-header buf {count} h =
    let (_, long, h1) = >>=-eq-ok (reject (ltb (length buf) 16) truncated) _ h in
    let (magic, m, h2) = >>=-eq-ok (has_magic section_magic buf 0) _ h1 in
    let (_, is_ncz, h3) = >>=-eq-ok (reject (not magic) bad_magic) _ h2 in
    let (n, rn, h4) = >>=-eq-ok (rd_u64 buf 8) _ h3 in
    let (_, some_count, h5) = >>=-eq-ok (reject (n == 0) bad_magic) _ h4 in
    let (_, few, e) = >>=-eq-ok (reject (ltb 64 n) too_large) _ h5 in
    sym (ok-injective e) ∙ (rd-eq-ok 8 8 buf rn).1

pub section_count-ne-fault : (buf : Bytes) → section_count buf ≢ fault
unfolding section_count has_magic
section_count-ne-fault buf =
    >>=-ne-fault (reject (ltb (length buf) 16) truncated) _ (reject-ne-fault _ _) λ _ long.
      >>=-ne-fault (has_magic section_magic buf 0) _ (λ e. ground (arith, read_lem 8 0 buf, e))
        λ magic _. >>=-ne-fault (reject (not magic) bad_magic) _ (reject-ne-fault _ _) λ _ _.
          >>=-ne-fault (rd_u64 buf 8) _ (rd-ne-fault 8 8 buf (ground arith)) λ count _.
            >>=-ne-fault (reject (count == 0) bad_magic) _ (reject-ne-fault _ _) λ _ _.
              >>=-ne-fault (reject (ltb 64 count) too_large) _ (reject-ne-fault _ _) λ _ _ e. cc

-- A parse that succeeds went through the whole table.
pub record Parsed (buf : Bytes) (ctx : NczContext) : Type 0 where
  pub counted : section_count buf ≡ ok ctx.section_count
  pub table_is : ctx.header_bytes ≡ 16 + ctx.section_count * 0x38
  pub whole : ctx.header_bytes ≤ length buf
  pub sections_are :
      parse_sections buf ctx.section_count 0 0x4000 ≡ (ok ctx.decompressed_size, ctx.sections)
  pub streamed : ctx.block_compressed ≡ false

pub parse_header-Parsed :
    (buf : Bytes) {ctx : NczContext} → parse_header buf ≡ (ok tt, ctx) → Parsed buf ctx
unfolding parse_header parse_table finish
parse_header-Parsed buf {ctx} h = elim (Outcome-cases (section_count buf)) [
  | inr (inl (e, c)) ↦ absurd (ground (arith, h, c))
  | inr (inr c) ↦ absurd (ground (arith, h, c))
  | inl (count, c) ↦ elim (Outcome-cases (parse_sections buf count 0 0x4000).0) [
    | inr (inl (e, r)) ↦ absurd (ground (arith, h, c, r))
    | inr (inr r) ↦ absurd (ground (arith, h, c, r))
    | inl (end, r) ↦ ground (arith, h, c, r)
  ]
]
