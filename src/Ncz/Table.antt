-- ===== src/Ncz/Table.antt =====
-- An accepted section table is the header's own: as many sections as it counts, each read from its
-- entry.
use mathlib.Core.Path.{subst}
use nx_nexus.Base.{
  ℕ, zero, suc, ◌+◌, ◌*◌, ◌≡◌, refl, ap, List, [], ◌∷◌, arith, length, slice, Bytes, IsBytes, inl,
  inr,
}
use nx_nexus.Outcome.{ok, >>=-eq-ok, Outcome-cases, ok-injective}
use nx_nexus.Format.{le, rd_u64, read}
use nx_nexus.Format.Words.{rd-eq-ok, read-eq-ok}
use nx_nexus.Ncz.{NczContext, NczSection, read_section, check_section, parse_sections, parse_header}
use nx_nexus.Ncz.Parsed.{parse_header-Parsed, section_count-header}
use nx_nexus.Ncz.Tiling.{Tiles, parse_header-Tiles}

-- The section has the fields of the header's entry `i`.
pub record IsEntry (buf : Bytes) (i : ℕ) (s : NczSection) : Type 0 where
  pub offset : s.offset ≡ le (slice (16 + i * 0x38 + 0x00) 8 buf)
  pub size : s.size ≡ le (slice (16 + i * 0x38 + 0x08) 8 buf)
  pub crypto_type : s.crypto_type ≡ le (slice (16 + i * 0x38 + 0x10) 8 buf)
  pub key : s.key ≡ slice (16 + i * 0x38 + 0x20) 0x10 buf
  pub counter : s.counter ≡ slice (16 + i * 0x38 + 0x30) 0x10 buf

-- The sections are those of the entries from `i` on, in their order.
abbrev pub Entries : Bytes → ℕ → List NczSection → Type 0
Entries buf i [] = Unit
Entries buf i (s ∷ ss) = IsEntry buf i s × Entries buf (i + 1) ss

read_section-IsEntry :
    (buf : Bytes) (i : ℕ) {s : NczSection} → read_section buf i ≡ ok s → IsEntry buf i s
unfolding read_section
read_section-IsEntry buf i {s} h =
    let p = 16 + i * 0x38 in
    let (offset, ro, h1) = >>=-eq-ok (rd_u64 buf (p + 0x00)) _ h in
    let (size, rs, h2) = >>=-eq-ok (rd_u64 buf (p + 0x08)) _ h1 in
    let (crypto, rc, h3) = >>=-eq-ok (rd_u64 buf (p + 0x10)) _ h2 in
    let (key, rk, h4) = >>=-eq-ok (read 0x10 buf (p + 0x20)) _ h3 in
    let (counter, rn, e) = >>=-eq-ok (read 0x10 buf (p + 0x30)) _ h4 in
    subst (IsEntry buf i) (ok-injective e) (record {
      offset = (rd-eq-ok 8 (p + 0x00) buf ro).1;
      size = (rd-eq-ok 8 (p + 0x08) buf rs).1;
      crypto_type = (rd-eq-ok 8 (p + 0x10) buf rc).1;
      key = (read-eq-ok 0x10 (p + 0x20) buf rk).1;
      counter = (read-eq-ok 0x10 (p + 0x30) buf rn).1;
    })

parse_sections-Entries :
    (buf : Bytes) (n i from : ℕ) {end : ℕ} {ss : List NczSection}
    → parse_sections buf n i from ≡ (ok end, ss)
    → (length ss ≡ n) × Entries buf i ss
unfolding parse_sections
parse_sections-Entries buf zero i from {end} {ss} h =
    subst (λ l. (length l ≡ 0) × Entries buf i l) (ap (λ r. r.1) h) (refl, tt)
parse_sections-Entries buf (suc n) i from {end} {ss} h = elim (Outcome-cases (read_section buf i)) [
  | inr (inl (e, r)) ↦ absurd (ground (arith, h, r))
  | inr (inr r) ↦ absurd (ground (arith, h, r))
  | inl (s, r) ↦ elim (Outcome-cases (check_section s from)) [
    | inr (inl (e, c)) ↦ absurd (ground (arith, h, r, c))
    | inr (inr c) ↦ absurd (ground (arith, h, r, c))
    | inl (next, c) ↦
        let rest = parse_sections buf n (i + 1) next in
        let first : rest.0 ≡ ok end = ground (arith, h, r, c) in
        let list : s ∷ rest.1 ≡ ss = ground (arith, h, r, c) in
        let (long, entries) = parse_sections-Entries buf n (i + 1) next (λ j. (first j, rest.1)) in
        subst (λ l. (length l ≡ suc n) × Entries buf i l) list
          (ap suc long, (read_section-IsEntry buf i r, entries))
  ]
]

-- What an accepted table is.
pub record IsTable (buf : Bytes) (ctx : NczContext) : Type 0 where
  pub counted : ctx.section_count ≡ le (slice 8 8 buf)
  pub whole : length ctx.sections ≡ ctx.section_count
  pub entries : Entries buf 0 ctx.sections
  pub tiles : Tiles 0x4000 ctx.sections ctx.decompressed_size

-- An accepted header gives as many sections as the count in it says, each with the fields of its entry
-- in the table, in their order; and they tile the NCA from 0x4000 to the decompressed size: each
-- starts where the one before ends, none is empty and none has the crypto of a header.
pub parse_header-IsTable :
    (buf : Bytes) {ctx : NczContext}
    → IsBytes buf
    → parse_header buf ≡ (ok tt, ctx)
    → IsTable buf ctx
parse_header-IsTable buf {ctx} b h =
    let p = parse_header-Parsed buf h in
    let (long, entries) = parse_sections-Entries buf ctx.section_count 0 0x4000 p.sections_are in
    record {
      counted = section_count-header buf p.counted;
      whole = long;
      entries = entries;
      tiles = parse_header-Tiles buf b h;
    }
