-- ===== src/Ncz/Bounds.antt =====
-- How far `nczParseHeader` reads: the counter field of a section entry ends 8 bytes behind the entry.
use mathlib.Core.Path.{subst}
use nx_nexus.Base.{
  ℕ, zero, suc, ◌+◌, ◌*◌, ◌≤◌, ◌<◌, ◌≡◌, ◌≢◌, sym, ◌∙◌, ◌++◌, arith, length, length-append, Bytes,
  inl, inr,
}
use nx_nexus.Outcome.{ok, fault, >>=-ne-fault, ok-injective, Outcome-cases}
use nx_nexus.Format.{rd_u64, read}
use nx_nexus.Format.Words.{
  rd_lem, read_lem, rd-ne-fault, rd-append, read-append, read-ne-fault, read_fault,
}
use nx_nexus.Ncz.{
  NczContext, NczSection, cleared, has_magic, read_section, check_section, parse_sections, finish,
  parse_table, section_count, parse_header, header_size_for,
}
use nx_nexus.Ncz.Parsed.{parse_header-Parsed, section_count-ne-fault, header_size_for-section_count}

read_section-ne-fault :
    (buf : Bytes) (i : ℕ) → 16 + i * 0x38 + 0x40 ≤ length buf → read_section buf i ≢ fault
unfolding read_section
read_section-ne-fault buf i h =
    let p = 16 + i * 0x38 in
    >>=-ne-fault (rd_u64 buf (p + 0x00)) _ (rd-ne-fault 8 (p + 0x00) buf (omega arith)) λ _ _.
      >>=-ne-fault (rd_u64 buf (p + 0x08)) _ (rd-ne-fault 8 (p + 0x08) buf (omega arith)) λ _ _.
        >>=-ne-fault (rd_u64 buf (p + 0x10)) _ (rd-ne-fault 8 (p + 0x10) buf (omega arith)) λ _ _.
          >>=-ne-fault (read 0x10 buf (p + 0x20)) _
            (read-ne-fault 0x10 (p + 0x20) buf (omega arith))
            λ _ _.
              >>=-ne-fault (read 0x10 buf (p + 0x30)) _
                (read-ne-fault 0x10 (p + 0x30) buf (omega arith)) λ _ _ e. cc

check_section-ne-fault : (s : NczSection) (expected : ℕ) → check_section s expected ≢ fault
unfolding check_section
check_section-ne-fault s expected h = ground arith

parse_sections-ne-fault :
    (buf : Bytes) (n i from : ℕ)
    → 16 + (i + n) * 0x38 + 8 ≤ length buf
    → (parse_sections buf n i from).0 ≢ fault
unfolding parse_sections
parse_sections-ne-fault buf zero i from h e = cc
parse_sections-ne-fault buf (suc n) i from h e = elim (Outcome-cases (read_section buf i)) [
  | inr (inr r) ↦ read_section-ne-fault buf i (omega arith) r
  | inr (inl (x, r)) ↦ ground (arith, e, r)
  | inl (s, r) ↦ elim (Outcome-cases (check_section s from)) [
    | inr (inr c) ↦ check_section-ne-fault s from c
    | inr (inl (x, c)) ↦ ground (arith, e, r, c)
    | inl (end, c) ↦
        ground (arith, e, r, c, parse_sections-ne-fault buf n (i + 1) end (omega arith))
  ]
]

finish-ne-fault :
    (buf : Bytes) (table : ℕ) (ctx : NczContext) (end : ℕ) → (finish buf table ctx end).0 ≢ fault
unfolding finish has_magic
finish-ne-fault buf table ctx end h = ground (arith, h, read_lem 8 table buf)

-- With the 8 bytes that the decoder reads behind the table, which it sizes by `nczHeaderSizeFor`,
-- the parse stays inside the buffer.
pub parse_header-ne-fault :
    (buf : Bytes) {n : ℕ}
    → header_size_for buf ≡ ok n
    → n + 8 ≤ length buf
    → (parse_header buf).0 ≢ fault
unfolding parse_header parse_table
parse_header-ne-fault buf {n} hn fits e = elim (Outcome-cases (section_count buf)) [
  | inr (inr c) ↦ section_count-ne-fault buf c
  | inr (inl (x, c)) ↦ ground (arith, e, c)
  | inl (count, c) ↦
      let size = header_size_for-section_count buf c in
      let safe = parse_sections-ne-fault buf count 0 0x4000 (ground (arith, hn, size.0)) in
      elim (Outcome-cases (parse_sections buf count 0 0x4000).0) [
        | inr (inr r) ↦ safe r
        | inr (inl (x, r)) ↦ ground (arith, e, c, r)
        | inl (end, r) ↦ ground (
          arith,
          e,
          c,
          r,
          finish-ne-fault buf (16 + count * 0x38)
              (record cleared {
                section_count = count;
                sections = (parse_sections buf count 0 0x4000).1;
              })
              end,
        )
      ]
]

parse_sections_step :
    (buf : Bytes) (n i from : ℕ) {s : NczSection} {end : ℕ}
    → read_section buf i ≡ ok s
    → check_section s from ≡ ok end
    → (parse_sections buf (suc n) i from).0 ≡ (parse_sections buf n (i + 1) end).0
unfolding parse_sections
parse_sections_step buf n i from r c = ground (arith, r, c)

module _ (buf rest : Bytes) where
  read_section_inside :
      (i : ℕ)
      → 16 + i * 0x38 + 0x40 ≤ length buf
      → read_section (buf ++ rest) i ≡ read_section buf i
  unfolding read_section
  read_section_inside i h =
      let p = 16 + i * 0x38 in
      ground (
        arith,
        rd-append 8 (p + 0x00) buf rest (omega arith),
        rd-append 8 (p + 0x08) buf rest (omega arith),
        rd-append 8 (p + 0x10) buf rest (omega arith),
        read-append 0x10 (p + 0x20) buf rest (omega arith),
        read-append 0x10 (p + 0x30) buf rest (omega arith),
      )

  read_section_last : (i : ℕ) → 16 + i * 0x38 + 0x38 ≡ length buf → read_section buf i ≡ fault
  unfolding read_section
  read_section_last i h =
      let p = 16 + i * 0x38 in
      ground (
        arith,
        rd_lem 8 (p + 0x00) buf (omega arith),
        rd_lem 8 (p + 0x08) buf (omega arith),
        rd_lem 8 (p + 0x10) buf (omega arith),
        read_lem 0x10 (p + 0x20) buf (omega arith),
        read_fault 0x10 (p + 0x30) buf (omega arith),
      )

  parse_sections_last :
      (n i from : ℕ) {end : ℕ}
      → 16 + (i + suc n) * 0x38 ≡ length buf
      → (parse_sections (buf ++ rest) (suc n) i from).0 ≡ ok end
      → (parse_sections buf (suc n) i from).0 ≡ fault
  unfolding parse_sections
  parse_sections_last zero i from h e = ground (arith, read_section_last i (omega arith))
  parse_sections_last (suc n) i from h e =
      let same = read_section_inside i (omega arith) in
      elim (Outcome-cases (read_section buf i)) [
        | inr (inr r) ↦ absurd (read_section-ne-fault buf i (omega arith) r)
        | inr (inl (x, r)) ↦ absurd (ground (arith, e, r, same))
        | inl (s, r) ↦ elim (Outcome-cases (check_section s from)) [
          | inr (inr c) ↦ absurd (check_section-ne-fault s from c)
          | inr (inl (x, c)) ↦ absurd (ground (arith, e, r, same, c))
          | inl (end', c) ↦
              parse_sections_step buf (suc n) i from r c
              ∙ parse_sections_last n (i + 1) end' (omega arith)
                  (sym (parse_sections_step (buf ++ rest) (suc n) i from (same ∙ r) c) ∙ e)
        ]
      ]

  section_count-append : 16 ≤ length buf → section_count (buf ++ rest) ≡ section_count buf
  unfolding section_count has_magic
  section_count-append h = ground (
    arith,
    read-append 8 0 buf rest (omega arith),
    rd-append 8 8 buf rest (omega arith),
    length-append buf rest,
  )

  parse_header_at :
      (count : ℕ)
      → section_count buf ≡ ok (suc count)
      → length buf ≡ 16 + suc count * 0x38
      → (parse_sections buf (suc count) 0 0x4000).0 ≡ fault
      → (parse_header buf).0 ≡ fault
  unfolding parse_header parse_table
  parse_header_at count c l e = ground (arith, c, e)

header_size_for-pos :
    (buf : Bytes) {n : ℕ}
    → header_size_for buf ≡ ok n
    → 0 < n
    → (count : ℕ) × (section_count buf ≡ ok (suc count)) × (n ≡ 16 + suc count * 0x38)
unfolding section_count header_size_for
header_size_for-pos buf {n} h pos = elim (Outcome-cases (section_count buf)) [
  | inr (inr c) ↦ absurd (section_count-ne-fault buf c)
  | inr (inl (x, c)) ↦ absurd (ground (arith, h, c))
  | inl (zero, c) ↦ absurd (ground (arith, c))
  | inl (suc count, c) ↦ (count, c, ground (arith, h, (header_size_for-section_count buf c).0))
]

-- A buffer that is not empty and of exactly the size that `nczHeaderSizeFor` announces, whose table
-- is accepted when more bytes follow it, makes the parse read behind the buffer's end.
pub parse_header_overread :
    (buf rest : Bytes) {ctx : NczContext}
    → header_size_for buf ≡ ok (length buf)
    → 0 < length buf
    → parse_header (buf ++ rest) ≡ (ok tt, ctx)
    → (parse_header buf).0 ≡ fault
parse_header_overread buf rest {ctx} hn pos h =
    let (count, c, l) = header_size_for-pos buf hn pos in
    let p = parse_header-Parsed (buf ++ rest) h in
    let same : ctx.section_count ≡ suc count =
      ok-injective (sym p.counted ∙ section_count-append buf rest (omega arith) ∙ c) in
    let sections =
      subst
        (λ k. parse_sections (buf ++ rest) k 0 0x4000 ≡ (ok ctx.decompressed_size, ctx.sections))
        same p.sections_are in
    parse_header_at buf rest count c l
      (parse_sections_last buf rest count 0 0x4000 (omega arith) (λ j. (sections j).0))
