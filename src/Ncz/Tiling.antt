-- ===== src/Ncz/Tiling.antt =====
-- The sections of an accepted table tile the NCA behind its header, so each offset has one section.
use native.Mathlib.Decide.{dec_lt}
use mathlib.Core.Path.{subst}
use nx_nexus.Base.{
  ℕ, zero, suc, ◌+◌, ◌*◌, ◌^◌, ◌≤◌, ◌<◌, ◌≡◌, ◌≢◌, ◌⊎◌, inl, inr, refl, ap, ◌∙◌, List, [], ◌∷◌,
  none, some, arith, get_elem?, Bytes, IsBytes,
}
use nx_nexus.Outcome.{ok, >>=-eq-ok, Outcome-cases}
use nx_nexus.Format.{rd_u64, read, add_overflows}
use nx_nexus.Format.Words.{rd-lt}
use nx_nexus.Ncz.{
  NczContext, NczSection, read_section, check_section, parse_sections, parse_header, find_section,
  section_at,
}
use nx_nexus.Ncz.Parsed.{parse_header-Parsed}

-- Sections that lie end to end from `from` to `end`, none empty and none with header crypto.
abbrev pub Tiles : ℕ → List NczSection → ℕ → Type 0
Tiles from [] end = from ≡ end
Tiles from (s ∷ ss) end =
    (s.offset ≡ from)
    × (0 < s.size)
    × (s.crypto_type ≢ 2)
    × (from + s.size < 2 ^ 64)
    × Tiles (from + s.size) ss end

read_section-sized :
    (buf : Bytes) (i : ℕ) {s : NczSection}
    → IsBytes buf
    → read_section buf i ≡ ok s
    → (s.offset < 2 ^ 64) × (s.size < 2 ^ 64)
unfolding read_section
read_section-sized buf i {s} b h =
    let p = 16 + i * 0x38 in
    let (offset, ro, h1) = >>=-eq-ok (rd_u64 buf (p + 0x00)) _ h in
    let (size, rs, h2) = >>=-eq-ok (rd_u64 buf (p + 0x08)) _ h1 in
    let (crypto, _, h3) = >>=-eq-ok (rd_u64 buf (p + 0x10)) _ h2 in
    let (key, _, h4) = >>=-eq-ok (read 0x10 buf (p + 0x20)) _ h3 in
    let (counter, _, e) = >>=-eq-ok (read 0x10 buf (p + 0x30)) _ h4 in
    let lo = rd-lt 8 (p + 0x00) buf b ro in
    let ls = rd-lt 8 (p + 0x08) buf b rs in ground (arith, e, lo, ls)

check_section-eq-ok :
    (s : NczSection) (expected : ℕ) {end : ℕ}
    → s.offset < 2 ^ 64
    → s.size < 2 ^ 64
    → check_section s expected ≡ ok end
    → (s.offset ≡ expected)
      × (0 < s.size)
      × (s.crypto_type ≢ 2)
      × (expected + s.size < 2 ^ 64)
      × (end ≡ expected + s.size)
unfolding check_section add_overflows
check_section-eq-ok s expected ho hs h = ground arith

parse_sections-Tiles :
    (buf : Bytes) (n i from : ℕ) {end : ℕ} {ss : List NczSection}
    → IsBytes buf
    → parse_sections buf n i from ≡ (ok end, ss)
    → Tiles from ss end
unfolding parse_sections
parse_sections-Tiles buf zero i from b h = ground (arith, h)
parse_sections-Tiles buf (suc n) i from {end} {ss} b h = elim (Outcome-cases (read_section buf i)) [
  | inr (inl (e, r)) ↦ absurd (ground (arith, h, r))
  | inr (inr r) ↦ absurd (ground (arith, h, r))
  | inl (s, r) ↦ elim (Outcome-cases (check_section s from)) [
    | inr (inl (e, c)) ↦ absurd (ground (arith, h, r, c))
    | inr (inr c) ↦ absurd (ground (arith, h, r, c))
    | inl (next, c) ↦
        let rest = parse_sections buf n (i + 1) next in
        let sized = read_section-sized buf i b r in
        let checked = check_section-eq-ok s from sized.0 sized.1 c in
        let first : rest.0 ≡ ok end = ground (arith, h, r, c) in
        let list : s ∷ rest.1 ≡ ss = ground (arith, h, r, c) in
        let tiles = parse_sections-Tiles buf n (i + 1) next b (λ j. (first j, rest.1)) in
        subst (λ l. Tiles from l end) list
          (
            checked.0,
            checked.1,
            checked.2,
            checked.3,
            subst (λ k. Tiles k rest.1 end) checked.4 tiles,
          )
  ]
]

-- The sections of an accepted header tile the NCA from 0x4000 to its decompressed size.
pub parse_header-Tiles :
    (buf : Bytes) {ctx : NczContext}
    → IsBytes buf
    → parse_header buf ≡ (ok tt, ctx)
    → Tiles 0x4000 ctx.sections ctx.decompressed_size
parse_header-Tiles buf {ctx} b h =
    let p = parse_header-Parsed buf h in
    parse_sections-Tiles buf ctx.section_count 0 0x4000 b p.sections_are

-- Offset `off` lies in section `s` of the list and in no other.
pub record InOne (ss : List NczSection) (off : ℕ) (s : NczSection) : Type 0 where
  pub index : ℕ
  pub elem_is : get_elem? ss index ≡ some s
  pub from : s.offset ≤ off
  pub to : off < s.offset + s.size
  pub only :
      (j : ℕ) (t : NczSection)
      → get_elem? ss j ≡ some t
      → t.offset ≤ off
      → off < t.offset + t.size
      → j ≡ index

Tiles-le : (ss : List NczSection) (from end : ℕ) → Tiles from ss end → from ≤ end
Tiles-le [] from end h = omega arith
Tiles-le (s ∷ ss) from end h = omega (arith, Tiles-le ss (from + s.size) end h.4)

-- Every section of the list starts at or behind `from`, and no later one before its end.
Tiles-from :
    (ss : List NczSection) (j from end : ℕ) {t : NczSection}
    → Tiles from ss end
    → get_elem? ss j ≡ some t
    → from ≤ t.offset
Tiles-from [] j from end h g = absurd (cc)
Tiles-from (s ∷ ss) zero from end h g = ground (arith, g, h.0)
Tiles-from (s ∷ ss) (suc j) from end h g = omega (arith, Tiles-from ss j (from + s.size) end h.4 g)

module _ (from end : ℕ) (s : NczSection) (ss : List NczSection) (t : Tiles from (s ∷ ss) end)
    (off : ℕ) where
  find_here : from ≤ off → off < from + s.size → find_section (s ∷ ss) off ≡ some s
  unfolding find_section
  find_here lo hi = ground (arith, t.0, t.3)

  find_next : from + s.size ≤ off → find_section (s ∷ ss) off ≡ find_section ss off
  unfolding find_section
  find_next past = ground (arith, t.0, t.3)

  find_before : off < from → find_section (s ∷ ss) off ≡ find_section ss off
  unfolding find_section
  find_before low = ground (arith, t.0, t.3)

  only_here :
      off < from + s.size
      → (j : ℕ) (u : NczSection) → get_elem? (s ∷ ss) j ≡ some u
      → u.offset ≤ off
      → off < u.offset + u.size
      → j ≡ 0
  only_here hi zero u g lo' hi' = refl
  only_here hi (suc j) u g lo' hi' =
      absurd (omega (arith, Tiles-from ss j (from + s.size) end t.4 g))

  here-InOne : from ≤ off → off < from + s.size → InOne (s ∷ ss) off s
  here-InOne lo hi = record {
    index = 0;
    elem_is = refl;
    from = omega (arith, t.0);
    to = omega (arith, t.0);
    only = only_here hi;
  }

  next_only :
      {u : NczSection} (r : InOne ss off u)
      → from + s.size ≤ off
      → (j : ℕ) (v : NczSection) → get_elem? (s ∷ ss) j ≡ some v
      → v.offset ≤ off
      → off < v.offset + v.size
      → j ≡ suc r.index
  next_only r past zero v g lo' hi' = absurd (ground (arith, g, t.0))
  next_only r past (suc j) v g lo' hi' = ap suc (r.only j v g lo' hi')

  next-InOne : {u : NczSection} → from + s.size ≤ off → InOne ss off u → InOne (s ∷ ss) off u
  next-InOne past r = record {
    index = suc r.index;
    elem_is = r.elem_is;
    from = r.from;
    to = r.to;
    only = next_only r past;
  }

find_section-InOne :
    (ss : List NczSection) (from end off : ℕ)
    → Tiles from ss end
    → from ≤ off
    → off < end
    → (s : NczSection) × (find_section ss off ≡ some s) × InOne ss off s
find_section-InOne [] from end off t lo hi = absurd (omega arith)
find_section-InOne (s ∷ ss) from end off t lo hi = elim (dec_lt off (from + s.size)) [
  | yes here ↦ (s, find_here from end s ss t off lo here, here-InOne from end s ss t off lo here)
  | no past ↦
      let (u, e, r) = find_section-InOne ss (from + s.size) end off t.4 (omega arith) hi in
      (
        u,
        find_next from end s ss t off (omega arith) ∙ e,
        next-InOne from end s ss t off (omega arith) r,
      )
]

find_section-none :
    (ss : List NczSection) (from end off : ℕ)
    → Tiles from ss end
    → (off < from) ⊎ (end ≤ off)
    → find_section ss off ≡ none
unfolding find_section
find_section-none [] from end off t h = refl
find_section-none (s ∷ ss) from end off t (inl low) =
    find_before from end s ss t off low
    ∙ find_section-none ss (from + s.size) end off t.4 (inl (omega arith))
find_section-none (s ∷ ss) from end off t (inr past) =
    find_next from end s ss t off (omega (arith, Tiles-le ss (from + s.size) end t.4))
    ∙ find_section-none ss (from + s.size) end off t.4 (inr past)

-- On an accepted header, an offset behind the NCA's first 0x4000 bytes and below the decompressed
-- size is given the one section of the table that it lies in; any other offset is given none.
pub section_at_lem :
    (buf : Bytes) {ctx : NczContext} (off : ℕ)
    → IsBytes buf
    → parse_header buf ≡ (ok tt, ctx)
    → ((0x4000 ≤ off)
        × (off < ctx.decompressed_size)
        × ((s : NczSection) × (section_at ctx off ≡ some s) × InOne ctx.sections off s))
      ⊎ (((off < 0x4000) ⊎ (ctx.decompressed_size ≤ off)) × (section_at ctx off ≡ none))
unfolding section_at
section_at_lem buf {ctx} off b h =
    let t = parse_header-Tiles buf b h in
    elim (dec_lt off 0x4000) [
      | yes low ↦
          inr (inl low, find_section-none ctx.sections 0x4000 ctx.decompressed_size off t (inl low))
      | no lo ↦ elim (dec_lt off ctx.decompressed_size) [
        | yes hi ↦ inl (
          omega arith,
          hi,
          find_section-InOne ctx.sections 0x4000 ctx.decompressed_size off t (omega arith) hi,
        )
        | no past ↦ inr (
          inr (omega arith),
          find_section-none ctx.sections 0x4000 ctx.decompressed_size off t (inr (omega arith)),
        )
      ]
    ]
