-- ===== src/NspBuilder/Build.antt =====
-- `nspBuilderFinalize` on every branch: when it succeeds, and the header that it then holds.
use nx_nexus.Base.{
  ℕ, zero, suc, ◌+◌, ◌*◌, ◌^◌, ◌≤◌, ◌<◌, ◌≡◌, ◌≢◌, ◌⊎◌, inl, inr, refl, sym, ap, ◌∙◌, List, [], ◌∷◌,
  ◌++◌, append_assoc, arith, length, drop, length-append, length-replicate, Bytes, true, false,
  le→leb,
}
use native.Mathlib.Decide.{dec_lt}
use nx_nexus.Outcome.{ok, err, overflow, too_large, ◌>>=◌}
use nx_nexus.Format.{le_bytes, add_overflows}
use nx_nexus.Format.Words.{length-le_bytes, add_overflows_iff}
use nx_nexus.PartitionFs.{pfs0_magic}
use nx_nexus.NspBuilder.{
  NspBuilder, NspBuilderEntry, Filled, stopped, write, write_start, fill, close, finalize, count,
  name_table_size,
}
use nx_nexus.NspBuilder.Image.{
  zeros, slots, names, blank_slots, blank_names, data_size, placed, write_piece, write_second,
}
use nx_nexus.NspBuilder.Fill.{pending, fill_lem, fill_overflow, Sized}

-- The header's size.
abbrev pub size_of : List NspBuilderEntry → ℕ
size_of es = 0x10 + length es * 0x18 + name_table_size es

-- The first sixteen bytes.
abbrev pub start : List NspBuilderEntry → Bytes
start es =
    le_bytes 4 pfs0_magic
    ++ (le_bytes 4 (length es) ++ (le_bytes 4 (name_table_size es) ++ zeros 4))

-- The whole header.
abbrev pub image : List NspBuilderEntry → Bytes
image es = start es ++ (slots 0 0 es ++ names es)

zeros-add : (m n : ℕ) → zeros (m + n) ≡ zeros m ++ zeros n
zeros-add zero n = ap zeros (omega arith)
zeros-add (suc m) n =
    let e : suc m + n ≡ suc (m + n) = omega arith in rw e (ap (λ r. 0 ∷ r) (zeros-add m n))

zeros-blank_names : (es : List NspBuilderEntry) → zeros (name_table_size es) ≡ blank_names es
zeros-blank_names [] = refl
zeros-blank_names (e ∷ es) =
    zeros-add (length e.name + 1) (name_table_size es)
    ∙ ap (λ r. zeros (length e.name + 1) ++ r) (zeros-blank_names es)

zeros-blank_slots : (es : List NspBuilderEntry) → zeros (length es * 0x18) ≡ blank_slots es
zeros-blank_slots [] = refl
zeros-blank_slots (e ∷ es) =
    ap zeros (let eq : suc (length es) * 0x18 ≡ 24 + length es * 0x18 = omega arith in eq)
    ∙ zeros-add 24 (length es * 0x18)
    ∙ ap (λ r. zeros 24 ++ r) (zeros-blank_slots es)

zeros-size_of :
    (es : List NspBuilderEntry)
    → zeros (size_of es) ≡ zeros 16 ++ (blank_slots es ++ blank_names es)
zeros-size_of es =
    zeros-add (0x10 + length es * 0x18) (name_table_size es)
    ∙ (λ i. zeros-add 16 (length es * 0x18) i ++ zeros-blank_names es i)
    ∙ append_assoc (zeros 16) (zeros (length es * 0x18)) (blank_names es)
    ∙ (λ i. zeros 16 ++ (zeros-blank_slots es i ++ blank_names es))

memset_lem : (n : ℕ) (h : Bytes) → n ≤ length h → write 0 (zeros n) h ≡ ok (zeros n ++ drop n h)
unfolding write
memset_lem n h fits =
    let l = length-replicate {A = ℕ} n 0 in
    rw (le→leb (0 + length (zeros n)) (length h) (omega arith))
      (ap (λ k. ok (zeros n ++ drop k h)) (let e : 0 + length (zeros n) ≡ n = omega arith in e))

write_three :
    (x y z : ℕ) (c : Bytes)
    → (do
      h1 ← write 0x0 (le_bytes 4 x) (zeros 16 ++ c)
      h2 ← write 0x4 (le_bytes 4 y) h1
      write 0x8 (le_bytes 4 z) h2)
      ≡ ok ((le_bytes 4 x ++ (le_bytes 4 y ++ (le_bytes 4 z ++ zeros 4))) ++ c)
write_three x y z c =
    let a = le_bytes 4 x in
    rw (write_piece 0x0 a [] (zeros 4) (zeros 12 ++ c) refl (length-le_bytes 4 x)) (
      rw
        (write_piece 0x4 (le_bytes 4 y) a (zeros 4) (zeros 8 ++ c) (sym (length-le_bytes 4 x))
          (length-le_bytes 4 y))
        (rw
          (write_second 0x8 (le_bytes 4 z) a (le_bytes 4 y) (zeros 4) (zeros 4 ++ c)
            (omega (arith, length-le_bytes 4 x, length-le_bytes 4 y)) (length-le_bytes 4 z))
          (ap ok (simp append_assoc))))

pub length-start : (es : List NspBuilderEntry) → length (start es) ≡ 0x10 + 24 * 0
length-start es = omega (
  arith,
  length-append (le_bytes 4 pfs0_magic)
      (le_bytes 4 (length es) ++ (le_bytes 4 (name_table_size es) ++ zeros 4)),
  length-append (le_bytes 4 (length es)) (le_bytes 4 (name_table_size es) ++ zeros 4),
  length-append (le_bytes 4 (name_table_size es)) (zeros 4),
  length-le_bytes 4 pfs0_magic,
  length-le_bytes 4 (length es),
  length-le_bytes 4 (name_table_size es),
)

-- `memset` and the three fields, on a buffer that is large enough.
write_start_lem :
    (h : Bytes) (es : List NspBuilderEntry)
    → size_of es ≤ length h
    → write_start h (size_of es) (length es) (name_table_size es)
      ≡ ok (pending (start es) [] es (drop (size_of es) h))
unfolding write_start
write_start_lem h es fits =
    let rest = drop (size_of es) h in
    rw (memset_lem (size_of es) h fits) (
      rw (ap (λ r. r ++ rest) (zeros-size_of es)) (
        write_three pfs0_magic (length es) (name_table_size es)
          ((blank_slots es ++ blank_names es) ++ rest)
        ∙ ap ok (ap (λ r. start es ++ r) (append_assoc (blank_slots es) (blank_names es) rest))))

-- The builder that a successful `nspBuilderFinalize` leaves.
abbrev pub built : NspBuilder → NspBuilder
built b = record b {
  entries = placed 0 b.entries;
  header =
      start b.entries
      ++ (slots 0 0 b.entries ++ (names b.entries ++ drop (size_of b.entries) b.header));
  header_size = size_of b.entries;
  total_size = size_of b.entries + data_size b.entries;
  finalised = true;
}

module _ (b : NspBuilder) (open' : b.finalised ≡ false) (some_entry : b.entries ≢ []) where
  finalize_fits :
      size_of b.entries ≤ length b.header
      → finalize b
        ≡ close b (size_of b.entries) (
            fill
              (count b)
              (pending (start b.entries) [] b.entries (drop (size_of b.entries) b.header))
              0
              0
              0
              b.entries)
  unfolding finalize
  finalize_fits h = ground (arith, write_start_lem b.header b.entries h)

  finalize_too_large : length b.header < size_of b.entries → finalize b ≡ (err too_large, b)
  unfolding finalize
  finalize_too_large h = ground arith

  module _ (room : size_of b.entries ≤ length b.header) where
    abbrev filled : Filled
    filled =
        fill (count b) (pending (start b.entries) [] b.entries (drop (size_of b.entries) b.header))
          0 0 0 b.entries

    filled_lem :
        data_size b.entries < 2 ^ 64
        → filled ≡ stopped (ok (data_size b.entries)) (built b).header (placed 0 b.entries)
    filled_lem h =
        fill_lem (count b) 0 0 0 b.entries (start b.entries) [] (drop (size_of b.entries) b.header)
          (length-start b.entries) (omega arith) refl (omega arith)
        ∙ ap (λ k. stopped (ok k) (built b).header (placed 0 b.entries))
            (let e : 0 + data_size b.entries ≡ data_size b.entries = omega arith in e)

    finalize_ok : size_of b.entries + data_size b.entries < 2 ^ 64 → finalize b ≡ (ok tt, built b)
    unfolding close
    finalize_ok h = rw (finalize_fits room) (
        rw (filled_lem (omega arith)) (
          ground (
            arith,
            (add_overflows_iff (size_of b.entries) (data_size b.entries)
                (size_of b.entries + data_size b.entries) (omega arith) (omega arith)).1,
          )))

    finalize_total_overflow :
        data_size b.entries < 2 ^ 64
        → 2 ^ 64 ≤ size_of b.entries + data_size b.entries
        → size_of b.entries < 2 ^ 64
        → (finalize b).0 ≡ err overflow
    unfolding close add_overflows
    finalize_total_overflow h big small = rw (finalize_fits room) (rw (filled_lem h) (ground arith))

    finalize_data_overflow :
        Sized b.entries → 2 ^ 64 ≤ data_size b.entries → (finalize b).0 ≡ err overflow
    unfolding close
    finalize_data_overflow sized big = rw (finalize_fits room) (
        ground (
          arith,
          fill_overflow (count b) 0 0 0 b.entries (start b.entries) []
              (drop (size_of b.entries) b.header) (length-start b.entries) (omega arith) refl
              (omega arith) sized (omega arith),
        ))

-- Finalising an open builder that has entries answers `too_large` exactly when the header does not
-- fit the buffer, else `overflow` exactly when the whole file's size does not fit a `u64`, and else
-- succeeds with the complete header, the entries laid end to end, and the file's exact size.
pub finalize_cases :
    (b : NspBuilder)
    → b.finalised ≡ false
    → b.entries ≢ []
    → Sized b.entries
    → length b.header < 2 ^ 64
    → ((length b.header < size_of b.entries) × (finalize b ≡ (err too_large, b)))
      ⊎ (((size_of b.entries ≤ length b.header)
            × (2 ^ 64 ≤ size_of b.entries + data_size b.entries)
            × ((finalize b).0 ≡ err overflow))
          ⊎ ((size_of b.entries ≤ length b.header)
              × (size_of b.entries + data_size b.entries < 2 ^ 64)
              × (finalize b ≡ (ok tt, built b))))
finalize_cases b o s sized cap = elim (dec_lt (length b.header) (size_of b.entries)) [
  | yes small ↦ inl (small, finalize_too_large b o s small)
  | no room ↦ inr (elim (dec_lt (size_of b.entries + data_size b.entries) (2 ^ 64)) [
    | yes fits ↦ inr (omega arith, fits, finalize_ok b o s (omega arith) fits)
    | no big ↦ inl (
      omega arith,
      omega arith,
      elim (dec_lt (data_size b.entries) (2 ^ 64)) [
        | yes small ↦ finalize_total_overflow b o s (omega arith) small (omega arith) (omega arith)
        | no large ↦ finalize_data_overflow b o s (omega arith) sized (omega arith)
      ],
    )
  ])
]
