-- ===== src/NspBuilder/Image.antt =====
-- What the loop of `nspBuilderFinalize` writes: the slots and the names, in place of the zeros.
use nx_nexus.Base.{
  ℕ, ◌+◌, ◌≡◌, sym, ap, ◌∙◌, List, [], ◌∷◌, ◌++◌, append_assoc, arith, length, replicate,
  length-append, splice-append, le→leb, Bytes,
}
use nx_nexus.Outcome.{ok}
use nx_nexus.Format.{le_bytes}
use nx_nexus.Format.Words.{length-le_bytes}
use nx_nexus.NspBuilder.{NspBuilderEntry, write, write_fields}

abbrev pub zeros : ℕ → Bytes
zeros n = replicate n 0

abbrev pub slot : ℕ → ℕ → ℕ → Bytes
slot data_offset size name_offset =
    le_bytes 8 data_offset ++ (le_bytes 8 size ++ (le_bytes 4 name_offset ++ zeros 4))

abbrev pub slots : ℕ → ℕ → List NspBuilderEntry → Bytes
slots off at [] = []
slots off at (e ∷ es) = slot off e.size at ++ slots (off + e.size) (at + (length e.name + 1)) es

abbrev pub names : List NspBuilderEntry → Bytes
names [] = []
names (e ∷ es) = (e.name ++ (0 ∷ [])) ++ names es

abbrev pub blank_slots : List NspBuilderEntry → Bytes
blank_slots [] = []
blank_slots (e ∷ es) = zeros 24 ++ blank_slots es

abbrev pub blank_names : List NspBuilderEntry → Bytes
blank_names [] = []
blank_names (e ∷ es) = zeros (length e.name + 1) ++ blank_names es

abbrev pub data_size : List NspBuilderEntry → ℕ
data_size [] = 0
data_size (e ∷ es) = e.size + data_size es

-- The entries laid end to end from `off` on.
abbrev pub placed : ℕ → List NspBuilderEntry → List NspBuilderEntry
placed off [] = []
placed off (e ∷ es) = record e { data_offset = off } ∷ placed (off + e.size) es

-- A write over a piece of the buffer of the same length.
pub write_piece :
    (off : ℕ) (ys a b c : Bytes)
    → off ≡ length a
    → length ys ≡ length b
    → write off ys (a ++ (b ++ c)) ≡ ok (a ++ (ys ++ c))
unfolding write
write_piece off ys a b c e f =
    rw
      (le→leb (off + length ys) (length (a ++ (b ++ c)))
        (omega (arith, length-append a (b ++ c), length-append b c)))
      (ap ok (splice-append a b c ys off e f))

-- The same, one piece further on.
pub write_second :
    (off : ℕ) (ys a x b c : Bytes)
    → off ≡ length a + length x
    → length ys ≡ length b
    → write off ys (a ++ (x ++ (b ++ c))) ≡ ok (a ++ (x ++ (ys ++ c)))
write_second off ys a x b c e f =
    ap (write off ys) (sym (append_assoc a x (b ++ c)))
    ∙ write_piece off ys (a ++ x) b c (omega (arith, length-append a x)) f
    ∙ ap ok (append_assoc a x (ys ++ c))

pub length-slot : (off size at : ℕ) → length (slot off size at) ≡ 24
length-slot off size at = omega (
  arith,
  length-append (le_bytes 8 off) (le_bytes 8 size ++ (le_bytes 4 at ++ zeros 4)),
  length-append (le_bytes 8 size) (le_bytes 4 at ++ zeros 4),
  length-append (le_bytes 4 at) (zeros 4),
  length-le_bytes 8 off,
  length-le_bytes 8 size,
  length-le_bytes 4 at,
)

-- The three fields of a slot over its 24 zeros.
pub write_fields_lem :
    (p off size at : ℕ) (a c : Bytes)
    → p ≡ length a
    → write_fields p off size at (a ++ (zeros 24 ++ c)) ≡ ok (a ++ (slot off size at ++ c))
unfolding write_fields
write_fields_lem p off size at a c e =
    rw (write_piece (p + 0x00) x a (zeros 8) (zeros 16 ++ c) (omega arith) (length-le_bytes 8 off))
      (rw
        (write_second (p + 0x08) y a x (zeros 8) (zeros 8 ++ c)
          (omega (arith, length-le_bytes 8 off)) (length-le_bytes 8 size))
        (rw third (ap ok (simp append_assoc))))
  where
    x : Bytes
    x = le_bytes 8 off

    y : Bytes
    y = le_bytes 8 size

    z : Bytes
    z = le_bytes 4 at

    third :
        write (p + 0x10) z (a ++ (x ++ (y ++ (zeros 4 ++ (zeros 4 ++ c)))))
        ≡ ok (a ++ (x ++ (y ++ (z ++ (zeros 4 ++ c)))))
    third =
        ap (write (p + 0x10) z) (sym (append_assoc a x (y ++ (zeros 4 ++ (zeros 4 ++ c)))))
        ∙ write_second (p + 0x10) z (a ++ x) y (zeros 4) (zeros 4 ++ c)
            (omega (arith, length-append a x, length-le_bytes 8 off, length-le_bytes 8 size))
            (length-le_bytes 4 at)
        ∙ ap ok (append_assoc a x (y ++ (z ++ (zeros 4 ++ c))))
