-- ===== src/Mtp/Reader.antt =====
-- The dataset reader of src/mtp/mtp_container.c.
use nx_nexus.Base.{
  ℕ, zero, suc, ◌+◌, ◌-◌, Bool, true, false, ◌||◌, List, [], ◌∷◌, Option, none, some, ltb, ◌==◌,
  if◌then◌else◌, length, take, slice, Bytes,
}
use nx_nexus.Format.{le}

-- `buf` holds the `len` bytes.
pub record MtpReader : Type 0 where
  pub buf : Bytes
  pub pos : ℕ
  pub underflow : Bool

unfoldable pub reader_init : Bytes → MtpReader
reader_init buf = record { buf = buf; pos = 0; underflow = false }

-- `reader_take`, and the number that the bytes spell: 0 when there are none.
unfoldable pub read_le : ℕ → MtpReader → ℕ × MtpReader
read_le n r =
    if r.underflow
    then (0, r)
    else if ltb (length r.buf - r.pos) n
    then (0, record r { underflow = true })
    else (le (slice r.pos n r.buf), record r { pos = r.pos + n })

-- A number that is read over.
abbrev pub skip : ℕ → MtpReader → MtpReader
skip n r = (read_le n r).1

unfoldable pub read_units : ℕ → MtpReader → List ℕ × MtpReader
read_units zero r = ([], r)
read_units (suc n) r = let u = read_le 2 r in let rest = read_units n u.1 in (u.0 ∷ rest.0, rest.1)

-- The units before the first NUL.
unfoldable pub until_zero : List ℕ → List ℕ
until_zero [] = []
until_zero (u ∷ us) = if u == 0 then [] else u ∷ until_zero us

-- `mtpReadString` into a buffer of `out_size`: the bytes before the NUL that ends what it holds.
unfoldable pub read_string : (List ℕ → ℕ → Option Bytes) → ℕ → MtpReader → Bytes × MtpReader
read_string to_utf8 out_size r =
    let count = read_le 1 r in
    let units = read_units count.0 count.1 in
    if count.0 == 0
    then ([], count.1)
    else if units.1.underflow || (out_size == 0)
    then ([], units.1)
    else elim (to_utf8 (until_zero units.0) (out_size - 1)) [
      | none ↦ ([], units.1)
      | some out ↦ (take (out_size - 1) out, units.1)
    ]
