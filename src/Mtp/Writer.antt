-- ===== src/Mtp/Writer.antt =====
-- The dataset writer of src/mtp/mtp_container.c. `written` holds the first `len` bytes of the buffer,
-- whose capacity is `cap`.
use nx_nexus.Base.{
  ℕ, zero, suc, ◌+◌, ◌-◌, Bool, true, false, ◌&&◌, List, [], ◌∷◌, ◌++◌, Option, none, some, ltb,
  leb, ◌==◌, if◌then◌else◌, length, take, Bytes,
}
use nx_nexus.Format.{le_bytes}

pub record MtpWriter : Type 0 where
  pub cap : ℕ
  pub written : Bytes
  pub overflow : Bool

unfoldable pub writer_init : ℕ → MtpWriter
writer_init cap = record { cap = cap; written = []; overflow = false }

-- `writer_claim`, and the copy of the bytes when it gives a place for them.
unfoldable pub write_bytes : Bytes → MtpWriter → MtpWriter
write_bytes bytes w =
    if w.overflow
    then w
    else if ltb (w.cap - length w.written) (length bytes)
    then record w { overflow = true }
    else record w { written = w.written ++ bytes }

abbrev pub write_u8 : ℕ → MtpWriter → MtpWriter
write_u8 v = write_bytes (le_bytes 1 v)

abbrev pub write_u16 : ℕ → MtpWriter → MtpWriter
write_u16 v = write_bytes (le_bytes 2 v)

abbrev pub write_u32 : ℕ → MtpWriter → MtpWriter
write_u32 v = write_bytes (le_bytes 4 v)

abbrev pub write_u64 : ℕ → MtpWriter → MtpWriter
write_u64 v = write_bytes (le_bytes 8 v)

abbrev pub write_u128 : ℕ → ℕ → MtpWriter → MtpWriter
write_u128 lo hi w = write_u64 hi (write_u64 lo w)

unfoldable pub write_units : List ℕ → MtpWriter → MtpWriter
write_units [] w = w
write_units (v ∷ vs) w = write_units vs (write_u16 v w)

abbrev pub write_u16_array : List ℕ → MtpWriter → MtpWriter
write_u16_array vs w = write_units vs (write_u32 (length vs) w)

unfoldable pub write_words : List ℕ → MtpWriter → MtpWriter
write_words [] w = w
write_words (v ∷ vs) w = write_words vs (write_u32 v w)

abbrev pub write_u32_array : List ℕ → MtpWriter → MtpWriter
write_u32_array vs w = write_words vs (write_u32 (length vs) w)

abbrev pub string_max_units : ℕ
string_max_units = 255

-- The ASCII transliteration of bytes that are no UTF-8, of at most `room` units.
unfoldable pub transliterate : ℕ → Bytes → List ℕ
transliterate room [] = []
transliterate zero (c ∷ cs) = []
transliterate (suc room) (c ∷ cs) =
    if leb 0x20 c && ltb c 0x7F
    then c ∷ transliterate room cs
    else if leb 0x80 c
    then b'?' ∷ transliterate room cs
    else transliterate (suc room) cs

-- The units, with the count and the NUL that ends them.
abbrev pub write_counted : List ℕ → MtpWriter → MtpWriter
write_counted units w = write_u16 0 (write_units units (write_u8 (length units + 1) w))

-- `mtpWriteString` of a C string. A conversion that gives no unit for it writes a lone NUL; a
-- transliteration without a unit, the empty string.
unfoldable pub write_string : (Bytes → ℕ → Option (List ℕ)) → Bytes → MtpWriter → MtpWriter
write_string to_utf16 [] w = write_u8 0 w
write_string to_utf16 (c ∷ cs) w = elim (to_utf16 (c ∷ cs) (string_max_units - 1)) [
  | some units ↦ write_counted (take (string_max_units - 1) units) w
  | none ↦
      let units = transliterate (string_max_units - 1) (c ∷ cs) in
      if length units == 0 then write_u8 0 w else write_counted units w
]
