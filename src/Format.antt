-- ===== src/Format.antt =====
-- src/format/format.c: the little-endian readers and the checked arithmetic that every container
-- parser uses. A buffer is the list of the bytes that its length covers; a read outside it is a
-- `fault`.
pub mod Words
use nx_nexus.Base.{
  ℕ, zero, suc, ◌+◌, ◌-◌, ◌*◌, ◌/◌, ◌%◌, ◌^◌, Bool, not, ◌&&◌, List, [], ◌∷◌, Option, none, some,
  ltb, leb, ◌==◌, if◌then◌else◌, length, slice, Bytes,
}
use nx_nexus.Outcome.{Outcome, ok, err, fault, overflow, ◌>>=◌}

-- The number that bytes spell, least significant first, and the bytes of a number.
unfoldable pub le : Bytes → ℕ
le [] = 0
le (b ∷ bs) = b + 256 * le bs

unfoldable pub le_bytes : ℕ → ℕ → Bytes
le_bytes zero v = []
le_bytes (suc w) v = v % 256 ∷ le_bytes w (v / 256)

-- `memcpy` of `n` bytes out of a buffer.
unfoldable pub read : ℕ → Bytes → ℕ → Outcome Bytes
read n buf off = if leb (off + n) (length buf) then ok (slice off n buf) else fault

unfoldable pub rd : ℕ → Bytes → ℕ → Outcome ℕ
unfolding le read
rd w buf off = do bs ← read w buf off; ok (le bs)

abbrev pub rd_u8 : Bytes → ℕ → Outcome ℕ
rd_u8 = rd 1

abbrev pub rd_u16 : Bytes → ℕ → Outcome ℕ
rd_u16 = rd 2

abbrev pub rd_u32 : Bytes → ℕ → Outcome ℕ
rd_u32 = rd 4

abbrev pub rd_u64 : Bytes → ℕ → Outcome ℕ
rd_u64 = rd 8

-- The shifted bytes do not overlap, so the `|` of the code is a sum.
abbrev pub rd_u40 : Bytes → ℕ → Outcome ℕ
rd_u40 = rd 5

abbrev pub u64_max : ℕ
u64_max = 2 ^ 64 - 1

-- `none` is the answer `true`, with which `*out` is not written.
unfoldable pub add_overflows : ℕ → ℕ → Option ℕ
add_overflows a b = if ltb (u64_max - b) a then none else some ((a + b) % 2 ^ 64)

unfoldable pub mul_overflows : ℕ → ℕ → Option ℕ
mul_overflows a b = if not (a == 0) && ltb (u64_max / a) b then none else some ((a * b) % 2 ^ 64)

-- `if (nexusAddOverflows(…)) return NexusFmt_Overflow;`
abbrev pub or_overflow : Option ℕ → Outcome ℕ
or_overflow none = err overflow
or_overflow (some s) = ok s
