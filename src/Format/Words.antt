-- ===== src/Format/Words.antt =====
-- Reads of whole fields: they fault only outside the buffer, they stay below the field's width, and
-- they give back what was written.
use native.Mathlib.Nat.{pow-suc}
use nx_nexus.Base.{
  Option, none, some, ℕ, zero, suc, ◌+◌, ◌*◌, ◌/◌, ◌^◌, ◌≤◌, ◌<◌, ◌≡◌, ◌≢◌, refl, sym, ap, ◌∙◌, ◌↔◌,
  [], ◌∷◌, ◌++◌, some, arith, length, slice, slice-append, slice-append_left, Bytes, IsBytes,
  le→leb, length-append, length-slice,
}
use nx_nexus.Outcome.{ok, fault}
use nx_nexus.Format.{le, le_bytes, read, rd, or_overflow, add_overflows, mul_overflows, u64_max}

pub length-le_bytes : (w v : ℕ) → length (le_bytes w v) ≡ w
unfolding le_bytes
length-le_bytes zero v = refl
length-le_bytes (suc w) v = ap suc (length-le_bytes w (v / 256))

pub le_bytes-IsBytes : (w v : ℕ) → IsBytes (le_bytes w v)
unfolding le_bytes
le_bytes-IsBytes zero v = tt
le_bytes-IsBytes (suc w) v = (omega arith, le_bytes-IsBytes w (v / 256))

pub le-le_bytes : (w v : ℕ) → v < 256 ^ w → le (le_bytes w v) ≡ v
unfolding le le_bytes
le-le_bytes zero v h = omega arith
le-le_bytes (suc w) v h =
    let h' : v < 256 ^ w * 256 = rw (pow-suc) at h in
    omega (arith, le-le_bytes w (v / 256) (omega arith))

pub le-lt : (bs : Bytes) → IsBytes bs → le bs < 256 ^ length bs
unfolding le
le-lt [] h = omega arith
le-lt (b ∷ bs) h = rw pow-suc (omega (arith, le-lt bs h.1, h.0))

pub read_lem :
    (n off : ℕ) (buf : Bytes) → off + n ≤ length buf → read n buf off ≡ ok (slice off n buf)
unfolding read
read_lem n off buf h = rw (le→leb _ _ h)

pub rd_lem :
    (w off : ℕ) (buf : Bytes) → off + w ≤ length buf → rd w buf off ≡ ok (le (slice off w buf))
unfolding rd
rd_lem w off buf h = rw (le→leb _ _ h)

-- A field that was written is read back, whatever stands before and behind it.
pub rd-le_bytes :
    (w v off : ℕ) (a c : Bytes)
    → off ≡ length a
    → v < 256 ^ w
    → rd w (a ++ (le_bytes w v ++ c)) off ≡ ok v
rd-le_bytes w v off a c e h =
    rd_lem w off _ (
      omega (
        arith,
        length-append a (le_bytes w v ++ c),
        length-append (le_bytes w v) c,
        length-le_bytes w v,
      ))
    ∙ ap ok (
        ap le (slice-append a (le_bytes w v) c off w e (sym (length-le_bytes w v)))
        ∙ le-le_bytes w v h)

pub All-slice : (off n : ℕ) (xs : Bytes) → IsBytes xs → IsBytes (slice off n xs)
All-slice zero zero xs h = tt
All-slice zero (suc n) [] h = tt
All-slice zero (suc n) (x ∷ xs) h = (h.0, All-slice zero n xs h.1)
All-slice (suc off) zero [] h = tt
All-slice (suc off) (suc n) [] h = tt
All-slice (suc off) n (x ∷ xs) h = All-slice off n xs h.1

pub read-eq-ok :
    (n off : ℕ) (buf : Bytes) {bs : Bytes}
    → read n buf off ≡ ok bs
    → (off + n ≤ length buf) × (bs ≡ slice off n buf)
unfolding read
read-eq-ok n off buf h = ground arith

pub rd-eq-ok :
    (w off : ℕ) (buf : Bytes) {v : ℕ}
    → rd w buf off ≡ ok v
    → (off + w ≤ length buf) × (v ≡ le (slice off w buf))
unfolding rd
rd-eq-ok w off buf h = ground arith

-- A field of `w` bytes is below `256 ^ w`.
pub rd-lt : (w off : ℕ) (buf : Bytes) {v : ℕ} → IsBytes buf → rd w buf off ≡ ok v → v < 256 ^ w
rd-lt w off buf b h =
    let (fits, e) = rd-eq-ok w off buf h in
    rw e (rw (length-slice off w buf fits) at (le-lt (slice off w buf) (All-slice off w buf b)))

-- A read does not return an error value, and faults exactly outside the buffer.
pub rd-fault_iff : (w off : ℕ) (buf : Bytes) → (rd w buf off ≡ fault) ↔ (length buf < off + w)
unfolding rd
rd-fault_iff w off buf = ground arith

-- A field that lies in the first part of a buffer does not depend on the rest.
pub rd-append : (w off : ℕ) (a b : Bytes) → off + w ≤ length a → rd w (a ++ b) off ≡ rd w a off
rd-append w off a b h =
    rd_lem w off (a ++ b) (omega (arith, length-append a b))
    ∙ ap ok (ap le (slice-append_left off w a b h))
    ∙ sym (rd_lem w off a h)

pub rd-ne-fault : (w off : ℕ) (buf : Bytes) → off + w ≤ length buf → rd w buf off ≢ fault
rd-ne-fault w off buf h e = ground (arith, rd_lem w off buf h)

-- The checked sum refuses exactly the sums that a `u64` cannot hold, and never wraps.
pub add_overflows_iff :
    (a b s : ℕ)
    → a < 2 ^ 64
    → b < 2 ^ 64
    → (add_overflows a b ≡ some s) ↔ ((a + b < 2 ^ 64) × (s ≡ a + b))
unfolding add_overflows
add_overflows_iff a b s ha hb = ground arith

div-mul-le : (a b m : ℕ) → b ≤ m / a → a * b ≤ m
div-mul-le zero b m h = omega arith
div-mul-le (suc a) b m h = grind arith

lt-mul-div : (a b m : ℕ) → a ≢ 0 → m / a < b → m < a * b
lt-mul-div zero b m ne h = absurd (ne refl)
lt-mul-div (suc a) b m ne h = grind arith

-- So does the checked product.
pub mul_overflows_iff :
    (a b s : ℕ)
    → a < 2 ^ 64
    → b < 2 ^ 64
    → (mul_overflows a b ≡ some s) ↔ ((a * b < 2 ^ 64) × (s ≡ a * b))
unfolding mul_overflows
mul_overflows_iff zero b s ha hb = ground arith
mul_overflows_iff (suc a) b s ha hb =
    ground (arith, div-mul-le (suc a) b u64_max, lt-mul-div (suc a) b u64_max)

pub or_overflow-ne-fault : (o : Option ℕ) → or_overflow o ≢ fault
or_overflow-ne-fault none h = cc
or_overflow-ne-fault (some s) h = cc

pub read-ne-fault : (n off : ℕ) (buf : Bytes) → off + n ≤ length buf → read n buf off ≢ fault
read-ne-fault n off buf h e = ground (arith, read_lem n off buf h)

pub read_fault : (n off : ℕ) (buf : Bytes) → length buf < off + n → read n buf off ≡ fault
unfolding read
read_fault n off buf h = ground arith

pub read-append :
    (n off : ℕ) (a b : Bytes) → off + n ≤ length a → read n (a ++ b) off ≡ read n a off
read-append n off a b h =
    read_lem n off (a ++ b) (omega (arith, length-append a b))
    ∙ ap ok (slice-append_left off n a b h)
    ∙ sym (read_lem n off a h)
