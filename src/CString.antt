-- ===== src/CString.antt =====
-- What the code uses of C strings: a string is the bytes before its NUL, read out of a buffer.
use nx_nexus.Base.{
  ℕ, zero, suc, ◌<◌, ◌≡◌, ◌≢◌, ◌↔◌, refl, ap, ◌∙◌, Bool, true, false, ◌&&◌, ◌||◌, [], ◌∷◌, ◌++◌,
  arith, ◌==◌, length, take, drop, Bytes, All, drop-length-append, Bool-cases, inl, inr,
}
use nx_nexus.Outcome.{Outcome, ok, fault, ◌>>=◌}
use nx_nexus.Format.{read}

-- Reading on to the NUL; running off the buffer is a fault.
unfoldable pub until_nul : Bytes → Outcome Bytes
until_nul [] = fault
until_nul (b ∷ bs) = elim (b == 0) [ true ↦ ok [] | false ↦ do s ← until_nul bs; ok (b ∷ s) ]

-- The string at index `off` of a buffer.
unfoldable pub c_string : Bytes → ℕ → Outcome Bytes
c_string buf off = until_nul (drop off buf)

unfoldable pub has_nul : Bytes → Bool
has_nul [] = false
has_nul (b ∷ bs) = b == 0 || has_nul bs

-- `memchr(buf + off, '\0', n) != NULL`; the range must lie inside the buffer.
unfoldable pub memchr_nul : Bytes → ℕ → ℕ → Outcome Bool
memchr_nul buf off n = do bs ← read n buf off; ok (has_nul bs)

-- `strcmp(…) == 0`, and `memcmp(…) == 0` on pieces of one length.
unfoldable pub bytes_eq : Bytes → Bytes → Bool
bytes_eq [] [] = true
bytes_eq (a ∷ as') (b ∷ bs) = a == b && bytes_eq as' bs
bytes_eq _ _ = false

-- A string as the program may hold it: no byte of it is NUL.
abbrev pub IsString : Bytes → Type 0
IsString = All (λ b. b ≢ 0)

pub bytes_eq_iff : (a b : Bytes) → (bytes_eq a b ≡ true) ↔ (a ≡ b)
unfolding bytes_eq
bytes_eq_iff (x ∷ a) (y ∷ b) = ground (arith, bytes_eq_iff a b)
bytes_eq_iff _ _ = ground arith

-- A NUL among the first `n` bytes ends the string within them.
pub until_nul-has_nul :
    (n : ℕ) (bs : Bytes)
    → has_nul (take n bs) ≡ true
    → (s : Bytes) × (until_nul bs ≡ ok s) × (length s < n) × IsString s
unfolding has_nul until_nul
until_nul-has_nul zero bs h = absurd (cc)
until_nul-has_nul (suc n) [] h = absurd (cc)
until_nul-has_nul (suc n) (b ∷ bs) h = elim (Bool-cases (b == 0)) [
  | inl e ↦ ([], ground arith, omega arith, tt)
  | inr e ↦
      let (s, r, l, t) = until_nul-has_nul n bs (rw e at h) in
      (b ∷ s, ground arith, omega arith, (ground arith, t))
]

-- A string followed by its NUL is read back.
pub until_nul-append : (s rest : Bytes) → IsString s → until_nul (s ++ (0 ∷ rest)) ≡ ok s
unfolding until_nul
until_nul-append [] rest h = refl
until_nul-append (b ∷ s) rest h = ground (arith, until_nul-append s rest h.1, h.0)

pub c_string-append :
    (a s rest : Bytes) (off : ℕ)
    → off ≡ length a
    → IsString s
    → c_string (a ++ (s ++ (0 ∷ rest))) off ≡ ok s
unfolding c_string
c_string-append a s rest off e h =
    rw e (ap until_nul (drop-length-append a (s ++ (0 ∷ rest))) ∙ until_nul-append s rest h)

pub has_nul-append : (s rest : Bytes) → has_nul (s ++ (0 ∷ rest)) ≡ true
unfolding has_nul
has_nul-append [] rest = refl
has_nul-append (b ∷ s) rest = ground (arith, has_nul-append s rest)
