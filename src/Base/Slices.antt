-- ===== src/Base/Slices.antt =====
-- Byte buffers: a piece read out of one, and a piece written over one.
use Prim.Native.Nat.{ℕ, zero, suc, ◌+◌, ◌≤◌, ◌<◌}
use mathlib.Core.Path.{◌≡◌, refl, ap, ◌∙◌}
use mathlib.Core.List.{List, [], ◌∷◌, ◌++◌}
use native.Mathlib.Omega.{arith}
use nx_nexus.Base.Lists.{
  length, take, drop, All, length-append, length-take, length-drop, take-length-append,
  drop-length-append, drop-length_add-append,
}

abbrev pub Bytes : Type 0
Bytes = List ℕ

-- Every element is a byte.
abbrev pub IsBytes : Bytes → Type 0
IsBytes = All (λ b. b < 256)

module _ {ℓ} {A : Type ℓ} where
  -- `n` elements from index `off` on.
  abbrev pub slice : ℕ → ℕ → List A → List A
  slice off n xs = take n (drop off xs)

  -- The elements from index `off` on are replaced by those of `ys`.
  abbrev pub splice : ℕ → List A → List A → List A
  splice off ys xs = take off xs ++ (ys ++ drop (off + length ys) xs)

module _ {ℓ} {A : Type ℓ} where
  pub length-slice : (off n : ℕ) (xs : List A) → off + n ≤ length xs → length (slice off n xs) ≡ n
  length-slice off n xs h = omega (arith, length-take n (drop off xs), length-drop off xs)

  pub slice-append :
      (a b c : List A) (off n : ℕ) → off ≡ length a → n ≡ length b → slice off n (a ++ (b ++ c)) ≡ b
  slice-append a b c off n e f =
      rw (e, f) (ap (take (length b)) (drop-length-append a (b ++ c)) ∙ take-length-append b c)

  pub splice-append :
      (a b c ys : List A) (off : ℕ)
      → off ≡ length a
      → length ys ≡ length b
      → splice off ys (a ++ (b ++ c)) ≡ a ++ (ys ++ c)
  splice-append a b c ys off e f =
      rw (e, f)
        (ap (λ t. t ++ (ys ++ drop (length a + length b) (a ++ (b ++ c))))
            (take-length-append a (b ++ c))
          ∙ ap (λ t. a ++ (ys ++ t))
              (drop-length_add-append a (b ++ c) (length b) ∙ drop-length-append b c))

  pub length-splice :
      (off : ℕ) (ys xs : List A)
      → off + length ys ≤ length xs
      → length (splice off ys xs) ≡ length xs
  length-splice off ys xs h = omega (
    arith,
    length-append (take off xs) (ys ++ drop (off + length ys) xs),
    length-append ys (drop (off + length ys) xs),
    length-take off xs,
    length-drop (off + length ys) xs,
  )

  take-append_left : (n : ℕ) (a b : List A) → n ≤ length a → take n (a ++ b) ≡ take n a
  take-append_left zero a b h = refl
  take-append_left (suc n) [] b h = absurd (omega arith)
  take-append_left (suc n) (x ∷ a) b h = ap (λ t. x ∷ t) (take-append_left n a b (omega arith))

  pub slice-append_left :
      (off n : ℕ) (a b : List A) → off + n ≤ length a → slice off n (a ++ b) ≡ slice off n a
  slice-append_left zero n a b h = take-append_left n a b (omega arith)
  slice-append_left (suc off) zero [] b h = absurd (omega arith)
  slice-append_left (suc off) (suc n) [] b h = absurd (omega arith)
  slice-append_left (suc off) n (x ∷ a) b h = slice-append_left off n a b (omega arith)
