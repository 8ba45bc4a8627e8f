-- ===== src/ObjectDb/Kill.antt =====
-- What the writes to the table keep: its length, its handles and its count of valid slots.
use nx_nexus.Base.{
  ℕ, zero, suc, ◌+◌, ◌^◌, ◌≤◌, ◌<◌, ◌≡◌, inl, inr, refl, ap, Bool, true, false, ◌&&◌, List, [], ◌∷◌,
  ◌++◌, sym, ◌∙◌, some, arith, if◌then◌else◌, length, get_elem?, Bool-cases,
}
use nx_nexus.ObjectDb.{NexusObject, dead, modify, kill, decrement, increment}

-- The slots carry consecutive handles, the first of which is `k`.
abbrev pub HandlesFrom : ℕ → List NexusObject → Type 0
HandlesFrom k [] = Unit
HandlesFrom k (e ∷ es) = (e.handle ≡ k) × HandlesFrom (k + 1) es

abbrev pub live_in : List NexusObject → ℕ
live_in [] = 0
live_in (e ∷ es) = if e.valid then suc (live_in es) else live_in es

pub live_in-le-length : (es : List NexusObject) → live_in es ≤ length es
live_in-le-length [] = omega arith
live_in-le-length (e ∷ es) = elim (Bool-cases e.valid) [
  | inl v ↦ ground (arith, live_in-le-length es)
  | inr v ↦ ground (arith, live_in-le-length es)
]

pub live_in-append :
    (es : List NexusObject) (e : NexusObject)
    → e.valid ≡ true
    → live_in (es ++ (e ∷ [])) ≡ suc (live_in es)
live_in-append [] e v = ground arith
live_in-append (d ∷ es) e v = elim (Bool-cases d.valid) [
  | inl w ↦ ground (arith, live_in-append es e v)
  | inr w ↦ ground (arith, live_in-append es e v)
]

pub HandlesFrom-append :
    (k : ℕ) (es : List NexusObject) (e : NexusObject)
    → HandlesFrom k es
    → e.handle ≡ k + length es
    → HandlesFrom k (es ++ (e ∷ []))
HandlesFrom-append k [] e h eq = (omega arith, tt)
HandlesFrom-append k (d ∷ es) e h eq = (h.0, HandlesFrom-append (k + 1) es e h.1 (omega arith))

pub decrement_lem : (n : ℕ) → n + 1 < 2 ^ 64 → decrement (n + 1) ≡ n
unfolding decrement
decrement_lem n h = ground arith

pub increment_lem : (n : ℕ) → n + 1 < 2 ^ 64 → increment n ≡ n + 1
unfolding increment
increment_lem n h = ground arith

pub length-modify :
    (i : ℕ) (f : NexusObject → NexusObject) (es : List NexusObject)
    → length (modify i f es) ≡ length es
unfolding modify
length-modify i f [] = refl
length-modify zero f (e ∷ es) = refl
length-modify (suc i) f (e ∷ es) = ap suc (length-modify i f es)

pub HandlesFrom-modify :
    (k i : ℕ) (f : NexusObject → NexusObject) (es : List NexusObject)
    → ((e : NexusObject) → (f e).handle ≡ e.handle)
    → HandlesFrom k es
    → HandlesFrom k (modify i f es)
unfolding modify
HandlesFrom-modify k i f [] same h = tt
HandlesFrom-modify k zero f (e ∷ es) same h = (omega (arith, same e, h.0), h.1)
HandlesFrom-modify k (suc i) f (e ∷ es) same h = (h.0, HandlesFrom-modify (k + 1) i f es same h.1)

pub live_in-modify :
    (i : ℕ) (f : NexusObject → NexusObject) (es : List NexusObject)
    → ((e : NexusObject) → (f e).valid ≡ e.valid)
    → live_in (modify i f es) ≡ live_in es
unfolding modify
live_in-modify i f [] same = refl
live_in-modify zero f (e ∷ es) same = rw (same e) refl
live_in-modify (suc i) f (e ∷ es) same = rw (live_in-modify i f es same) refl

pub live_in-modify-dead :
    (i : ℕ) (es : List NexusObject) {e : NexusObject}
    → get_elem? es i ≡ some e
    → e.valid ≡ true
    → live_in es ≡ live_in (modify i dead es) + 1
unfolding modify
live_in-modify-dead i [] g v = absurd (cc)
live_in-modify-dead zero (d ∷ es) g v = ground (arith, g, v)
live_in-modify-dead (suc i) (d ∷ es) g v = elim (Bool-cases d.valid) [
  | inl w ↦ ground (arith, live_in-modify-dead i es g v)
  | inr w ↦ ground (arith, live_in-modify-dead i es g v)
]

pub length-kill :
    (doomed : ℕ → NexusObject → Bool) (i : ℕ) (es : List NexusObject) (live : ℕ)
    → length (kill doomed i es live).0 ≡ length es
unfolding kill
length-kill doomed i [] live = refl
length-kill doomed i (e ∷ es) live = ap suc (length-kill doomed (i + 1) es _)

pub HandlesFrom-kill :
    (doomed : ℕ → NexusObject → Bool) (k i : ℕ) (es : List NexusObject) (live : ℕ)
    → HandlesFrom k es
    → HandlesFrom k (kill doomed i es live).0
unfolding kill
HandlesFrom-kill doomed k i [] live h = tt
HandlesFrom-kill doomed k i (e ∷ es) live h = elim (Bool-cases (e.valid && doomed i e)) [
  | inl c ↦ rw c (h.0, HandlesFrom-kill doomed (k + 1) (i + 1) es (decrement live) h.1)
  | inr c ↦ rw c (h.0, HandlesFrom-kill doomed (k + 1) (i + 1) es live h.1)
]

kill_doomed :
    (doomed : ℕ → NexusObject → Bool) (i : ℕ) (e : NexusObject) (es : List NexusObject) (live : ℕ)
    → e.valid && doomed i e ≡ true
    → kill doomed i (e ∷ es) live ≡ (
      dead e ∷ (kill doomed (i + 1) es (decrement live)).0,
      (kill doomed (i + 1) es (decrement live)).1,
    )
unfolding kill
kill_doomed doomed i e es live c = rw c refl

kill_spared :
    (doomed : ℕ → NexusObject → Bool) (i : ℕ) (e : NexusObject) (es : List NexusObject) (live : ℕ)
    → e.valid && doomed i e ≡ false
    → kill doomed i (e ∷ es) live
      ≡ (e ∷ (kill doomed (i + 1) es live).0, (kill doomed (i + 1) es live).1)
unfolding kill
kill_spared doomed i e es live c = rw c refl

live_in_valid :
    (e : NexusObject) (es : List NexusObject) → e.valid ≡ true → live_in (e ∷ es) ≡ live_in es + 1
live_in_valid e es v = ground arith

live_in_dead :
    (e : NexusObject) (es : List NexusObject) → e.valid ≡ false → live_in (e ∷ es) ≡ live_in es
live_in_dead e es v = ground arith

-- The counter follows the valid slots that the loop leaves; `extra` counts those before slot `i`.
pub live_in-kill :
    (doomed : ℕ → NexusObject → Bool) (i extra : ℕ) (es : List NexusObject) (live : ℕ)
    → extra + length es < 2 ^ 64
    → live ≡ extra + live_in es
    → (kill doomed i es live).1 ≡ extra + live_in (kill doomed i es live).0
unfolding kill
live_in-kill doomed i extra [] live h eq = eq
live_in-kill doomed i extra (e ∷ es) live h eq =
    let n = live_in-le-length es in
    elim (Bool-cases (e.valid && doomed i e)) [
      | inl c ↦
          let r = kill doomed (i + 1) es (decrement live) in
          let one : live ≡ extra + live_in es + 1 =
            omega (arith, live_in_valid e es (ground arith)) in
          let less = decrement_lem (extra + live_in es) (omega arith) in
          let rest =
            live_in-kill doomed (i + 1) extra es (decrement live) (omega arith)
              (ap decrement one ∙ less) in
          let k = kill_doomed doomed i e es live c in
          ap (λ (q : List NexusObject × ℕ). q.1) k
          ∙ rest
          ∙ sym (ap (λ (q : List NexusObject × ℕ). extra + live_in q.0) k)
      | inr c ↦
          let r = kill doomed (i + 1) es live in
          let k = kill_spared doomed i e es live c in
          ap (λ (q : List NexusObject × ℕ). q.1) k
          ∙ elim (Bool-cases e.valid) [
            | inl v ↦ omega (
              arith,
              live_in-kill doomed (i + 1) (extra + 1) es live (omega arith)
                  (omega (arith, live_in_valid e es v)),
              live_in_valid e r.0 v,
            )
            | inr v ↦ omega (
              arith,
              live_in-kill doomed (i + 1) extra es live (omega arith)
                  (omega (arith, live_in_dead e es v)),
              live_in_dead e r.0 v,
            )
          ]
          ∙ sym (ap (λ (q : List NexusObject × ℕ). extra + live_in q.0) k)
    ]
