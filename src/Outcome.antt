-- ===== src/Outcome.antt =====
-- `NexusFmtResult` of include/nexus/format.h, and what a parser can do.
use nx_nexus.Base.{◌≡◌, ◌≢◌, ◌⊎◌, inl, inr, refl, Bool, true, false}

-- The error values of `NexusFmtResult`; `NexusFmt_Ok` is the constructor `ok` of `Outcome`.
pub data FmtError : Type 0 where
  bad_magic truncated too_large overflow bad_name_table : FmtError
  out_of_range unsupported not_found : FmtError

-- `fault` is what the C code leaves undefined: a read or write outside the buffer.
pub data Outcome {ℓ} (A : Type ℓ) : Type ℓ where
  ok : A → Outcome A
  err : FmtError → Outcome A
  fault : Outcome A

-- The next call of a function, which is made when the one before succeeded.
abbrev pub ◌>>=◌ {ℓ κ} : {X : Type ℓ} {Y : Type κ} → Outcome X → (X → Outcome Y) → Outcome Y
fault >>= next = fault
err code >>= next = err code
ok x >>= next = next x

abbrev pub ◌>>◌ {ℓ} : {Y : Type ℓ} → Outcome (Unit {0}) → Outcome Y → Outcome Y
check >> next = check >>= λ _. next

infixl 5 ◌>>=◌ ◌>>◌
-- `if (c) return e;`
abbrev pub reject : Bool → FmtError → Outcome (Unit {0})
reject true e = err e
reject false e = ok tt

-- A chain that succeeds, taken apart at its first step.
pub >>=-eq-ok {ℓ κ} :
    {X : Type ℓ} {Y : Type κ} (first : Outcome X) (next : X → Outcome Y) {y : Y}
    → first >>= next ≡ ok y
    → (x : X) × (first ≡ ok x) × (next x ≡ ok y)
>>=-eq-ok fault next e = cc
>>=-eq-ok (err code) next e = cc
>>=-eq-ok (ok x) next e = (x, refl, e)

pub ok-injective {ℓ} : {A : Type ℓ} {a b : A} → ok a ≡ ok b → a ≡ b
ok-injective h = cc

-- A chain faults only where one of its steps does.
pub >>=-ne-fault {ℓ κ} :
    {A : Type ℓ} {B : Type κ} (m : Outcome A) (f : A → Outcome B)
    → m ≢ fault
    → ((a : A) → m ≡ ok a → f a ≢ fault)
    → (m >>= f) ≢ fault
>>=-ne-fault (ok a) f hm hf = hf a refl
>>=-ne-fault (err e) f hm hf = λ h. cc
>>=-ne-fault fault f hm hf = absurd (hm refl)

pub reject-ne-fault : (b : Bool) (e : FmtError) → reject b e ≢ fault
reject-ne-fault true e h = cc
reject-ne-fault false e h = cc

-- To split on a computed outcome and keep the equation.
pub Outcome-cases {ℓ} :
    {A : Type ℓ} (m : Outcome A)
    → ((a : A) × (m ≡ ok a)) ⊎ (((e : FmtError) × (m ≡ err e)) ⊎ (m ≡ fault))
Outcome-cases (ok a) = inl (a, refl)
Outcome-cases (err e) = inr (inl (e, refl))
Outcome-cases fault = inr (inr refl)
