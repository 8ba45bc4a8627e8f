-- ===== src/Search.antt =====
-- The loop of `partitionFsFindEntry` and `cnmtFindContentByType`: the first element that passes a
-- test, where an element that cannot be had is passed over.
use native.Mathlib.Decide.{ℕ_discrete}
use mathlib.Core.Path.{subst}
use nx_nexus.Base.{
  ℕ, zero, suc, ◌+◌, ◌≤◌, ◌<◌, ◌≡◌, ◌⊎◌, inl, inr, refl, sym, ap, ◌∙◌, Bool, true, false, arith,
  Bool-cases,
}
use nx_nexus.Outcome.{Outcome, ok, err, fault, not_found, ok-injective}

module _ {A : Type 0} (get : ℕ → Outcome A) (test : A → Bool) where
  -- The number of rounds left comes first, the index of the next one second.
  unfoldable pub find_from : ℕ → ℕ → Outcome A
  find_from zero i = err not_found
  find_from (suc n) i = elim (get i) [
    | ok e ↦ elim (test e) [ true ↦ ok e | false ↦ find_from n (i + 1) ]
    | err _ ↦ find_from n (i + 1)
    | fault ↦ fault
  ]

  -- `e` is the first element from `i` on that passes.
  pub record IsFirst (i : ℕ) (e : A) : Type 0 where
    pub index : ℕ
    pub from : i ≤ index
    pub elem_is : get index ≡ ok e
    pub passes : test e ≡ true
    pub earlier : (j : ℕ) (d : A) → i ≤ j → j < index → get j ≡ ok d → test d ≡ false

  -- No element from `i` on passes.
  abbrev pub Absent : ℕ → Type 0
  Absent i = (j : ℕ) (d : A) → i ≤ j → get j ≡ ok d → test d ≡ false

  -- What a search from `i` on returns: the first element, or `not_found` where there is none.
  abbrev pub Finds : ℕ → Outcome A → Type 0
  Finds i r = ((e : A) × (r ≡ ok e) × IsFirst i e) ⊎ ((r ≡ err not_found) × Absent i)

  module _ (i : ℕ) {d : A} (at : get i ≡ ok d) where
    find_from_here : (n : ℕ) → test d ≡ true → find_from (suc n) i ≡ ok d
    unfolding find_from
    find_from_here n e = ground arith

    find_from_next : (n : ℕ) → test d ≡ false → find_from (suc n) i ≡ find_from n (i + 1)
    unfolding find_from
    find_from_next n e = ground arith

    here-IsFirst : test d ≡ true → IsFirst i d
    here-IsFirst e = record {
      index = i;
      from = omega arith;
      elem_is = at;
      passes = e;
      earlier = λ j _ lo hi. absurd (omega arith);
    }

    fails : (j : ℕ) (e : A) → test d ≡ false → j ≡ i → get j ≡ ok e → test e ≡ false
    fails j e ne eq g = ap test (sym (ok-injective (sym at ∙ subst (λ k. get k ≡ ok e) eq g))) ∙ ne

    skip-Finds : {r : Outcome A} → test d ≡ false → Finds (i + 1) r → Finds i r
    skip-Finds ne (inl (e, r, f)) = inl (
      e,
      r,
      record {
        index = f.index;
        from = omega (arith, f.from);
        elem_is = f.elem_is;
        passes = f.passes;
        earlier = λ j x lo hi g. elim (ℕ_discrete j i) [
          | yes eq ↦ fails j x ne eq g
          | no other ↦ f.earlier j x (omega arith) hi g
        ];
      },
    )
    skip-Finds ne (inr (r, a)) = inr (
      r,
      λ j x lo g. elim (ℕ_discrete j i) [
        | yes eq ↦ fails j x ne eq g
        | no other ↦ a j x (omega arith) g
      ],
    )

  -- Over elements that are all there below `count` and missing from `count` on, the loop finds.
  pub find_from-Finds :
      (count : ℕ)
      → ((j : ℕ) → j < count → (e : A) × (get j ≡ ok e))
      → ((j : ℕ) (e : A) → count ≤ j → get j ≡ ok e → ⊥)
      → (n i : ℕ) → i + n ≡ count
      → Finds i (find_from n i)
  unfolding find_from
  find_from-Finds count total past zero i h =
      inr (refl, λ j d lo g. absurd (past j d (omega arith) g))
  find_from-Finds count total past (suc n) i h =
      let (d, at) = total i (omega arith) in
      elim (Bool-cases (test d)) [
        | inl e ↦ inl (d, find_from_here i at n e, here-IsFirst i at e)
        | inr e ↦
            rw (find_from_next i at n e)
              (skip-Finds i at e (find_from-Finds count total past n (i + 1) (omega arith)))
      ]
