-- ===== src/Mtp/Names.antt =====
-- The paths that the helpers of src/mtp/mtp_ops.c make from a name the host gives.
use nx_nexus.Base.{
  ◌<◌, ◌≡◌, ◌≢◌, refl, sym, ap, ◌∙◌, Bool, true, false, not, ◌&&◌, [], ◌∷◌, ◌++◌, none, some, arith,
  ltb, ltb→lt, ◌==◌, if◌then◌else◌, length, All, Bytes, append_assoc, inl, inr, Bool-cases,
  Option-cases,
}
use mathlib.Core.Bool.{false≢true}
use mathlib.Core.Path.{subst}
use mathlib.Core.Option.{some-injective}
use nx_nexus.CString.{bytes_eq, bytes_eq_iff}
use nx_nexus.ObjectDb.{path_max}
use nx_nexus.Mtp.Path.{
  slash, has_separator, name_is_safe, ends_in_slash, fits, path_join, split_last,
  path_with_new_name,
}

-- A name that stays in its folder.
pub record IsPlain (name : Bytes) : Type 0 where
  pub some_name : name ≢ []
  pub not_dot : name ≢ (b'.' ∷ [])
  pub not_dot_dot : name ≢ (b'.' ∷ b'.' ∷ [])
  pub no_separators : All (λ c. (c ≢ slash) × (c ≢ b'\\')) name

-- A path that ends in a slash and a plain name, and fits into its buffer.
pub record IsChild (path : Bytes) : Type 0 where
  pub folder : Bytes
  pub name : Bytes
  pub split : split_last path ≡ some (folder, name)
  pub plain : IsPlain name
  pub short : length path < path_max

separators_lem :
    (name : Bytes) → has_separator name ≡ false → All (λ c. (c ≢ slash) × (c ≢ b'\\')) name
unfolding has_separator
separators_lem [] h = tt
separators_lem (c ∷ cs) h = ((ground arith, ground arith), separators_lem cs (ground arith))

ne_of_bytes_eq : (a b : Bytes) → not (bytes_eq a b) ≡ true → a ≢ b
ne_of_bytes_eq a b h e = false≢true (sym (ap not ((bytes_eq_iff a b).1 e)) ∙ h)

and_parts : (a b : Bool) → (a && b) ≡ true → (a ≡ true) × (b ≡ true)
and_parts true b h = (refl, h)
and_parts false b h = absurd (false≢true h)

false_of_not : (b : Bool) → not b ≡ true → b ≡ false
false_of_not true h = sym h
false_of_not false h = refl

ne_of_length : (name : Bytes) → not (length name == 0) ≡ true → name ≢ []
ne_of_length name h e = false≢true (ap (λ n. not (length n == 0)) (sym e) ∙ h)

pub name_is_safe-IsPlain : (name : Bytes) → name_is_safe name ≡ true → IsPlain name
unfolding name_is_safe
name_is_safe-IsPlain name h =
    let a = and_parts _ (not (has_separator name)) h in
    let b = and_parts _ (not (bytes_eq name (b'.' ∷ b'.' ∷ []))) a.0 in
    let c = and_parts _ (not (bytes_eq name (b'.' ∷ []))) b.0 in
    record {
      some_name = ne_of_length name c.0;
      not_dot = ne_of_bytes_eq name _ c.1;
      not_dot_dot = ne_of_bytes_eq name _ b.1;
      no_separators = separators_lem name (false_of_not _ a.1);
    }

split_last-none :
    (name : Bytes) → All (λ c. (c ≢ slash) × (c ≢ b'\\')) name → split_last name ≡ none
unfolding split_last
split_last-none [] h = refl
split_last-none (c ∷ cs) (h, hs) = rw (split_last-none cs hs) (ground arith)

split_last-append :
    (dir name : Bytes)
    → All (λ c. (c ≢ slash) × (c ≢ b'\\')) name
    → split_last (dir ++ (slash ∷ name)) ≡ some (dir, name)
unfolding split_last
split_last-append [] name h = rw (split_last-none name h) refl
split_last-append (c ∷ dir) name h = rw (split_last-append dir name h) refl

ends_in_slash_lem :
    (dir : Bytes) → ends_in_slash dir ≡ true → (d : Bytes) × (dir ≡ d ++ (slash ∷ []))
unfolding ends_in_slash
ends_in_slash_lem [] h = absurd (false≢true h)
ends_in_slash_lem (c ∷ []) h = ([], ap (λ x. x ∷ []) (ground arith))
ends_in_slash_lem (c ∷ d ∷ cs) h =
    let r = ends_in_slash_lem (d ∷ cs) h in (c ∷ r.0, ap (λ t. c ∷ t) r.1)

fits_lem : (path p : Bytes) → fits path ≡ some p → (path ≡ p) × (length path < path_max)
fits_lem path p h = elim (Bool-cases (ltb (length path) path_max)) [
  | inl e ↦ (some-injective _ _ (sym (ap (λ c. if c then some path else none) e) ∙ h), ltb→lt _ _ e)
  | inr e ↦ absurd (ground arith)
]

-- A plain name behind a folder and a slash.
child_lem :
    (dir name path : Bytes) → IsPlain name → fits (dir ++ (slash ∷ name)) ≡ some path → IsChild path
child_lem dir name path plain h =
    let f = fits_lem _ path h in
    record {
      folder = dir;
      name = name;
      split = ap split_last (sym f.0) ∙ split_last-append dir name plain.no_separators;
      plain = plain;
      short = subst (λ p. length p < path_max) f.0 f.1;
    }

pub path_join-IsChild : (dir name path : Bytes) → path_join dir name ≡ some path → IsChild path
unfolding path_join
path_join-IsChild dir name path h = elim (Bool-cases (name_is_safe name)) [
  | inr e ↦ (let k : none ≡ some path = rw e at h in absurd (ground arith))
  | inl e ↦ elim (Bool-cases (ends_in_slash dir)) [
    | inl s ↦
        let d = ends_in_slash_lem dir s in
        child_lem d.0 name path (name_is_safe-IsPlain name e) (
          ap (λ p. fits p)
            (sym (append_assoc d.0 (slash ∷ []) name) ∙ ap (λ t. t ++ name) (sym d.1))
          ∙ rw (e, s) at h)
    | inr s ↦ child_lem dir name path (name_is_safe-IsPlain name e) (rw (e, s) at h)
  ]
]

pub path_with_new_name-IsChild :
    (path name new_path : Bytes) → path_with_new_name path name ≡ some new_path → IsChild new_path
unfolding path_with_new_name
path_with_new_name-IsChild path name new_path h = elim (Bool-cases (name_is_safe name)) [
  | inr e ↦ (let k : none ≡ some new_path = rw e at h in absurd (ground arith))
  | inl e ↦ elim (Option-cases (split_last path)) [
    | inl s ↦ (let k : none ≡ some new_path = rw (e, s) at h in absurd (ground arith))
    | inr s ↦ child_lem s.0.0 name new_path (name_is_safe-IsPlain name e) (rw (e, s.1) at h)
  ]
]
