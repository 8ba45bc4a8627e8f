-- ===== src/Install/Sorted.antt =====
-- The table is ordered by offset, and its files are those that were collected.
use mathlib.Core.List.{Perm, perm_middle}
use mathlib.Core.List.Perm
use mathlib.Core.Path.{subst}
use nx_nexus.Base.{ℕ, ◌≤◌, sym, List, [], ◌∷◌, ◌++◌, arith, ltb, if_cases, All, append-nil}
use nx_nexus.Install.{InstallEntry}
use nx_nexus.Install.Entries.{place, sort_onto, back_to_front, sort_entries}

-- Offsets that do not decrease from the front.
abbrev pub Ascending : List InstallEntry → Type 0
Ascending [] = Unit
Ascending (e ∷ es) = All (λ f. e.abs_offset ≤ f.abs_offset) es × Ascending es

-- And from the back.
abbrev Descending : List InstallEntry → Type 0
Descending [] = Unit
Descending (e ∷ es) = All (λ f. f.abs_offset ≤ e.abs_offset) es × Descending es

place-Perm : (key : InstallEntry) (es : List InstallEntry) → Perm (place key es) (key ∷ es)
unfolding place
place-Perm key [] = Perm.rfl
place-Perm key (e ∷ es) =
    if_cases (λ q. Perm q (key ∷ e ∷ es)) (ltb key.abs_offset e.abs_offset) (e ∷ place key es)
      (key ∷ e ∷ es) (λ _. Perm.trans (Perm.cons e (place-Perm key es)) (Perm.swap key e es))
      λ _. Perm.rfl

sort_onto-Perm : (sorted es : List InstallEntry) → Perm (sort_onto sorted es) (es ++ sorted)
unfolding sort_onto
sort_onto-Perm sorted [] = Perm.rfl
sort_onto-Perm sorted (key ∷ es) =
    Perm.trans (sort_onto-Perm (place key sorted) es)
      (Perm.trans (Perm.append_left es (place-Perm key sorted)) (perm_middle es sorted))

back_to_front-Perm : (sorted es : List InstallEntry) → Perm (back_to_front sorted es) (sorted ++ es)
unfolding back_to_front
back_to_front-Perm [] es = Perm.rfl
back_to_front-Perm (e ∷ sorted) es =
    Perm.trans (back_to_front-Perm sorted (e ∷ es)) (perm_middle sorted es)

abbrev UpTo : ℕ → List InstallEntry → Type 0
UpTo bound = All (λ f. f.abs_offset ≤ bound)

UpTo-le : {a b : ℕ} (es : List InstallEntry) → a ≤ b → UpTo a es → UpTo b es
UpTo-le [] h u = tt
UpTo-le (e ∷ es) h u = (omega (arith, u.0), UpTo-le es h u.1)

UpTo-place :
    {b : ℕ} (key : InstallEntry) (es : List InstallEntry)
    → key.abs_offset ≤ b
    → UpTo b es
    → UpTo b (place key es)
unfolding place
UpTo-place key [] h u = (h, tt)
UpTo-place {b} key (e ∷ es) h u =
    if_cases (UpTo b) (ltb key.abs_offset e.abs_offset) (e ∷ place key es) (key ∷ e ∷ es)
      (λ _. (u.0, UpTo-place key es h u.1)) λ _. (h, u)

place-Descending :
    (key : InstallEntry) (es : List InstallEntry) → Descending es → Descending (place key es)
unfolding place
place-Descending key [] d = (tt, tt)
place-Descending key (e ∷ es) d =
    if_cases Descending (ltb key.abs_offset e.abs_offset) (e ∷ place key es) (key ∷ e ∷ es)
      (λ lt. (UpTo-place key es (ground (arith, lt)) d.0, place-Descending key es d.1))
      λ ge.
        let le' : e.abs_offset ≤ key.abs_offset = ground (arith, ge) in
        ((le', UpTo-le es le' d.0), d)

sort_onto-Descending :
    (sorted es : List InstallEntry) → Descending sorted → Descending (sort_onto sorted es)
unfolding sort_onto
sort_onto-Descending sorted [] d = d
sort_onto-Descending sorted (key ∷ es) d =
    sort_onto-Descending (place key sorted) es (place-Descending key sorted d)

back_to_front-Ascending :
    (sorted es : List InstallEntry)
    → Descending sorted
    → Ascending es
    → All (λ e. All (λ f. e.abs_offset ≤ f.abs_offset) es) sorted
    → Ascending (back_to_front sorted es)
unfolding back_to_front
back_to_front-Ascending [] es d a h = a
back_to_front-Ascending (e ∷ sorted) es d a h =
    back_to_front-Ascending sorted (e ∷ es) d.1 (h.0, a) (and_first sorted d.0 h.1)
  where
    and_first :
        (fs : List InstallEntry)
        → UpTo e.abs_offset fs
        → All (λ f. All (λ g. f.abs_offset ≤ g.abs_offset) es) fs
        → All (λ f. All (λ g. f.abs_offset ≤ g.abs_offset) (e ∷ es)) fs
    and_first [] u k = tt
    and_first (f ∷ fs) u k = ((u.0, k.0), and_first fs u.1 k.1)

nothing_after :
    (es : List InstallEntry)
    → All (λ (e : InstallEntry). All (λ (f : InstallEntry). e.abs_offset ≤ f.abs_offset) []) es
nothing_after [] = tt
nothing_after (e ∷ es) = (tt, nothing_after es)

-- The insertion sort of the table leaves the same files, in the order of their offsets.
pub sort_entries_lem :
    (es : List InstallEntry) → Ascending (sort_entries es) × Perm (sort_entries es) es
unfolding sort_entries
sort_entries_lem es = (
  back_to_front-Ascending (sort_onto [] es) [] (sort_onto-Descending [] es tt) tt
      (nothing_after (sort_onto [] es)),
  subst (λ q. Perm (back_to_front (sort_onto [] es) []) q) (append-nil es)
      (Perm.trans (back_to_front-Perm (sort_onto [] es) []) (
        subst (λ q. Perm q (es ++ [])) (sym (append-nil (sort_onto [] es)))
          (sort_onto-Perm [] es))),
)
