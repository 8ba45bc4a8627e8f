-- ===== src/ObjectDb/Lookup.antt =====
-- A path that was interned is found again, under the handle that interning it returned.
use nx_nexus.Base.{
  ℕ, zero, suc, ◌⊎◌, ◌+◌, ◌-◌, ◌<◌, ◌≡◌, ◌≢◌, inl, inr, refl, ap, Bool, true, List, [], ◌∷◌, ◌++◌,
  arith, length, Bool-cases, Bytes,
}
use nx_nexus.CString.{bytes_eq_iff}
use nx_nexus.ObjectDb.{
  NexusObject, ObjectDb, modify, intern, new_object, find_locked, find, names, refreshed,
}
use nx_nexus.ObjectDb.Kill.{HandlesFrom}
use nx_nexus.ObjectDb.Cases.{intern_cases}
use nx_nexus.ObjectDb.Valid.{IsValid}

names_self : (e : NexusObject) → e.valid ≡ true → names e.storage_id e.path e ≡ true
names_self e v = ground (arith, (bytes_eq_iff e.path e.path).1 refl)

find_locked-append :
    (k : ℕ) (es : List NexusObject) (e : NexusObject)
    → e.valid ≡ true
    → 0 < k
    → HandlesFrom k es
    → find_locked es e.storage_id e.path ≡ 0
    → find_locked (es ++ (e ∷ [])) e.storage_id e.path ≡ e.handle
unfolding find_locked
find_locked-append k [] e v p h z = rw (names_self e v) refl
find_locked-append k (c ∷ es) e v p h z = elim (Bool-cases (names e.storage_id e.path c)) [
  | inl y ↦ absurd (ground (arith, h.0, z, y))
  | inr n ↦ rw n (find_locked-append (k + 1) es e v (omega arith) h.1 (ground (arith, z, n)))
]

find_locked-modify :
    (es : List NexusObject) (storage_id parent : ℕ) (path : Bytes) (is_dir : Bool) (size i : ℕ)
    → find_locked (modify i (refreshed parent is_dir size) es) storage_id path
      ≡ find_locked es storage_id path
unfolding find_locked modify
find_locked-modify [] storage_id parent path is_dir size i = refl
find_locked-modify (e ∷ es) storage_id parent path is_dir size zero = refl
find_locked-modify (e ∷ es) storage_id parent path is_dir size (suc i) =
    rw (find_locked-modify es storage_id parent path is_dir size i) refl

-- After an intern that gave a handle, a valid table finds that handle for the same storage and path; and
-- the handle that was already known for them, if any, is the one given.
pub find-intern :
    (alloc : ℕ → Bool) {db : ObjectDb} (storage_id parent : ℕ) (path : Bytes) (is_dir : Bool)
    (size : ℕ)
    → IsValid db
    → (intern alloc db storage_id parent path is_dir size).0 ≢ 0
    → (find (intern alloc db storage_id parent path is_dir size).1 storage_id path
        ≡ (intern alloc db storage_id parent path is_dir size).0)
      × ((find db storage_id path ≡ 0)
          ⊎ (find db storage_id path ≡ (intern alloc db storage_id parent path is_dir size).0))
unfolding find
find-intern alloc {db} storage_id parent path is_dir size v ne =
    elim (intern_cases alloc db storage_id parent path is_dir size) [
      | inl r ↦ absurd (ne (ap (λ (q : ℕ × ObjectDb). q.0) r))
      | inr (inl (_, r)) ↦ rw r (
        find_locked-modify db.entries storage_id parent path is_dir size
            (find_locked db.entries storage_id path - 1),
        inr refl,
      )
      | inr (inr (new, (c, w, r))) ↦ rw r (
        find_locked-append 1 db.entries
            (new_object (length db.entries) storage_id parent path is_dir size) refl (omega arith)
            v.handles new,
        inl new,
      )
    ]
