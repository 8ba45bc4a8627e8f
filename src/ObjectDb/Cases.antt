-- ===== src/ObjectDb/Cases.antt =====
-- The ways in which each operation on the table can end, as equations.
use native.Mathlib.Decide.{dec_lt}
use nx_nexus.Base.{
  ℕ, ◌-◌, ◌*◌, ◌%◌, ◌^◌, ◌≤◌, ◌<◌, ◌≡◌, ◌≢◌, ◌⊎◌, inl, inr, refl, Bool, true, false, some, none,
  arith, length, get_elem?, get_elem?-lt, Bool-cases, Option-cases, Bytes, leb, ◌==◌,
}
use nx_nexus.ObjectDb.{
  NexusObject, ObjectDb, dead, modify, killed, get, invalidate, intern, grow, decrement, appended,
  new_object, rename, find_locked, refreshed, moved, is_descendant,
}

pub invalidate-none :
    (db : ObjectDb) (handle : ℕ) → get db handle ≡ none → invalidate db handle ≡ db
unfolding invalidate
invalidate-none db handle n = ground arith

pub get-eq-some :
    (db : ObjectDb) (handle : ℕ) {e : NexusObject}
    → get db handle ≡ some e
    → (0 < handle)
      × (handle ≤ length db.entries)
      × (get_elem? db.entries (handle - 1) ≡ some e)
      × (e.valid ≡ true)
unfolding get
get-eq-some db handle g = ground arith

pub get-eq-none :
    (db : ObjectDb) (handle : ℕ)
    → 0 < handle
    → handle ≤ length db.entries
    → get db handle ≡ none
    → (e : NexusObject) × (get_elem? db.entries (handle - 1) ≡ some e) × (e.valid ≡ false)
unfolding get
get-eq-none db handle lo hi g =
    let (e, s) = get_elem?-lt db.entries (handle - 1) (omega arith) in (e, s, ground (arith, s))

pub invalidate-some :
    (db : ObjectDb) (handle : ℕ) {e : NexusObject}
    → get db handle ≡ some e
    → invalidate db handle
      ≡ record db { entries = modify (handle - 1) dead db.entries; live = decrement db.live }
unfolding invalidate
invalidate-some db handle g = ground arith

pub rename_cases :
    (db : ObjectDb) (handle : ℕ) (path : Bytes)
    → (rename db handle path ≡ (false, db))
      ⊎ ((length path < 0x301)
          × ((e : NexusObject) × (get db handle ≡ some e)
              × (((e.is_dir ≡ false)
                    × (rename db handle path ≡ (
                      true,
                      record db { entries = modify (handle - 1) (moved path) db.entries },
                    )))
                  ⊎ ((e.is_dir ≡ true)
                      × (rename db handle path ≡ (
                        true,
                        record (killed db (is_descendant (handle - 1) e)) {
                          entries =
                              modify
                                (handle - 1)
                                (moved path)
                                (killed db (is_descendant (handle - 1) e)).entries;
                        },
                      ))))))
unfolding rename
rename_cases db handle path = elim (Option-cases (get db handle)) [
  | inl n ↦ inl (ground arith)
  | inr (e, s) ↦ elim (Bool-cases (leb 0x301 (length path))) [
    | inl long ↦ inl (ground arith)
    | inr short ↦ inr (
      ground arith,
      (
        e,
        s,
        elim (Bool-cases e.is_dir) [
          | inl d ↦ inr (d, ground arith)
          | inr f ↦ inl (f, ground arith)
        ],
      ),
    )
  ]
]

-- A refusal, a slot brought up to date, or a new slot at the end where there is room for it.
pub intern_cases :
    (alloc : ℕ → Bool) (db : ObjectDb) (storage_id parent : ℕ) (path : Bytes) (is_dir : Bool)
    (size : ℕ)
    → (intern alloc db storage_id parent path is_dir size ≡ (0, db))
      ⊎ (((find_locked db.entries storage_id path ≢ 0)
            × (intern alloc db storage_id parent path is_dir size ≡ (
              find_locked db.entries storage_id path,
              record db {
                entries =
                    modify
                      (find_locked db.entries storage_id path - 1)
                      (refreshed parent is_dir size)
                      db.entries;
              },
            )))
          ⊎ ((find_locked db.entries storage_id path ≡ 0)
              × ((c : ℕ) × (((c ≡ db.capacity) × (length db.entries ≢ db.capacity))
                    ⊎ ((c ≡ db.capacity * 2 % 2 ^ 64) × (length db.entries ≡ db.capacity)))
                  × (intern alloc db storage_id parent path is_dir size
                      ≡ appended
                          (record db { capacity = c })
                          (new_object (length db.entries) storage_id parent path is_dir size)))))
unfolding intern grow
intern_cases alloc db storage_id parent path is_dir size = elim (dec_lt 0 (length path)) [
  | no nil ↦ inl (ground arith)
  | yes some_path ↦ elim (Bool-cases (leb 0x301 (length path))) [
    | inl long ↦ inl (ground arith)
    | inr short ↦ elim (dec_lt 0 (find_locked db.entries storage_id path)) [
      | yes known ↦ inr (inl ((λ e. omega arith), ground arith))
      | no new ↦ elim (Bool-cases (length db.entries == db.capacity)) [
        | inr room ↦
            inr (inr (omega arith, (db.capacity, inl (refl, (λ e. ground arith)), ground arith)))
        | inl full ↦ elim (Bool-cases (alloc (db.capacity * 2 % 2 ^ 64))) [
          | inl given ↦ inr (
              inr (omega arith, (db.capacity * 2 % 2 ^ 64, inr (refl, ground arith), ground arith)))
          | inr denied ↦ inl (ground arith)
        ]
      ]
    ]
  ]
]
