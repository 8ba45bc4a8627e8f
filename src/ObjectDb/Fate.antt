-- ===== src/ObjectDb/Fate.antt =====
-- What becomes of a handle while the table is used: it stays with its storage, or dies for good.
use mathlib.Core.Path.{subst}
use nx_nexus.Base.{
  ℕ, zero, suc, ◌+◌, ◌-◌, ◌^◌, ◌≤◌, ◌<◌, ◌≡◌, ◌⊎◌, inl, inr, refl, ap, ◌∙◌, Bool, true, false, ◌&&◌,
  List, [], ◌∷◌, ◌++◌, some, none, arith, length, get_elem?, lt_of_get_elem?, Bool-cases,
  Option-cases, Bytes,
}
use nx_nexus.ObjectDb.Cases.{
  invalidate-none, invalidate-some, rename_cases, intern_cases, get-eq-some, get-eq-none,
}
use nx_nexus.ObjectDb.{
  NexusObject, ObjectDb, dead, modify, kill, killed, get, invalidate, clear_storage, in_storage,
  intern, rename, find_locked, refreshed, moved, is_descendant,
}

-- What every operation keeps of a slot: its handle and its storage, and that it is dead.
abbrev pub Kept : NexusObject → NexusObject → Type 0
Kept e e' =
    (e'.handle ≡ e.handle)
    × (e'.storage_id ≡ e.storage_id)
    × ((e.valid ≡ true) ⊎ (e'.valid ≡ false))

abbrev pub Later : List NexusObject → List NexusObject → Type 0
Later [] es' = Unit
Later (e ∷ es) [] = ⊥
Later (e ∷ es) (e' ∷ es') = Kept e e' × Later es es'

Kept-refl : (e : NexusObject) → Kept e e
Kept-refl e = elim (Bool-cases e.valid) [
  | inl v ↦ (refl, refl, inl v)
  | inr v ↦ (refl, refl, inr v)
]

Kept-dead : (e : NexusObject) → Kept e (dead e)
Kept-dead e = (refl, refl, inr refl)

Kept-trans : (a b c : NexusObject) → Kept a b → Kept b c → Kept a c
Kept-trans a b c (h, s, inl v) (h', s', w) = (h' ∙ h, s' ∙ s, inl v)
Kept-trans a b c (h, s, inr v) (h', s', inl w) = (h' ∙ h, s' ∙ s, absurd cc)
Kept-trans a b c (h, s, inr v) (h', s', inr w) = (h' ∙ h, s' ∙ s, inr w)

pub Later-refl : (es : List NexusObject) → Later es es
Later-refl [] = tt
Later-refl (e ∷ es) = (Kept-refl e, Later-refl es)

pub Later-trans : (a b c : List NexusObject) → Later a b → Later b c → Later a c
Later-trans [] b c h k = tt
Later-trans (x ∷ a) [] c h k = absurd h
Later-trans (x ∷ a) (y ∷ b) [] h k = absurd k
Later-trans (x ∷ a) (y ∷ b) (z ∷ c) h k = (Kept-trans x y z h.0 k.0, Later-trans a b c h.1 k.1)

Later-append : (es fs : List NexusObject) → Later es (es ++ fs)
Later-append [] fs = tt
Later-append (e ∷ es) fs = (Kept-refl e, Later-append es fs)

Later-modify :
    (i : ℕ) (f : NexusObject → NexusObject) (es : List NexusObject)
    → ((e : NexusObject) → Kept e (f e))
    → Later es (modify i f es)
unfolding modify
Later-modify i f [] k = tt
Later-modify zero f (e ∷ es) k = (k e, Later-refl es)
Later-modify (suc i) f (e ∷ es) k = (Kept-refl e, Later-modify i f es k)

Later-kill :
    (doomed : ℕ → NexusObject → Bool) (i : ℕ) (es : List NexusObject) (live : ℕ)
    → Later es (kill doomed i es live).0
unfolding kill
Later-kill doomed i [] live = tt
Later-kill doomed i (e ∷ es) live = elim (Bool-cases (e.valid && doomed i e)) [
  | inl c ↦ rw c (Kept-dead e, Later-kill doomed (i + 1) es _)
  | inr c ↦ rw c (Kept-refl e, Later-kill doomed (i + 1) es _)
]

Later-killed :
    (db : ObjectDb) (doomed : ℕ → NexusObject → Bool) → Later db.entries (killed db doomed).entries
unfolding killed
Later-killed db doomed = Later-kill doomed 0 db.entries db.live

pub Later-invalidate :
    (db : ObjectDb) (handle : ℕ) → Later db.entries (invalidate db handle).entries
Later-invalidate db handle = elim (Option-cases (get db handle)) [
  | inl n ↦ rw (invalidate-none db handle n) (Later-refl db.entries)
  | inr (e, s) ↦
      rw (invalidate-some db handle s) (Later-modify (handle - 1) dead db.entries Kept-dead)
]

pub Later-clear_storage :
    (db : ObjectDb) (storage_id : ℕ) → Later db.entries (clear_storage db storage_id).entries
unfolding clear_storage
Later-clear_storage db storage_id = Later-killed db (in_storage storage_id)

pub Later-rename :
    (db : ObjectDb) (handle : ℕ) (path : Bytes) → Later db.entries (rename db handle path).1.entries
Later-rename db handle path = elim (rename_cases db handle path) [
  | inl r ↦ rw r (Later-refl db.entries)
  | inr (_, (e, s, inl (f, r))) ↦
      rw r (Later-modify (handle - 1) (moved path) db.entries (λ e. Kept-refl e))
  | inr (_, (e, s, inr (d, r))) ↦
      let db' = killed db (is_descendant (handle - 1) e) in
      rw r (
        Later-trans db.entries db'.entries (modify (handle - 1) (moved path) db'.entries)
          (Later-killed db (is_descendant (handle - 1) e))
          (Later-modify (handle - 1) (moved path) db'.entries (λ e. Kept-refl e)))
]

pub Later-intern :
    (alloc : ℕ → Bool) (db : ObjectDb) (storage_id parent : ℕ) (path : Bytes) (is_dir : Bool)
    (size : ℕ)
    → Later db.entries (intern alloc db storage_id parent path is_dir size).1.entries
Later-intern alloc db storage_id parent path is_dir size =
    elim (intern_cases alloc db storage_id parent path is_dir size) [
      | inl r ↦ rw r (Later-refl db.entries)
      | inr (inl (_, r)) ↦ rw r (
          Later-modify (find_locked db.entries storage_id path - 1) (refreshed parent is_dir size)
            db.entries (λ e. Kept-refl e))
      | inr (inr (_, (c, _, r))) ↦ rw r (Later-append db.entries _)
    ]

-- One call between two clears of the table; a call that interns has an allocator of its own.
pub data Step : ObjectDb → ObjectDb → Type 0 where
  interned :
      {db : ObjectDb} (alloc : ℕ → Bool) (storage_id parent : ℕ) (path : Bytes) (is_dir : Bool)
      (size : ℕ)
      → length db.entries + 1 < 2 ^ 32
      → Step db (intern alloc db storage_id parent path is_dir size).1
  invalidated : {db : ObjectDb} (handle : ℕ) → Step db (invalidate db handle)
  storage_cleared : {db : ObjectDb} (storage_id : ℕ) → Step db (clear_storage db storage_id)
  renamed : {db : ObjectDb} (handle : ℕ) (path : Bytes) → Step db (rename db handle path).1

-- Any sequence of such calls.
pub data Steps : ObjectDb → ObjectDb → Type 0 where
  done : {db : ObjectDb} → Steps db db
  next : {db db' db'' : ObjectDb} → Step db db' → Steps db' db'' → Steps db db''

Later-Step : {db db' : ObjectDb} → Step db db' → Later db.entries db'.entries
Later-Step (interned {db = db} alloc storage_id parent path is_dir size few) =
    Later-intern alloc db storage_id parent path is_dir size
Later-Step (invalidated {db = db} handle) = Later-invalidate db handle
Later-Step (storage_cleared {db = db} storage_id) = Later-clear_storage db storage_id
Later-Step (renamed {db = db} handle path) = Later-rename db handle path

Later-Steps : {db db' : ObjectDb} → Steps db db' → Later db.entries db'.entries
Later-Steps (done {db = db}) = Later-refl db.entries
Later-Steps (next {db = db} {db' = db'} {db'' = db''} s r) =
    Later-trans db.entries db'.entries db''.entries (Later-Step s) (Later-Steps r)

Later-get_elem? :
    (es es' : List NexusObject) (i : ℕ) {e : NexusObject}
    → Later es es'
    → get_elem? es i ≡ some e
    → (e' : NexusObject) × (get_elem? es' i ≡ some e') × Kept e e'
Later-get_elem? [] es' i l g = absurd (cc)
Later-get_elem? (d ∷ es) [] i l g = absurd l
Later-get_elem? (d ∷ es) (d' ∷ es') zero {e} l g =
    (d', refl, subst (λ x. Kept x d') (ap (λ o. elim o [ none ↦ d | some x ↦ x ]) g) l.0)
Later-get_elem? (d ∷ es) (d' ∷ es') (suc i) l g = Later-get_elem? es es' i l.1 g

get_of_dead :
    (db : ObjectDb) (handle : ℕ) {e : NexusObject}
    → get_elem? db.entries (handle - 1) ≡ some e
    → e.valid ≡ false
    → get db handle ≡ none
unfolding get
get_of_dead db handle g v = ground arith

get_of_live :
    (db : ObjectDb) (handle : ℕ) {e : NexusObject}
    → 0 < handle
    → get_elem? db.entries (handle - 1) ≡ some e
    → e.valid ≡ true
    → get db handle ≡ some e
unfolding get
get_of_live db handle lo g v = ground (arith, lt_of_get_elem? db.entries (handle - 1) g)

-- A handle that was given out and is dead stays dead: whatever calls follow before the table is
-- cleared or has 2 ^ 32 slots, a lookup of it finds nothing, so it never comes to mean another file.
pub dead-get :
    {db db' : ObjectDb} (handle : ℕ)
    → Steps db db'
    → 0 < handle
    → handle ≤ length db.entries
    → get db handle ≡ none
    → get db' handle ≡ none
dead-get {db} {db'} handle r lo hi g =
    let (e, s, v) = get-eq-none db handle lo hi g in
    let (e', s', k) = Later-get_elem? db.entries db'.entries (handle - 1) (Later-Steps r) s in
    get_of_dead db' handle s' (ground (arith, k))

-- A live handle keeps its number and its storage until it dies, whatever calls follow before the
-- table is cleared or has 2 ^ 32 slots.
pub live-get :
    {db db' : ObjectDb} (handle : ℕ) {e : NexusObject}
    → Steps db db'
    → get db handle ≡ some e
    → (get db' handle ≡ none)
      ⊎ ((e' : NexusObject) × (get db' handle ≡ some e')
          × (e'.handle ≡ e.handle)
          × (e'.storage_id ≡ e.storage_id))
live-get {db} {db'} handle r g =
    let (lo, hi, s, v) = get-eq-some db handle g in
    let (e', s', k) = Later-get_elem? db.entries db'.entries (handle - 1) (Later-Steps r) s in
    elim (Bool-cases e'.valid) [
      | inl w ↦ inr (e', get_of_live db' handle lo s' w, k.0, k.1)
      | inr w ↦ inl (get_of_dead db' handle s' w)
    ]
