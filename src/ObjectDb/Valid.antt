-- ===== src/ObjectDb/Valid.antt =====
-- The table's invariant: slot `i` carries handle `i + 1`, and the live counter counts the valid slots.
use mathlib.Core.Path.{subst}
use nx_nexus.Base.{
  ℕ, ◌+◌, ◌-◌, ◌*◌, ◌%◌, ◌^◌, ◌≤◌, ◌<◌, ◌≡◌, ◌≢◌, ◌⊎◌, inl, inr, refl, sym, ap, ◌∙◌, Bool, [], ◌∷◌,
  arith, length, length-append, Option-cases, Bytes,
}
use nx_nexus.ObjectDb.{
  NexusObject, ObjectDb, init, dead, modify, killed, get, invalidate, clear_storage, in_storage,
  intern, appended, new_object, rename, find_locked, increment, decrement, refreshed, moved,
  is_descendant,
}
use nx_nexus.ObjectDb.Kill.{
  HandlesFrom, live_in, live_in-le-length, live_in-append, HandlesFrom-append, decrement_lem,
  increment_lem, length-modify, HandlesFrom-modify, live_in-modify, live_in-modify-dead,
  length-kill, HandlesFrom-kill, live_in-kill,
}
use nx_nexus.ObjectDb.Cases.{
  invalidate-none, invalidate-some, rename_cases, intern_cases, get-eq-some,
}
use nx_nexus.ObjectDb.Fate.{
  Step, Steps, interned, invalidated, storage_cleared, renamed, done, next,
}

pub record IsValid (db : ObjectDb) : Type 0 where
  pub handles : HandlesFrom 1 db.entries
  pub live_is : db.live ≡ live_in db.entries
  pub room : length db.entries ≤ db.capacity
  pub few : length db.entries < 2 ^ 32
  pub some_capacity : 0 < db.capacity

init-IsValid : IsValid init
unfolding init
init-IsValid = record {
  handles = tt;
  live_is = refl;
  room = omega arith;
  few = omega arith;
  some_capacity = omega arith;
}

modify-IsValid :
    {db : ObjectDb} (i : ℕ) (f : NexusObject → NexusObject)
    → ((e : NexusObject) → (f e).handle ≡ e.handle)
    → ((e : NexusObject) → (f e).valid ≡ e.valid)
    → IsValid db
    → IsValid (record db { entries = modify i f db.entries })
modify-IsValid {db} i f sh sv v = record {
  handles = HandlesFrom-modify 1 i f db.entries sh v.handles;
  live_is = v.live_is ∙ sym (live_in-modify i f db.entries sv);
  room = omega (arith, length-modify i f db.entries, v.room);
  few = omega (arith, length-modify i f db.entries, v.few);
  some_capacity = v.some_capacity;
}

killed-IsValid :
    {db : ObjectDb} (doomed : ℕ → NexusObject → Bool) → IsValid db → IsValid (killed db doomed)
unfolding killed
killed-IsValid {db} doomed v = record {
  handles = HandlesFrom-kill doomed 1 0 db.entries db.live v.handles;
  live_is =
      live_in-kill doomed 0 0 db.entries db.live (omega (arith, v.few)) (omega (arith, v.live_is))
      ∙ omega arith;
  room = omega (arith, length-kill doomed 0 db.entries db.live, v.room);
  few = omega (arith, length-kill doomed 0 db.entries db.live, v.few);
  some_capacity = v.some_capacity;
}

invalidate-IsValid : {db : ObjectDb} (handle : ℕ) → IsValid db → IsValid (invalidate db handle)
invalidate-IsValid {db} handle v = elim (Option-cases (get db handle)) [
  | inl n ↦ subst IsValid (sym (invalidate-none db handle n)) v
  | inr (e, s) ↦
      let (lo, hi, g, w) = get-eq-some db handle s in
      let c = live_in-modify-dead (handle - 1) db.entries g w in
      let n = live_in-le-length db.entries in
      subst IsValid (sym (invalidate-some db handle s)) (record {
        handles = HandlesFrom-modify 1 (handle - 1) dead db.entries (λ e. refl) v.handles;
        live_is =
            ap decrement (v.live_is ∙ c)
            ∙ decrement_lem (live_in (modify (handle - 1) dead db.entries)) (omega (arith, v.few));
        room = omega (arith, length-modify (handle - 1) dead db.entries, v.room);
        few = omega (arith, length-modify (handle - 1) dead db.entries, v.few);
        some_capacity = v.some_capacity;
      })
]

rename-IsValid :
    {db : ObjectDb} (handle : ℕ) (path : Bytes) → IsValid db → IsValid (rename db handle path).1
rename-IsValid {db} handle path v = elim (rename_cases db handle path) [
  | inl r ↦ subst IsValid (sym (ap (λ (q : Bool × ObjectDb). q.1) r)) v
  | inr (_, (e, s, inl (_, r))) ↦
      subst IsValid (sym (ap (λ (q : Bool × ObjectDb). q.1) r))
        (modify-IsValid (handle - 1) (moved path) (λ e. refl) (λ e. refl) v)
  | inr (_, (e, s, inr (_, r))) ↦ subst IsValid (sym (ap (λ (q : Bool × ObjectDb). q.1) r)) (
      modify-IsValid (handle - 1) (moved path) (λ e. refl) (λ e. refl)
        (killed-IsValid (is_descendant (handle - 1) e) v))
]

appended-IsValid :
    {db : ObjectDb} (capacity storage_id parent : ℕ) (path : Bytes) (is_dir : Bool) (size : ℕ)
    → length db.entries < capacity
    → length db.entries + 1 < 2 ^ 32
    → IsValid db
    → IsValid
        (appended
          (record db { capacity = capacity })
          (new_object (length db.entries) storage_id parent path is_dir size)).1
appended-IsValid {db} capacity storage_id parent path is_dir size room few v =
    let e = new_object (length db.entries) storage_id parent path is_dir size in
    let n = live_in-le-length db.entries in
    record {
      handles = HandlesFrom-append 1 db.entries e v.handles (omega arith);
      live_is =
          ap increment v.live_is
          ∙ increment_lem (live_in db.entries) (omega arith)
          ∙ omega (arith, live_in-append db.entries e refl);
      room = omega (arith, length-append db.entries (e ∷ []));
      few = omega (arith, length-append db.entries (e ∷ []));
      some_capacity = omega arith;
    }

intern-IsValid :
    (alloc : ℕ → Bool) {db : ObjectDb} (storage_id parent : ℕ) (path : Bytes) (is_dir : Bool)
    (size : ℕ)
    → length db.entries + 1 < 2 ^ 32
    → IsValid db
    → IsValid (intern alloc db storage_id parent path is_dir size).1
intern-IsValid alloc {db} storage_id parent path is_dir size few v =
    elim (intern_cases alloc db storage_id parent path is_dir size) [
      | inl r ↦ subst IsValid (sym (ap (λ (q : ℕ × ObjectDb). q.1) r)) v
      | inr (inl (_, r)) ↦ subst IsValid (sym (ap (λ (q : ℕ × ObjectDb). q.1) r)) (
          modify-IsValid (find_locked db.entries storage_id path - 1) (refreshed parent is_dir size)
            (λ e. refl) (λ e. refl) v)
      | inr (inr (_, (c, w, r))) ↦
          subst IsValid (sym (ap (λ (q : ℕ × ObjectDb). q.1) r))
            (appended-IsValid c storage_id parent path is_dir size (capacity_grows c w) few v)
    ]
  where
    capacity_grows :
        (c : ℕ)
        → ((c ≡ db.capacity) × (length db.entries ≢ db.capacity))
          ⊎ ((c ≡ db.capacity * 2 % 2 ^ 64) × (length db.entries ≡ db.capacity))
        → length db.entries < c
    capacity_grows c (inl (e, ne)) = ground (arith, v.room)
    capacity_grows c (inr (e, eq)) = omega (arith, v.some_capacity)

clear_storage-IsValid :
    {db : ObjectDb} (storage_id : ℕ) → IsValid db → IsValid (clear_storage db storage_id)
unfolding clear_storage
clear_storage-IsValid storage_id v = killed-IsValid (in_storage storage_id) v

Step-IsValid : {db db' : ObjectDb} → Step db db' → IsValid db → IsValid db'
Step-IsValid (interned alloc storage_id parent path is_dir size few) v =
    intern-IsValid alloc storage_id parent path is_dir size few v
Step-IsValid (invalidated handle) v = invalidate-IsValid handle v
Step-IsValid (storage_cleared {db = db} storage_id) v = clear_storage-IsValid storage_id v
Step-IsValid (renamed handle path) v = rename-IsValid handle path v

-- On a valid table, whatever calls are made before it is cleared or has 2 ^ 32 slots, each slot keeps
-- the handle of its position, the slots fit the array, and the live count is that of the valid slots.
pub Steps-IsValid : {db db' : ObjectDb} → Steps db db' → IsValid db → IsValid db'
Steps-IsValid done v = v
Steps-IsValid (next s r) v = Steps-IsValid r (Step-IsValid s v)
