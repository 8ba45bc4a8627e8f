-- ===== src/ObjectDb.antt =====
-- src/storage/object_db.c and include/nexus/object_db.h: the table of MTP object handles. `entries`
-- holds the first `g_used` slots of the array, `capacity` and `live` are the counters beside it.
-- Every operation runs under the mutex, so it is one step. Paths are C strings.
pub mod Kill
pub mod Cases
pub mod Valid
pub mod Fate
pub mod Lookup
pub mod Rename
mod Tests
use nx_nexus.Base.{
  ℕ, zero, suc, ◌+◌, ◌-◌, ◌*◌, ◌%◌, ◌^◌, Bool, true, false, not, ◌&&◌, ◌||◌, List, [], ◌∷◌, ◌++◌,
  Option, none, some, ltb, leb, ◌==◌, if◌then◌else◌, length, get_elem?, Bytes,
}
use nx_nexus.CString.{bytes_eq}

abbrev pub path_max : ℕ
path_max = 0x301

abbrev pub initial_capacity : ℕ
initial_capacity = 256

-- `size` is the 64 bits of the `s64`.
pub record NexusObject : Type 0 where
  pub handle : ℕ
  pub storage_id : ℕ
  pub parent : ℕ
  pub is_dir : Bool
  pub valid : Bool
  pub size : ℕ
  pub path : Bytes

pub record ObjectDb : Type 0 where
  pub entries : List NexusObject
  pub capacity : ℕ
  pub live : ℕ

-- `g_live--` and `g_live++` on a `size_t`.
unfoldable pub decrement : ℕ → ℕ
decrement n = (n + (2 ^ 64 - 1)) % 2 ^ 64

unfoldable pub increment : ℕ → ℕ
increment n = (n + 1) % 2 ^ 64

-- A write to fields of slot `i`.
unfoldable pub modify : ℕ → (NexusObject → NexusObject) → List NexusObject → List NexusObject
modify i f [] = []
modify zero f (e ∷ es) = f e ∷ es
modify (suc i) f (e ∷ es) = e ∷ modify i f es

abbrev pub dead : NexusObject → NexusObject
dead e = record e { valid = false }

-- The state after a successful `nexusObjectDbInit`, and after `nexusObjectDbClear`.
unfoldable pub init : ObjectDb
init = record { entries = []; capacity = initial_capacity; live = 0 }

unfoldable pub clear : ObjectDb → ObjectDb
clear db = record db { entries = []; live = 0 }

-- The loop that invalidates the valid slots from index `i` on that `doomed` holds of.
unfoldable pub kill : (ℕ → NexusObject → Bool) → ℕ → List NexusObject → ℕ → List NexusObject × ℕ
kill doomed i [] live = ([], live)
kill doomed i (e ∷ es) live =
    let rest = kill doomed (i + 1) es (if e.valid && doomed i e then decrement live else live) in
    ((if e.valid && doomed i e then dead e else e) ∷ rest.0, rest.1)

unfoldable pub killed : ObjectDb → (ℕ → NexusObject → Bool) → ObjectDb
killed db doomed =
    let r = kill doomed 0 db.entries db.live in record db { entries = r.0; live = r.1 }

abbrev pub in_storage : ℕ → ℕ → NexusObject → Bool
in_storage storage_id i e = e.storage_id == storage_id

unfoldable pub clear_storage : ObjectDb → ℕ → ObjectDb
clear_storage db storage_id = killed db (in_storage storage_id)

-- Whether a slot is the one looked for.
abbrev pub names : ℕ → Bytes → NexusObject → Bool
names storage_id path e = e.valid && (e.storage_id == storage_id && bytes_eq e.path path)

unfoldable pub find_locked : List NexusObject → ℕ → Bytes → ℕ
find_locked [] storage_id path = 0
find_locked (e ∷ es) storage_id path =
    if names storage_id path e then e.handle else find_locked es storage_id path

unfoldable pub find : ObjectDb → ℕ → Bytes → ℕ
find db storage_id path = find_locked db.entries storage_id path

-- The metadata that a second listing brings up to date.
abbrev pub refreshed : ℕ → Bool → ℕ → NexusObject → NexusObject
refreshed parent is_dir size e = record e {
  is_dir = is_dir;
  size = if is_dir then 0 else size;
  parent = parent;
}

abbrev pub new_object : ℕ → ℕ → ℕ → Bytes → Bool → ℕ → NexusObject
new_object used storage_id parent path is_dir size = record {
  handle = (used + 1) % 2 ^ 32;
  storage_id = storage_id;
  parent = parent;
  is_dir = is_dir;
  valid = true;
  size = if is_dir then 0 else size;
  path = path;
}

-- `objdb_grow`, where `alloc n` says whether `realloc` gives `n` slots.
unfoldable pub grow : (ℕ → Bool) → ObjectDb → Option ObjectDb
grow alloc db =
    let next = db.capacity * 2 % 2 ^ 64 in
    if alloc next then some (record db { capacity = next }) else none

-- The slot that is appended, once there is room.
abbrev pub appended : ObjectDb → NexusObject → ℕ × ObjectDb
appended db e = (e.handle, record db { entries = db.entries ++ (e ∷ []); live = increment db.live })

unfoldable pub intern : (ℕ → Bool) → ObjectDb → ℕ → ℕ → Bytes → Bool → ℕ → ℕ × ObjectDb
intern alloc db storage_id parent path is_dir size =
    let existing = find_locked db.entries storage_id path in
    let e = new_object (length db.entries) storage_id parent path is_dir size in
    if length path == 0 || leb path_max (length path)
    then (0, db)
    else if not (existing == 0)
    then (
      existing,
      record db { entries = modify (existing - 1) (refreshed parent is_dir size) db.entries },
    )
    else if length db.entries == db.capacity
    then elim (grow alloc db) [ none ↦ (0, db) | some grown ↦ appended grown e ]
    else appended db e

-- `nexusObjectDbGet` and `nexusObjectDbGetCopy`.
unfoldable pub get : ObjectDb → ℕ → Option NexusObject
get db handle =
    if handle == 0 || ltb (length db.entries) handle
    then none
    else elim (get_elem? db.entries (handle - 1)) [
      | none ↦ none
      | some e ↦ if e.valid then some e else none
    ]

unfoldable pub invalidate : ObjectDb → ℕ → ObjectDb
invalidate db handle = elim (get db handle) [
  | none ↦ db
  | some e ↦ record db { entries = modify (handle - 1) dead db.entries; live = decrement db.live }
]

-- `strncmp(path, old, strlen(old)) == 0 && path[strlen(old)] == '/'`.
unfoldable pub is_below : Bytes → Bytes → Bool
is_below [] [] = false
is_below [] (c ∷ path) = c == b'/'
is_below (d ∷ old) [] = false
is_below (d ∷ old) (c ∷ path) = c == d && is_below old path

-- The slots that a rename of `e`, in slot `index`, invalidates.
abbrev pub is_descendant : ℕ → NexusObject → ℕ → NexusObject → Bool
is_descendant index e i c =
    not (i == index) && (c.storage_id == e.storage_id && is_below e.path c.path)

abbrev pub moved : Bytes → NexusObject → NexusObject
moved new_path e = record e { path = new_path }

unfoldable pub rename : ObjectDb → ℕ → Bytes → Bool × ObjectDb
rename db handle new_path =
    if leb path_max (length new_path) then (false, db) else elim (get db handle) [
      | none ↦ (false, db)
      | some e ↦
          let db' = if e.is_dir then killed db (is_descendant (handle - 1) e) else db in
          (true, record db' { entries = modify (handle - 1) (moved new_path) db'.entries })
    ]

unfoldable pub live_count : ObjectDb → ℕ
live_count db = db.live
