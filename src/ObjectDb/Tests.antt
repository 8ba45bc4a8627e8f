-- ===== src/ObjectDb/Tests.antt =====
-- A table with two files of storage 1, the first of which is deleted and then sent again.
use nx_nexus.Base.{
  ◌++◌, ℕ, ◌+◌, ◌<◌, ◌^◌, ◌≡◌, ◌⊎◌, refl, Bool, true, false, [], ◌∷◌, some, none, arith, Bytes,
}
use nx_nexus.CString.{bytes_eq}
use nx_nexus.ObjectDb.{
  NexusObject, ObjectDb, init, modify, kill, killed, get, invalidate, intern, grow, rename, find,
  find_locked, is_below, increment, decrement,
}
use nx_nexus.ObjectDb.Fate.{Steps, interned, invalidated, done, next, dead-get, live-get}
use nx_nexus.ObjectDb.Valid.{IsValid, Steps-IsValid}
use nx_nexus.ObjectDb.Rename.{rename-is_below}
use nx_nexus.ObjectDb.Lookup.{find-intern}

abbrev object : ℕ → Bool → Bytes → Bool → NexusObject
object handle is_dir path valid = record {
  handle = handle;
  storage_id = 1;
  parent = 0;
  is_dir = is_dir;
  valid = valid;
  size = 0;
  path = path;
}

abbrev dir_path : Bytes
dir_path = b'/' ∷ b'a' ∷ []

abbrev file_path : Bytes
file_path = b'/' ∷ b'a' ∷ b'/' ∷ b'b' ∷ []

abbrev table : ObjectDb
table = record {
  entries = object 1 true dir_path true ∷ object 2 false file_path true ∷ [];
  capacity = 256;
  live = 2;
}

abbrev deleted : ObjectDb
deleted = record {
  entries = object 1 true dir_path true ∷ object 2 false file_path false ∷ [];
  capacity = 256;
  live = 1;
}

abbrev yes_alloc : ℕ → Bool
yes_alloc n = true

interns :
    (intern yes_alloc (intern yes_alloc init 1 0 dir_path true 0).1 1 0 file_path false 0)
    ≡ (2, table)
unfolding intern init find_locked increment bytes_eq grow
interns = refl

deletes : invalidate table 2 ≡ deleted
unfolding invalidate get modify decrement
deletes = refl

-- A rename of the directory invalidates the file below it.
renames : (get (rename table 1 (b'/' ∷ b'c' ∷ [])).1 2 ≡ none) × ((rename table 1 []).1.live ≡ 1)
unfolding rename get killed kill is_below modify decrement
renames = (refl, refl)

table-IsValid : IsValid table
table-IsValid = record {
  handles = (refl, (refl, tt));
  live_is = refl;
  room = omega arith;
  few = omega arith;
  some_capacity = omega arith;
}

-- The file is deleted, and its path is sent again.
abbrev sent_again : ObjectDb
sent_again = (intern yes_alloc (invalidate table 2) 1 0 file_path false 7).1

few_deleted : 2 + 1 < 2 ^ 32
few_deleted = omega arith

again : Steps table sent_again
unfolding invalidate get modify
again = next (invalidated 2) (next (interned yes_alloc 1 0 file_path false 7 few_deleted) done)

resend : Steps deleted (intern yes_alloc deleted 1 0 file_path false 7).1
resend = next (interned yes_alloc 1 0 file_path false 7 few_deleted) done

gone : get deleted 2 ≡ none
unfolding get
gone = refl

there : get table 2 ≡ some (object 2 false file_path true)
unfolding get
there = refl

given : (intern yes_alloc deleted 1 0 file_path false 7).0 ≡ 3
unfolding intern find_locked bytes_eq grow
given = refl

deleted-IsValid : IsValid deleted
deleted-IsValid = record {
  handles = (refl, (refl, tt));
  live_is = refl;
  room = omega arith;
  few = omega arith;
  some_capacity = omega arith;
}

dead-get_example : get (intern yes_alloc deleted 1 0 file_path false 7).1 2 ≡ none
dead-get_example = dead-get 2 resend (omega arith) (omega arith) gone

live-get_example :
    (get sent_again 2 ≡ none)
    ⊎ ((e : NexusObject) × (get sent_again 2 ≡ some e) × (e.handle ≡ 2) × (e.storage_id ≡ 1))
live-get_example = live-get 2 again there

Steps-IsValid_example : IsValid sent_again
Steps-IsValid_example = Steps-IsValid again table-IsValid

find-intern_example :
    (find (intern yes_alloc deleted 1 0 file_path false 7).1 1 file_path
      ≡ (intern yes_alloc deleted 1 0 file_path false 7).0)
    × ((find deleted 1 file_path ≡ 0)
        ⊎ (find deleted 1 file_path ≡ (intern yes_alloc deleted 1 0 file_path false 7).0))
find-intern_example =
    find-intern yes_alloc 1 0 file_path false 7 deleted-IsValid (λ e. omega (arith, given))

-- The table with one more file, which is outside the directory.
abbrev beside : ObjectDb
beside = record table {
  entries = table.entries ++ (object 3 false (b'/' ∷ b'x' ∷ []) true ∷ []);
  live = 3;
}

directory : get beside 1 ≡ some (object 1 true dir_path true)
unfolding get
directory = refl

stays : get (rename beside 1 (b'/' ∷ b'c' ∷ [])).1 3 ≡ some (object 3 false (b'/' ∷ b'x' ∷ []) true)
unfolding rename get killed kill is_below modify decrement
stays = refl

rename-is_below_example : is_below dir_path (b'/' ∷ b'x' ∷ []) ≡ false
rename-is_below_example =
    rename-is_below beside 1 3 (b'/' ∷ b'c' ∷ []) directory refl (omega arith) (λ e. omega arith)
      stays refl
