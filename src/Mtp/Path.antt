-- ===== src/Mtp/Path.antt =====
-- The path helpers of src/mtp/mtp_ops.c. A buffer for a path has `path_max` bytes.
use nx_nexus.Base.{
  ℕ, Bool, false, not, ◌&&◌, ◌||◌, [], ◌∷◌, ◌++◌, Option, none, some, ltb, ◌==◌, if◌then◌else◌,
  length, Bytes,
}
use nx_nexus.CString.{bytes_eq}
use nx_nexus.ObjectDb.{path_max}

abbrev pub slash : ℕ
slash = b'/'

unfoldable pub has_separator : Bytes → Bool
has_separator [] = false
has_separator (c ∷ cs) = c == slash || c == b'\\' || has_separator cs

unfoldable pub name_is_safe : Bytes → Bool
name_is_safe name =
    not (length name == 0)
    && not (bytes_eq name (b'.' ∷ []))
    && not (bytes_eq name (b'.' ∷ b'.' ∷ []))
    && not (has_separator name)

unfoldable pub ends_in_slash : Bytes → Bool
ends_in_slash [] = false
ends_in_slash (c ∷ []) = c == slash
ends_in_slash (c ∷ d ∷ cs) = ends_in_slash (d ∷ cs)

-- A path that `snprintf` writes whole into its buffer.
abbrev pub fits : Bytes → Option Bytes
fits path = if ltb (length path) path_max then some path else none

unfoldable pub path_join : Bytes → Bytes → Option Bytes
path_join dir name =
    if not (name_is_safe name)
    then none
    else if ends_in_slash dir
    then fits (dir ++ name)
    else fits (dir ++ (slash ∷ name))

-- The path up to its last slash, and what follows it.
unfoldable pub split_last : Bytes → Option (Bytes × Bytes)
split_last [] = none
split_last (c ∷ cs) = elim (split_last cs) [
  | some (dir, name) ↦ some (c ∷ dir, name)
  | none ↦ if c == slash then some ([], cs) else none
]

-- The last component; the whole path when it has no slash or ends in it.
unfoldable pub path_basename : Bytes → Bytes
path_basename path = elim (split_last path) [
  | none ↦ path
  | some (dir, []) ↦ path
  | some (dir, c ∷ name) ↦ c ∷ name
]

-- `path_with_new_name`.
unfoldable pub path_with_new_name : Bytes → Bytes → Option Bytes
path_with_new_name path name =
    if not (name_is_safe name)
    then none
    else elim (split_last path) [ none ↦ none | some (dir, old) ↦ fits (dir ++ (slash ∷ name)) ]
