-- ===== src/Install/Classify.antt =====
-- Filename handling of src/installer/installer.c: what a file of the package is, by its name.
use nx_nexus.Base.{
  ◌-◌, Bool, ◌&&◌, [], ◌∷◌, ◌++◌, none, some, leb, ◌==◌, if◌then◌else◌, length, drop, replicate,
  Bytes,
}
use nx_nexus.CString.{bytes_eq}
use nx_nexus.Hex.{parse_content_id}
use nx_nexus.Install.{EntryKind, ignore, nca, meta_nca, ticket, cert, ncz, meta_ncz}

unfoldable pub ends_with : Bytes → Bytes → Bool
ends_with name suffix =
    leb (length suffix) (length name) && bytes_eq (drop (length name - length suffix) name) suffix

-- The characters before the first dot: the content id, for every NCA form.
unfoldable pub stem : Bytes → Bytes
stem [] = []
stem (c ∷ name) = if c == b'.' then [] else c ∷ stem name

abbrev pub dot_nca : Bytes
dot_nca = b'.' ∷ b'n' ∷ b'c' ∷ b'a' ∷ []

abbrev pub dot_ncz : Bytes
dot_ncz = b'.' ∷ b'n' ∷ b'c' ∷ b'z' ∷ []

abbrev pub dot_cnmt : Bytes
dot_cnmt = b'.' ∷ b'c' ∷ b'n' ∷ b'm' ∷ b't' ∷ []

abbrev pub dot_tik : Bytes
dot_tik = b'.' ∷ b't' ∷ b'i' ∷ b'k' ∷ []

abbrev pub dot_cert : Bytes
dot_cert = b'.' ∷ b'c' ∷ b'e' ∷ b'r' ∷ b't' ∷ []

-- The zeroed id of the caller.
abbrev pub no_id : Bytes
no_id = replicate 16 0

-- The kind, if the stem is a content id, with that id.
abbrev pub with_id : EntryKind → Bytes → EntryKind × Bytes
with_id kind name = elim (parse_content_id (stem name)) [
  | none ↦ (ignore, no_id)
  | some id ↦ (kind, id)
]

-- `nexusInstallClassify` with a place for the id.
unfoldable pub classify_name : Bytes → EntryKind × Bytes
classify_name name =
    if ends_with name (dot_cnmt ++ dot_nca)
    then with_id meta_nca name
    else if ends_with name dot_nca
    then with_id nca name
    else if ends_with name (dot_cnmt ++ dot_ncz)
    then with_id meta_ncz name
    else if ends_with name dot_ncz
    then with_id ncz name
    else if ends_with name dot_tik
    then (ticket, no_id)
    else if ends_with name dot_cert
    then (cert, no_id)
    else (ignore, no_id)
