-- ===== src/Install/Entries.antt =====
-- `build_entries` of src/installer/installer.c: the table of files, in the order they arrive in.
use nx_nexus.Base.{
  ℕ, zero, suc, ◌+◌, ◌%◌, ◌^◌, Bool, true, false, List, [], ◌∷◌, ◌++◌, ltb, leb, if◌then◌else◌,
  length, Bytes,
}
use nx_nexus.Outcome.{ok, err, fault}
use nx_nexus.PartitionFs.{PartitionFsEntry, get_entry_count, get_data_offset, get_entry}
use nx_nexus.Install.{
  EntryKind, ignore, InstallEntry, Installer, InstallResult, install_ok, bad_container, no_meta_nca,
  too_many_contents, max_install_contents, is_meta,
}
use nx_nexus.Install.Classify.{classify_name}

abbrev pub entry_of : ℕ → ℕ → PartitionFsEntry → EntryKind → Bytes → InstallEntry
entry_of data_off i e kind id = record {
  pfs_index = i;
  kind = kind;
  content_id = id;
  abs_offset = (data_off + e.offset) % 2 ^ 64;
  size = e.size;
}

-- The slot is filled, and a meta NCA is noted.
abbrev pub add_entry : Installer → InstallEntry → Installer
add_entry ins slot =
    let ins' : Installer = record ins { entries = ins.entries ++ (slot ∷ []) } in
    if is_meta slot.kind
    then record ins' {
      meta_content_id = slot.content_id;
      meta_nca_size = slot.size;
      has_meta_nca = true;
    }
    else ins'

-- A slot is taken, if there is one.
unfoldable pub keep_entry :
    Installer → ℕ → PartitionFsEntry → EntryKind → Bytes → InstallResult × Installer
keep_entry ins i e kind id =
    if leb max_install_contents (length ins.entries)
    then (too_many_contents, ins)
    else (install_ok, add_entry ins (entry_of (get_data_offset ins.pfs) i e kind id))

-- One round of the first loop, on a file whose name is of this kind.
unfoldable pub take_entry :
    Installer → ℕ → PartitionFsEntry → EntryKind × Bytes → InstallResult × Installer
take_entry ins i e (ignore, id) = (install_ok, ins)
take_entry ins i e (kind, id) = keep_entry ins i e kind id

-- `if (r != NexusInstall_Ok) return r;`
abbrev pub is_ok : InstallResult → Bool
is_ok install_ok = true
is_ok _ = false

abbrev pub on_ok :
    InstallResult × Installer → (Installer → InstallResult × Installer) → InstallResult × Installer
on_ok t go = if is_ok t.0 then go t.1 else t

-- The first loop, with `n` files left from index `i` on.
unfoldable pub collect : ℕ → ℕ → Installer → InstallResult × Installer
collect zero i ins = (install_ok, ins)
collect (suc n) i ins = elim (get_entry ins.pfs i) [
  | ok e ↦ on_ok (take_entry ins i e (classify_name e.name)) (collect n (i + 1))
  | err x ↦ (bad_container, ins)
  | fault ↦ (bad_container, ins)
]

-- The inner loop of the insertion sort: `sorted` is the part before the key, its last element first.
unfoldable pub place : InstallEntry → List InstallEntry → List InstallEntry
place key [] = key ∷ []
place key (e ∷ sorted) =
    if ltb key.abs_offset e.abs_offset then e ∷ place key sorted else key ∷ e ∷ sorted

unfoldable pub sort_onto : List InstallEntry → List InstallEntry → List InstallEntry
sort_onto sorted [] = sorted
sort_onto sorted (key ∷ es) = sort_onto (place key sorted) es

unfoldable pub back_to_front : List InstallEntry → List InstallEntry → List InstallEntry
back_to_front [] es = es
back_to_front (e ∷ sorted) es = back_to_front sorted (e ∷ es)

unfoldable pub sort_entries : List InstallEntry → List InstallEntry
sort_entries es = back_to_front (sort_onto [] es) []

-- What follows the first loop.
unfoldable pub order_entries : Installer → InstallResult × Installer
order_entries ins =
    if ins.has_meta_nca
    then (install_ok, record ins { entries = sort_entries ins.entries })
    else (no_meta_nca, ins)

unfoldable pub build_entries : Installer → InstallResult × Installer
build_entries ins =
    on_ok (collect (get_entry_count ins.pfs) 0 (record ins { entries = [] })) order_entries
