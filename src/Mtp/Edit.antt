-- ===== src/Mtp/Edit.antt =====
-- Delete, rename, move and copy of src/mtp/mtp_ops.c.
use nx_nexus.Base.{
  ℕ, Bool, true, false, not, ◌||◌, [], ◌∷◌, none, some, ltb, ◌==◌, if◌then◌else◌, length, Bytes,
}
use nx_nexus.ObjectDb
use nx_nexus.ObjectDb.{NexusObject, path_max}
use nx_nexus.Mtp.Codes.{
  res_ok, res_general_error, res_operation_not_supported, res_incomplete_transfer,
  res_store_read_only, res_access_denied, res_invalid_parent_object, res_invalid_parameter,
  res_spec_of_destination_unsupported, res_invalid_object_prop_value, res_object_prop_not_supported,
  prop_object_file_name, prop_name, handle_all,
}
use nx_nexus.Mtp.Container.{MtpContainer}
use nx_nexus.Mtp.Reader.{reader_init, read_string}
use nx_nexus.Mtp.Path.{name_is_safe, path_join, path_basename, path_with_new_name}
use nx_nexus.Mtp.World.{
  Device, Stores, World, remove_hook, move_hook, copy_hook, Act, Never, ◌>>=◌, ◌>>◌, pure, gets,
  modify_db, on_db, on_stores,
}
use nx_nexus.Mtp.Transport.{respond, recv_to_payload}
use nx_nexus.Mtp.Reply.{param, reply, reject_if, or_refuse, resolve_handle, resolve_parent}

module _ {D : Device} {S : Stores} where
  unfoldable pub op_delete_object : MtpContainer → Act D S Never
  op_delete_object cmd = do
    reject_if (length cmd.params == 0) cmd res_invalid_parameter
    reject_if (param cmd 0 == handle_all) cmd res_operation_not_supported
    found ← gets (resolve_handle (param cmd 0))
    obj ← or_refuse cmd found
    can ← gets (λ (w : World D S). S.has remove_hook obj.storage_id w.stores)
    reject_if (not can) cmd res_store_read_only
    removed ← on_stores {S = S} (S.remove obj.storage_id obj.path obj.is_dir)
    reject_if (not removed) cmd res_access_denied
    modify_db (λ db. ObjectDb.invalidate db obj.handle)
    reply cmd res_ok

  -- The object goes to a new path, with its handle.
  unfoldable pub move_object : MtpContainer → NexusObject → Bytes → Act D S Never
  move_object cmd obj new_path = do
    moved ← on_stores {S = S} (S.move obj.storage_id obj.path new_path obj.is_dir)
    reject_if (not moved) cmd res_access_denied
    modify_db (λ db. (ObjectDb.rename db obj.handle new_path).1)
    reply cmd res_ok

  unfoldable pub op_set_object_prop_value : MtpContainer → Act D S Never
  op_set_object_prop_value cmd = do
    let prop = param cmd 1
    reject_if (ltb (length cmd.params) 2) cmd res_invalid_parameter
    found ← gets (resolve_handle (param cmd 0))
    obj ← or_refuse cmd found
    received ← recv_to_payload
    elim received [
      | none ↦ reply cmd res_incomplete_transfer
      | some payload ↦ do
        reject_if (not ((prop == prop_object_file_name) || (prop == prop_name))) cmd
            res_object_prop_not_supported
        can ← gets (λ (w : World D S). S.has move_hook obj.storage_id w.stores)
        reject_if (not can) cmd res_store_read_only
        let name = read_string D.to_utf8 path_max (reader_init payload)
        reject_if (name.1.underflow || not (name_is_safe name.0)) cmd res_invalid_object_prop_value
        renamed ← pure (path_with_new_name obj.path name.0)
        elim renamed [
          | none ↦ reply cmd res_invalid_object_prop_value
          | some new_path ↦ move_object cmd obj new_path
        ]
    ]

  -- A file is copied, and the copy gets a handle.
  unfoldable pub copy_object : MtpContainer → NexusObject → ℕ → Bytes → Act D S Never
  copy_object cmd obj parent new_path = do
    can ← gets (λ (w : World D S). S.has copy_hook obj.storage_id w.stores)
    reject_if (not can) cmd res_operation_not_supported
    reject_if obj.is_dir cmd res_operation_not_supported
    copied ← on_stores {S = S} (S.copy obj.storage_id obj.path new_path)
    reject_if (not copied) cmd res_access_denied
    handle ← on_db (λ db. ObjectDb.intern D.alloc db obj.storage_id parent new_path false obj.size)
    reject_if (handle == 0) cmd res_general_error
    respond cmd.transaction_id res_ok (handle ∷ [])

  unfoldable pub move_or_copy : Bool → MtpContainer → Act D S Never
  move_or_copy is_move cmd = do
    reject_if (ltb (length cmd.params) 3) cmd res_invalid_parameter
    found ← gets (resolve_handle (param cmd 0))
    obj ← or_refuse cmd found
    target ← gets (resolve_parent (param cmd 1) (param cmd 2))
    place ← or_refuse cmd target
    reject_if (not (param cmd 1 == obj.storage_id)) cmd res_spec_of_destination_unsupported
    joined ← pure (path_join place.0 (path_basename obj.path))
    elim joined [
      | none ↦ reply cmd res_invalid_parent_object
      | some new_path ↦
          if is_move
          then (do
            can ← gets (λ (w : World D S). S.has move_hook obj.storage_id w.stores)
            reject_if (not can) cmd res_store_read_only
            move_object cmd obj new_path)
          else copy_object cmd obj place.1 new_path
    ]

  abbrev pub op_move_object : MtpContainer → Act D S Never
  op_move_object = move_or_copy true

  abbrev pub op_copy_object : MtpContainer → Act D S Never
  op_copy_object = move_or_copy false
