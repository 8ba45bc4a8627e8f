-- ===== src/Mtp/Listing.antt =====
-- Listings of a directory: GetObjectHandles, GetNumObjects and GetObjectPropList of src/mtp/mtp_ops.c.
use nx_nexus.Base.{
  ℕ, suc, ◌+◌, ◌-◌, ◌/◌, Bool, not, ◌||◌, List, [], ◌∷◌, ◌++◌, Option, none, some, ◌==◌,
  if◌then◌else◌, length, Bytes,
}
use nx_nexus.Format.{le_bytes}
use nx_nexus.ObjectDb
use nx_nexus.ObjectDb.{ObjectDb, NexusObject}
use nx_nexus.Mtp.Codes.{
  res_ok, res_general_error, res_invalid_object_handle, res_spec_by_format_unsupported,
  res_invalid_parameter, protection_none, type_u16, type_u32, type_u64, type_u128, type_str,
  prop_storage_id, prop_object_format, prop_protection_status, prop_object_size,
  prop_object_file_name, prop_parent_object, prop_persistent_uid, prop_name, handle_root,
  handle_all, storage_all, format_all, container_header_size,
}
use nx_nexus.Mtp.Container.{MtpContainer, param_bytes}
use nx_nexus.Mtp.Writer.{
  MtpWriter, writer_init, write_u16, write_u32, write_u64, write_u128, write_string,
}
use nx_nexus.Mtp.Path.{path_join, path_basename}
use nx_nexus.Mtp.World.{
  Device, Stores, Child, Act, Never, ◌>>=◌, ◌>>◌, pure, gets, on_db, on_stores,
}
use nx_nexus.Mtp.Transport.{respond, send_data, payload_buf_size}
use nx_nexus.Mtp.Reply.{
  param, param_or, reply, reject_if, or_refuse, stat_or, format_for, resolve_handle, resolve_parent,
}

-- `enum_collect` over the children that a store hands over.
abbrev pub passes : ℕ → Bool → Bool
passes filter is_dir = (filter == format_all) || (filter == format_for is_dir)

unfoldable pub count_children : ℕ → List Child → ℕ
count_children filter [] = 0
count_children filter (c ∷ cs) =
    let rest = count_children filter cs in if passes filter c.is_dir then suc rest else rest

abbrev pub handle_capacity : ℕ
handle_capacity = (payload_buf_size - container_header_size - 4) / 4

-- `room` is the rest of the handle array.
unfoldable pub collect_handles :
    (ℕ → Bool) → ℕ → ℕ → Bytes → ℕ → ℕ → List Child → ObjectDb → List ℕ × ObjectDb
collect_handles alloc storage_id parent dir filter room [] db = ([], db)
collect_handles alloc storage_id parent dir filter room (c ∷ cs) db =
    if not (passes filter c.is_dir)
    then collect_handles alloc storage_id parent dir filter room cs db
    else if room == 0
    then ([], db)
    else elim (path_join dir c.name) [
      | none ↦ collect_handles alloc storage_id parent dir filter room cs db
      | some path ↦
          let r = ObjectDb.intern alloc db storage_id parent path c.is_dir c.size in
          if r.0 == 0
          then ([], r.1)
          else (let rest = collect_handles alloc storage_id parent dir filter (room - 1) cs r.1 in
              (r.0 ∷ rest.0, rest.1))
    ]

-- The parent as it is told to the host.
abbrev pub told_parent : ℕ → ℕ
told_parent parent = if parent == handle_root then 0 else parent

-- The eight quadruples of `proplist_emit_for`.
abbrev pub props_per_object : ℕ
props_per_object = 8

abbrev pub emit_head : ℕ → ℕ → ℕ → MtpWriter → MtpWriter
emit_head handle prop kind w = write_u16 kind (write_u16 prop (write_u32 handle w))

unfoldable pub emit_for :
    (Bytes → ℕ → Option (List ℕ)) → ℕ → ℕ → Bytes → Bool → ℕ → ℕ → MtpWriter → MtpWriter
emit_for to_utf16 storage_id handle name is_dir size parent w =
    let w1 = write_u32 storage_id (emit_head handle prop_storage_id type_u32 w) in
    let w2 = write_u16 (format_for is_dir) (emit_head handle prop_object_format type_u16 w1) in
    let w3 = write_u16 protection_none (emit_head handle prop_protection_status type_u16 w2) in
    let w4 = write_u64 size (emit_head handle prop_object_size type_u64 w3) in
    let w5 = write_string to_utf16 name (emit_head handle prop_object_file_name type_str w4) in
    let w6 = write_u32 (told_parent parent) (emit_head handle prop_parent_object type_u32 w5) in
    let w7 = write_u128 handle storage_id (emit_head handle prop_persistent_uid type_u128 w6) in
    write_string to_utf16 name (emit_head handle prop_name type_str w7)

-- `proplist_collect` over the children: the writer, the number of elements, and the table.
unfoldable pub collect_props :
    (Bytes → ℕ → Option (List ℕ))
    → (ℕ → Bool)
    → ℕ
    → ℕ
    → Bytes
    → List Child
    → MtpWriter × ℕ
    → ObjectDb
    → (MtpWriter × ℕ) × ObjectDb
collect_props to_utf16 alloc storage_id parent dir [] out db = (out, db)
collect_props to_utf16 alloc storage_id parent dir (c ∷ cs) out db = elim (path_join dir c.name) [
  | none ↦ collect_props to_utf16 alloc storage_id parent dir cs out db
  | some path ↦
      let r = ObjectDb.intern alloc db storage_id parent path c.is_dir c.size in
      let w = emit_for to_utf16 storage_id r.0 c.name c.is_dir c.size parent out.0 in
      if r.0 == 0
      then (out, r.1)
      else if w.overflow
      then ((w, out.1 + props_per_object), r.1)
      else collect_props to_utf16 alloc storage_id parent dir cs (w, out.1 + props_per_object) r.1
]

-- The writer over the payload buffer, behind the header and the element count.
abbrev pub prop_list_writer : MtpWriter
prop_list_writer = writer_init (payload_buf_size - container_header_size - 4)

module _ {D : Device} {S : Stores} where
  unfoldable pub op_get_object_handles : MtpContainer → Act D S Never
  op_get_object_handles cmd = do
    let storage_id = param cmd 0
    let filter = param_or cmd 1 format_all
    reject_if (length cmd.params == 0) cmd res_invalid_parameter
    reject_if (storage_id == storage_all) cmd res_spec_by_format_unsupported
    found ← gets (resolve_parent storage_id (param_or cmd 2 handle_root))
    place ← or_refuse cmd found
    listing ← on_stores {S = S} (S.enumerate storage_id place.0)
    handles ←
        on_db (collect_handles D.alloc storage_id place.1 place.0 filter handle_capacity listing.0)
    reject_if (not listing.1) cmd res_general_error
    send_data cmd.code cmd.transaction_id (le_bytes 4 (length handles) ++ param_bytes handles)
    reply cmd res_ok

  unfoldable pub op_get_num_objects : MtpContainer → Act D S Never
  op_get_num_objects cmd = do
    let storage_id = param cmd 0
    reject_if (length cmd.params == 0) cmd res_invalid_parameter
    found ← gets (resolve_parent storage_id (param_or cmd 2 handle_root))
    place ← or_refuse cmd found
    listing ← on_stores {S = S} (S.enumerate storage_id place.0)
    reject_if (not listing.1) cmd res_general_error
    respond cmd.transaction_id res_ok (count_children (param_or cmd 1 format_all) listing.0 ∷ [])

  -- Every child of one folder, or one object.
  unfoldable pub prop_list_of : MtpContainer → NexusObject → Act D S (MtpWriter × ℕ)
  prop_list_of cmd obj =
      if param_or cmd 4 0 == 1
      then (do
        reject_if (not obj.is_dir) cmd res_invalid_object_handle
        listing ← on_stores {S = S} (S.enumerate obj.storage_id obj.path)
        out ← on_db (
            collect_props D.to_utf16 D.alloc obj.storage_id obj.handle obj.path listing.0
              (prop_list_writer, 0))
        reject_if (not listing.1) cmd res_general_error
        pure out)
      else (do
        now ← on_stores {S = S} (S.stat obj.storage_id obj.path)
        let kind = stat_or obj now
        pure (
          emit_for D.to_utf16 obj.storage_id obj.handle (path_basename obj.path) kind.0 kind.1
              obj.parent prop_list_writer,
          props_per_object,
        ))

  unfoldable pub op_get_object_prop_list : MtpContainer → Act D S Never
  op_get_object_prop_list cmd = do
    let handle = param cmd 0
    reject_if (length cmd.params == 0) cmd res_invalid_parameter
    reject_if ((handle == handle_all) || (handle == 0)) cmd res_spec_by_format_unsupported
    found ← gets (resolve_handle handle)
    obj ← or_refuse cmd found
    out ← prop_list_of cmd obj
    reject_if out.0.overflow cmd res_general_error
    send_data cmd.code cmd.transaction_id (le_bytes 4 out.1 ++ out.0.written)
    reply cmd res_ok
