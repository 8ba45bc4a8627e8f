-- ===== src/Mtp/Handle.antt =====
-- The dispatch of src/mtp/mtp_ops.c and the transaction of src/mtp/mtp_server.c.
use nx_nexus.Base.{
  Option, Bool, ℕ, ◌+◌, ◌%◌, ◌^◌, true, false, not, ◌&&◌, ◌||◌, List, [], ◌∷◌, none, some, ◌==◌,
  if◌then◌else◌, length,
}
use nx_nexus.Mtp.Codes.{
  container_command, code_get_device_info, code_open_session, code_close_session,
  code_get_storage_ids, code_get_storage_info, code_get_num_objects, code_get_object_handles,
  code_get_object_info, code_get_object, code_get_thumb, code_delete_object, code_send_object_info,
  code_send_object, code_get_device_prop_desc, code_get_device_prop_value, code_move_object,
  code_copy_object, code_get_partial_object, code_get_object_props_supported,
  code_get_object_prop_desc, code_get_object_prop_value, code_set_object_prop_value,
  code_get_object_prop_list, res_session_not_open, res_operation_not_supported,
}
use nx_nexus.Mtp.Container.{MtpContainer, parse}
use nx_nexus.Mtp.World.{
  Device, Stores, World, MtpServerState, MtpServerStats, Step, goes, returns, Act, Never, ◌>>=◌,
  ◌>>◌, pure, return, gets, modify_server, usb_read,
}
use nx_nexus.Mtp.Transport.{cmd_buf_size, payload_buf_size}
use nx_nexus.Mtp.Reply.{reply, reject_if}
use nx_nexus.Mtp.About.{
  op_get_device_info, op_get_object_props_supported, op_get_object_prop_desc,
  op_get_device_prop_value, op_get_device_prop_desc,
}
use nx_nexus.Mtp.Session.{
  new_server, abandon_write, op_open_session, op_close_session, op_get_storage_ids,
  op_get_storage_info,
}
use nx_nexus.Mtp.Listing.{op_get_object_handles, op_get_num_objects, op_get_object_prop_list}
use nx_nexus.Mtp.Objects.{
  op_get_object_info, op_get_thumb, op_get_object, op_get_partial_object, op_get_object_prop_value,
}
use nx_nexus.Mtp.Upload.{op_send_object_info, op_send_object, drop_pending}
use nx_nexus.Mtp.Edit.{op_delete_object, op_set_object_prop_value, op_move_object, op_copy_object}

abbrev pub zero_stats : MtpServerStats
zero_stats = record { bytes_in = 0; bytes_out = 0; last_rate_bps = 0; operations = 0; errors = 0 }

-- `mtpServerInit` with an allocator: the state it leaves, unless it fails.
unfoldable pub server_init : (ℕ → Bool) → Bool → MtpServerState → Option MtpServerState
server_init alloc initialized g =
    if initialized
    then some g
    else if not (alloc cmd_buf_size) || not (alloc payload_buf_size)
    then none
    else some (new_server zero_stats)

module _ {D : Device} {S : Stores} where
  -- The cases of the `switch`.
  abbrev pub handlers : List (ℕ × (MtpContainer → Act D S Never))
  handlers =
      (code_get_device_info, op_get_device_info)
      ∷ (code_open_session, op_open_session)
      ∷ (code_close_session, op_close_session)
      ∷ (code_get_storage_ids, op_get_storage_ids)
      ∷ (code_get_storage_info, op_get_storage_info)
      ∷ (code_get_num_objects, op_get_num_objects)
      ∷ (code_get_object_handles, op_get_object_handles)
      ∷ (code_get_object_info, op_get_object_info)
      ∷ (code_get_object, op_get_object)
      ∷ (code_get_thumb, op_get_thumb)
      ∷ (code_get_partial_object, op_get_partial_object)
      ∷ (code_delete_object, op_delete_object)
      ∷ (code_send_object_info, op_send_object_info)
      ∷ (code_send_object, op_send_object)
      ∷ (code_get_object_props_supported, op_get_object_props_supported)
      ∷ (code_get_object_prop_desc, op_get_object_prop_desc)
      ∷ (code_get_object_prop_value, op_get_object_prop_value)
      ∷ (code_set_object_prop_value, op_set_object_prop_value)
      ∷ (code_get_object_prop_list, op_get_object_prop_list)
      ∷ (code_move_object, op_move_object)
      ∷ (code_copy_object, op_copy_object)
      ∷ (code_get_device_prop_desc, op_get_device_prop_desc)
      ∷ (code_get_device_prop_value, op_get_device_prop_value)
      ∷ []

  unfoldable pub switch : List (ℕ × (MtpContainer → Act D S Never)) → MtpContainer → Act D S Never
  switch [] cmd = reply cmd res_operation_not_supported
  switch ((code, handler) ∷ cases) cmd = if cmd.code == code then handler cmd else switch cases cmd

  -- An upload that another operation interrupts is given up.
  unfoldable pub abandon_pending : MtpContainer → Act D S (Unit {0})
  abandon_pending cmd = do
    pending ← gets (λ (w : World D S). w.server.pending_send)
    if pending && not (cmd.code == code_send_object) then abandon_write >> drop_pending else pure tt

  -- `mtpHandleCommand`.
  unfoldable pub handle_command : MtpContainer → Act D S Never
  handle_command cmd = do
    session_open ← gets (λ (w : World D S). w.server.session_open)
    reject_if
        (not session_open
          && not (cmd.code == code_get_device_info)
          && not (cmd.code == code_open_session))
        cmd res_session_not_open
    abandon_pending cmd
    switch handlers cmd

  abbrev pub count_operation : Step D S Never → Step D S Never
  count_operation (goes a w) = goes a w
  count_operation (returns false w) = returns false w
  count_operation (returns true w) =
      let stats = w.server.stats in
      returns true (record w {
        server = record (w.server) {
          stats = record stats { operations = (stats.operations + 1) % 2 ^ 32 };
        };
      })

  -- `mtpServerRunOnce` of a server that is initialised.
  unfoldable pub run_once : Act D S Never
  run_once = do
    got ← usb_read cmd_buf_size
    elim got [
      | none ↦ return false
      | some bytes ↦ if length bytes == 0 then return true else (do
        parsed ← pure (parse bytes)
        elim parsed [
          | none ↦ return true
          | some cmd ↦
              if not (cmd.container_type == container_command)
              then return true
              else (modify_server (λ g. record g { transaction_id = cmd.transaction_id }) >> λ w.
                  count_operation (handle_command cmd w))
        ])
    ]
