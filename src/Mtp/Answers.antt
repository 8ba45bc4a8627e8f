-- ===== src/Mtp/Answers.antt =====
-- What each handler of src/mtp/mtp_ops.c says to the host.
use nx_nexus.Base.{ℕ, Bool, [], Option, none, some, Bytes}
use nx_nexus.ObjectDb.{NexusObject}
use nx_nexus.Mtp.Container.{MtpContainer}
use nx_nexus.Mtp.Writer.{MtpWriter}
use nx_nexus.Mtp.World.{Device, Stores, MtpServerState}
use nx_nexus.Mtp.Reply.{Resolved, resolved, refused, or_refuse, send_dataset}
use nx_nexus.Mtp.About.{
  op_get_device_info, op_get_object_props_supported, op_get_object_prop_desc,
  op_get_device_prop_value, op_get_device_prop_desc,
}
use nx_nexus.Mtp.Session.{
  abandon_write, reset_session, op_open_session, op_close_session, op_get_storage_ids,
  op_get_storage_info,
}
use nx_nexus.Mtp.Listing.{
  prop_list_of, op_get_object_handles, op_get_num_objects, op_get_object_prop_list,
}
use nx_nexus.Mtp.Objects.{op_get_object_info, op_get_thumb, op_get_object_prop_value}
use nx_nexus.Mtp.Upload.{
  make_folder, begin_upload, op_send_object_info, receive_upload, op_send_object, drop_pending,
  end_upload,
}
use nx_nexus.Mtp.Edit.{
  op_delete_object, move_object, op_set_object_prop_value, copy_object, move_or_copy,
}
use nx_nexus.Mtp.Says.{
  Says, operations, pure-Says, respond-Says, send_data-Says, recv_to_payload-Says,
  recv_streamed-Says,
}

module _ {D : Device} {S : Stores} where
  refuse-Says :
      {A : Type 0} (cmd : MtpContainer) (r : Resolved A)
      → Says D S cmd.transaction_id (or_refuse cmd r)
  refuse-Says cmd (resolved a) = pure-Says a
  refuse-Says cmd (refused code) = respond-Says code []

  ruleset says = (respond-Says, refuse-Says, send_data-Says, recv_to_payload-Says, operations)

  send_dataset-Says :
      (cmd : MtpContainer) (w : MtpWriter) → Says D S cmd.transaction_id (send_dataset cmd w)
  unfolding send_dataset
  send_dataset-Says cmd w = search says depth 20

  ruleset handled = (send_dataset-Says, says)

  pub op_get_device_info-Says :
      (cmd : MtpContainer) → Says D S cmd.transaction_id (op_get_device_info cmd)
  unfolding op_get_device_info
  op_get_device_info-Says cmd = search (handled) depth 60 fits 4000

  pub op_get_object_props_supported-Says :
      (cmd : MtpContainer) → Says D S cmd.transaction_id (op_get_object_props_supported cmd)
  unfolding op_get_object_props_supported
  op_get_object_props_supported-Says cmd = search (handled) depth 60 fits 4000

  pub op_get_object_prop_desc-Says :
      (cmd : MtpContainer) → Says D S cmd.transaction_id (op_get_object_prop_desc cmd)
  unfolding op_get_object_prop_desc
  op_get_object_prop_desc-Says cmd = search (handled) depth 60 fits 4000

  pub op_get_device_prop_value-Says :
      (cmd : MtpContainer) → Says D S cmd.transaction_id (op_get_device_prop_value cmd)
  unfolding op_get_device_prop_value
  op_get_device_prop_value-Says cmd = search (handled) depth 60 fits 4000

  pub op_get_device_prop_desc-Says :
      (cmd : MtpContainer) → Says D S cmd.transaction_id (op_get_device_prop_desc cmd)
  unfolding op_get_device_prop_desc
  op_get_device_prop_desc-Says cmd = search (handled) depth 60 fits 4000

  pub op_open_session-Says :
      (cmd : MtpContainer) → Says D S cmd.transaction_id (op_open_session cmd)
  unfolding op_open_session
  op_open_session-Says cmd = search (handled) depth 60 fits 4000

  pub op_get_storage_ids-Says :
      (cmd : MtpContainer) → Says D S cmd.transaction_id (op_get_storage_ids cmd)
  unfolding op_get_storage_ids
  op_get_storage_ids-Says cmd = search (handled) depth 60 fits 4000

  pub op_get_storage_info-Says :
      (cmd : MtpContainer) → Says D S cmd.transaction_id (op_get_storage_info cmd)
  unfolding op_get_storage_info
  op_get_storage_info-Says cmd = search (handled) depth 60 fits 4000

  pub op_get_object_handles-Says :
      (cmd : MtpContainer) → Says D S cmd.transaction_id (op_get_object_handles cmd)
  unfolding op_get_object_handles
  op_get_object_handles-Says cmd = search (handled) depth 60 fits 4000

  pub op_get_num_objects-Says :
      (cmd : MtpContainer) → Says D S cmd.transaction_id (op_get_num_objects cmd)
  unfolding op_get_num_objects
  op_get_num_objects-Says cmd = search (handled) depth 60 fits 4000

  pub op_get_object_info-Says :
      (cmd : MtpContainer) → Says D S cmd.transaction_id (op_get_object_info cmd)
  unfolding op_get_object_info
  op_get_object_info-Says cmd = search (handled) depth 60 fits 4000

  pub op_get_thumb-Says : (cmd : MtpContainer) → Says D S cmd.transaction_id (op_get_thumb cmd)
  unfolding op_get_thumb
  op_get_thumb-Says cmd = search (handled) depth 60 fits 4000

  pub op_get_object_prop_value-Says :
      (cmd : MtpContainer) → Says D S cmd.transaction_id (op_get_object_prop_value cmd)
  unfolding op_get_object_prop_value
  op_get_object_prop_value-Says cmd = search (handled) depth 60 fits 4000

  pub op_delete_object-Says :
      (cmd : MtpContainer) → Says D S cmd.transaction_id (op_delete_object cmd)
  unfolding op_delete_object
  op_delete_object-Says cmd = search (handled) depth 60 fits 4000

  pub abandon_write-Says : (t : ℕ) → Says D S t abandon_write
  unfolding abandon_write
  abandon_write-Says t = search operations depth 20

  reset_session-Says : (t : ℕ) → Says D S t reset_session
  unfolding reset_session
  reset_session-Says t = search (abandon_write-Says, operations) depth 20

  pub op_close_session-Says :
      (cmd : MtpContainer) → Says D S cmd.transaction_id (op_close_session cmd)
  unfolding op_close_session
  op_close_session-Says cmd = search (reset_session-Says, handled) depth 20

  prop_list_of-Says :
      (cmd : MtpContainer) (obj : NexusObject) → Says D S cmd.transaction_id (prop_list_of cmd obj)
  unfolding prop_list_of
  prop_list_of-Says cmd obj = search handled depth 40

  pub op_get_object_prop_list-Says :
      (cmd : MtpContainer) → Says D S cmd.transaction_id (op_get_object_prop_list cmd)
  unfolding op_get_object_prop_list
  op_get_object_prop_list-Says cmd = search (prop_list_of-Says, handled) depth 60 fits 4000

  make_folder-Says :
      (cmd : MtpContainer) (id parent : ℕ) (path : Bytes)
      → Says D S cmd.transaction_id (make_folder cmd id parent path)
  unfolding make_folder
  make_folder-Says cmd id parent path = search handled depth 60 fits 4000

  begin_upload-Says :
      (cmd : MtpContainer) (id parent size : ℕ) (path : Bytes)
      → Says D S cmd.transaction_id (begin_upload cmd id parent size path)
  unfolding begin_upload
  begin_upload-Says cmd id parent size path = search handled depth 60 fits 4000

  pub op_send_object_info-Says :
      (cmd : MtpContainer) → Says D S cmd.transaction_id (op_send_object_info cmd)
  unfolding op_send_object_info
  op_send_object_info-Says cmd =
      search (make_folder-Says, begin_upload-Says, handled) depth 60 fits 4000

  pub drop_pending-Says : (t : ℕ) → Says D S t drop_pending
  unfolding drop_pending
  drop_pending-Says t = search operations depth 20

  end_upload-Says :
      (cmd : MtpContainer) (id size : ℕ) (received : Option ℕ)
      → Says D S cmd.transaction_id (end_upload cmd id size received)
  unfolding end_upload
  end_upload-Says cmd id size none = search (drop_pending-Says, handled) depth 20
  end_upload-Says cmd id size (some n) = search (drop_pending-Says, handled) depth 20

  receive_upload-Says :
      (cmd : MtpContainer) (g : MtpServerState) → Says D S cmd.transaction_id (receive_upload cmd g)
  unfolding receive_upload
  receive_upload-Says cmd g =
      search (recv_streamed-Says, end_upload-Says, handled) depth 60 fits 4000

  pub op_send_object-Says : (cmd : MtpContainer) → Says D S cmd.transaction_id (op_send_object cmd)
  unfolding op_send_object
  op_send_object-Says cmd = search (receive_upload-Says, handled) depth 60 fits 4000

  move_object-Says :
      (cmd : MtpContainer) (obj : NexusObject) (path : Bytes)
      → Says D S cmd.transaction_id (move_object cmd obj path)
  unfolding move_object
  move_object-Says cmd obj path = search handled depth 40

  pub op_set_object_prop_value-Says :
      (cmd : MtpContainer) → Says D S cmd.transaction_id (op_set_object_prop_value cmd)
  unfolding op_set_object_prop_value
  op_set_object_prop_value-Says cmd = search (move_object-Says, handled) depth 60 fits 4000

  copy_object-Says :
      (cmd : MtpContainer) (obj : NexusObject) (parent : ℕ) (path : Bytes)
      → Says D S cmd.transaction_id (copy_object cmd obj parent path)
  unfolding copy_object
  copy_object-Says cmd obj parent path = search handled depth 60 fits 4000

  pub move_or_copy-Says :
      (is_move : Bool) (cmd : MtpContainer) → Says D S cmd.transaction_id (move_or_copy is_move cmd)
  unfolding move_or_copy
  move_or_copy-Says is_move cmd =
      search (move_object-Says, copy_object-Says, handled) depth 60 fits 4000
