-- ===== src/Mtp/Ordinary.antt =====
-- Each ordinary handler of src/mtp/mtp_ops.c keeps a predicate that bears what it does.
use nx_nexus.Base.{ℕ, zero, suc, Bool, List, Bytes}
use nx_nexus.ObjectDb.{NexusObject}
use nx_nexus.Mtp.Container.{MtpContainer}
use nx_nexus.Mtp.Writer.{MtpWriter}
use nx_nexus.Mtp.Names.{IsChild, path_join-IsChild, path_with_new_name-IsChild}
use nx_nexus.Mtp.World.{Device, Stores, World, MtpServerStats, Act, modify_stats}
use nx_nexus.Mtp.Transport.{
  send_response, send_data, end_packet, recv_to_payload, recv_streamed, note_rate, stream_begin,
  stream_chunk,
}
use nx_nexus.Mtp.Reply.{Resolved, resolved, refused, or_refuse, send_dataset}
use nx_nexus.Mtp.About.{
  op_get_device_info, op_get_object_props_supported, op_get_object_prop_desc,
  op_get_device_prop_value, op_get_device_prop_desc,
}
use nx_nexus.Mtp.Session.{op_get_storage_ids, op_get_storage_info}
use nx_nexus.Mtp.Listing.{
  prop_list_of, op_get_object_handles, op_get_num_objects, op_get_object_prop_list,
}
use nx_nexus.Mtp.Objects.{
  op_get_object_info, op_get_thumb, read_object, range_chunks, stream_range, send_object_range,
  op_get_object, op_get_partial_object, op_get_object_prop_value,
}
use nx_nexus.Mtp.Upload.{make_folder}
use nx_nexus.Mtp.Edit.{
  op_delete_object, move_object, op_set_object_prop_value, copy_object, move_or_copy,
}
use nx_nexus.Mtp.Keeps
use nx_nexus.Mtp.Keeps.{Keeps, steps, computed-Keeps, bind-Keeps, return-Keeps, pure-Keeps}
use nx_nexus.Mtp.Bears.{
  Bears, modify_db-Bears, on_db-Bears, refreshes-Bears, opens-Bears, informs-Bears, lists-Bears,
  looks-Bears, reads-Bears, pictures-Bears, makes-Bears, removes-Bears, moves-Bears, copies-Bears,
}

module _ {D : Device} {S : Stores} {P : World D S → Type 0} (b : Bears P) where
  pub modify_stats-Ordinary : (f : MtpServerStats → MtpServerStats) → Keeps P (modify_stats f)
  modify_stats-Ordinary = Keeps.modify_stats-Keeps P (b.device) (b.stats)

  pub send_response-Ordinary :
      (t code : ℕ) (params : List ℕ) → Keeps P (send_response t code params)
  send_response-Ordinary = Keeps.send_response-Keeps P (b.device) (b.stats)

  pub send_data-Ordinary : (code t : ℕ) (payload : Bytes) → Keeps P (send_data code t payload)
  send_data-Ordinary = Keeps.send_data-Keeps P (b.device) (b.stats)

  pub end_packet-Ordinary : (total : ℕ) → Keeps P (end_packet total)
  end_packet-Ordinary = Keeps.end_packet-Keeps P (b.device) (b.stats)

  pub recv_to_payload-Ordinary : Keeps P recv_to_payload
  recv_to_payload-Ordinary = Keeps.recv_to_payload-Keeps P (b.device) (b.stats)

  pub note_rate-Ordinary : (n : ℕ) → Keeps P (note_rate n)
  note_rate-Ordinary = Keeps.note_rate-Keeps P (b.device) (b.stats)

  pub stream_begin-Ordinary :
      (code t total : ℕ) (first : Bytes) → Keeps P (stream_begin code t total first)
  stream_begin-Ordinary = Keeps.stream_begin-Keeps P (b.device) (b.stats)

  pub stream_chunk-Ordinary : (sent : ℕ) (bytes : Bytes) → Keeps P (stream_chunk sent bytes)
  stream_chunk-Ordinary = Keeps.stream_chunk-Keeps P (b.device) (b.stats)

  pub recv_streamed-Ordinary :
      (sink : Bytes → Act D S Bool)
      → ((chunk : Bytes) → Keeps P (sink chunk))
      → Keeps P (recv_streamed sink)
  recv_streamed-Ordinary = Keeps.recv_streamed-Keeps P (b.device) (b.stats)

  pub refuse-Ordinary :
      {A : Type 0} (cmd : MtpContainer) (r : Resolved A) → Keeps P (or_refuse cmd r)
  refuse-Ordinary cmd (resolved a) = pure-Keeps a
  refuse-Ordinary cmd (refused code) = bind-Keeps _ _ (send_response-Ordinary _ _ _) return-Keeps

  pub ruleset ordinary = (
    computed-Keeps, modify_stats-Ordinary, send_response-Ordinary, send_data-Ordinary,
    end_packet-Ordinary, recv_to_payload-Ordinary, note_rate-Ordinary, stream_begin-Ordinary,
    stream_chunk-Ordinary, refuse-Ordinary, modify_db-Bears, on_db-Bears, refreshes-Bears,
    opens-Bears, informs-Bears, lists-Bears, looks-Bears, reads-Bears, pictures-Bears, makes-Bears,
    removes-Bears, moves-Bears, copies-Bears, steps, path_join-IsChild, path_with_new_name-IsChild,
  )

  pub send_dataset-Ordinary : (cmd : MtpContainer) (w : MtpWriter) → Keeps P (send_dataset cmd w)
  unfolding send_dataset
  send_dataset-Ordinary cmd w = search ordinary depth 20

  pub op_get_device_info-Ordinary : (cmd : MtpContainer) → Keeps P (op_get_device_info cmd)
  unfolding op_get_device_info
  op_get_device_info-Ordinary cmd = search (send_dataset-Ordinary, ordinary) depth 60 fits 4000

  pub op_get_object_props_supported-Ordinary :
      (cmd : MtpContainer) → Keeps P (op_get_object_props_supported cmd)
  unfolding op_get_object_props_supported
  op_get_object_props_supported-Ordinary cmd =
      search (send_dataset-Ordinary, ordinary) depth 60 fits 4000

  pub op_get_object_prop_desc-Ordinary :
      (cmd : MtpContainer) → Keeps P (op_get_object_prop_desc cmd)
  unfolding op_get_object_prop_desc
  op_get_object_prop_desc-Ordinary cmd = search (send_dataset-Ordinary, ordinary) depth 60 fits 4000

  pub op_get_device_prop_value-Ordinary :
      (cmd : MtpContainer) → Keeps P (op_get_device_prop_value cmd)
  unfolding op_get_device_prop_value
  op_get_device_prop_value-Ordinary cmd =
      search (send_dataset-Ordinary, ordinary) depth 60 fits 4000

  pub op_get_device_prop_desc-Ordinary :
      (cmd : MtpContainer) → Keeps P (op_get_device_prop_desc cmd)
  unfolding op_get_device_prop_desc
  op_get_device_prop_desc-Ordinary cmd = search (send_dataset-Ordinary, ordinary) depth 60 fits 4000

  pub op_get_storage_ids-Ordinary : (cmd : MtpContainer) → Keeps P (op_get_storage_ids cmd)
  unfolding op_get_storage_ids
  op_get_storage_ids-Ordinary cmd = search (send_dataset-Ordinary, ordinary) depth 60 fits 4000

  pub op_get_storage_info-Ordinary : (cmd : MtpContainer) → Keeps P (op_get_storage_info cmd)
  unfolding op_get_storage_info
  op_get_storage_info-Ordinary cmd = search (send_dataset-Ordinary, ordinary) depth 60 fits 4000

  pub op_get_object_handles-Ordinary : (cmd : MtpContainer) → Keeps P (op_get_object_handles cmd)
  unfolding op_get_object_handles
  op_get_object_handles-Ordinary cmd = search ordinary depth 60 fits 4000

  pub op_get_num_objects-Ordinary : (cmd : MtpContainer) → Keeps P (op_get_num_objects cmd)
  unfolding op_get_num_objects
  op_get_num_objects-Ordinary cmd = search ordinary depth 60 fits 4000

  pub op_get_object_info-Ordinary : (cmd : MtpContainer) → Keeps P (op_get_object_info cmd)
  unfolding op_get_object_info
  op_get_object_info-Ordinary cmd = search (send_dataset-Ordinary, ordinary) depth 60 fits 4000

  pub op_get_thumb-Ordinary : (cmd : MtpContainer) → Keeps P (op_get_thumb cmd)
  unfolding op_get_thumb
  op_get_thumb-Ordinary cmd = search ordinary depth 60 fits 4000

  pub op_get_object_prop_value-Ordinary :
      (cmd : MtpContainer) → Keeps P (op_get_object_prop_value cmd)
  unfolding op_get_object_prop_value
  op_get_object_prop_value-Ordinary cmd =
      search (send_dataset-Ordinary, ordinary) depth 60 fits 4000

  pub op_delete_object-Ordinary : (cmd : MtpContainer) → Keeps P (op_delete_object cmd)
  unfolding op_delete_object
  op_delete_object-Ordinary cmd = search ordinary depth 60 fits 4000

  pub prop_list_of-Ordinary :
      (cmd : MtpContainer) (obj : NexusObject) → Keeps P (prop_list_of cmd obj)
  unfolding prop_list_of
  prop_list_of-Ordinary cmd obj = search ordinary depth 60 fits 4000

  pub op_get_object_prop_list-Ordinary :
      (cmd : MtpContainer) → Keeps P (op_get_object_prop_list cmd)
  unfolding op_get_object_prop_list
  op_get_object_prop_list-Ordinary cmd = search (prop_list_of-Ordinary, ordinary) depth 60 fits 4000

  pub make_folder-Ordinary :
      (cmd : MtpContainer) (id parent : ℕ) (path : Bytes)
      → IsChild path
      → Keeps P (make_folder cmd id parent path)
  unfolding make_folder
  make_folder-Ordinary cmd id parent path child = search ordinary depth 60 fits 4000

  pub move_object-Ordinary :
      (cmd : MtpContainer) (obj : NexusObject) (path : Bytes)
      → IsChild path
      → Keeps P (move_object cmd obj path)
  unfolding move_object
  move_object-Ordinary cmd obj path child = search ordinary depth 60 fits 4000

  pub copy_object-Ordinary :
      (cmd : MtpContainer) (obj : NexusObject) (parent : ℕ) (path : Bytes)
      → IsChild path
      → Keeps P (copy_object cmd obj parent path)
  unfolding copy_object
  copy_object-Ordinary cmd obj parent path child = search ordinary depth 60 fits 4000

  pub move_or_copy-Ordinary :
      (is_move : Bool) (cmd : MtpContainer) → Keeps P (move_or_copy is_move cmd)
  unfolding move_or_copy
  move_or_copy-Ordinary is_move cmd =
      search (move_object-Ordinary, copy_object-Ordinary, ordinary) depth 60 fits 4000

  pub op_set_object_prop_value-Ordinary :
      (cmd : MtpContainer) → Keeps P (op_set_object_prop_value cmd)
  unfolding op_set_object_prop_value
  op_set_object_prop_value-Ordinary cmd = search (move_object-Ordinary, ordinary) depth 60 fits 4000

  pub read_object-Ordinary : (obj : NexusObject) (offset n : ℕ) → Keeps P (read_object obj offset n)
  unfolding read_object
  read_object-Ordinary obj offset n = search ordinary depth 60 fits 4000

  range_chunks-Ordinary :
      (fuel : ℕ) (obj : NexusObject) (offset size sent stream : ℕ)
      → Keeps P (range_chunks fuel obj offset size sent stream)
  unfolding range_chunks
  range_chunks-Ordinary zero obj offset size sent stream = search ordinary
  range_chunks-Ordinary (suc fuel) obj offset size sent stream =
      search (range_chunks-Ordinary fuel, read_object-Ordinary, ordinary) depth 20

  pub stream_range-Ordinary :
      (cmd : MtpContainer) (obj : NexusObject) (offset size : ℕ) (first : Bytes)
      → Keeps P (stream_range cmd obj offset size first)
  unfolding stream_range
  stream_range-Ordinary cmd obj offset size first =
      search (range_chunks-Ordinary, ordinary) depth 60 fits 4000

  pub send_object_range-Ordinary :
      (cmd : MtpContainer) (obj : NexusObject) (offset size : ℕ)
      → Keeps P (send_object_range cmd obj offset size)
  unfolding send_object_range
  send_object_range-Ordinary cmd obj offset size =
      search (stream_range-Ordinary, read_object-Ordinary, ordinary) depth 60 fits 4000

  pub op_get_object-Ordinary : (cmd : MtpContainer) → Keeps P (op_get_object cmd)
  unfolding op_get_object
  op_get_object-Ordinary cmd = search (send_object_range-Ordinary, ordinary) depth 60 fits 4000

  pub op_get_partial_object-Ordinary : (cmd : MtpContainer) → Keeps P (op_get_partial_object cmd)
  unfolding op_get_partial_object
  op_get_partial_object-Ordinary cmd =
      search (send_object_range-Ordinary, ordinary) depth 60 fits 4000
