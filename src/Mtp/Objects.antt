-- ===== src/Mtp/Objects.antt =====
-- Metadata and data of one object: the operations of src/mtp/mtp_ops.c that read.
use nx_nexus.Base.{
  ℕ, zero, suc, ◌+◌, ◌-◌, ◌*◌, ◌%◌, ◌^◌, min, Bool, false, not, ◌&&◌, ◌||◌, List, [], ◌∷◌, Option,
  none, some, ltb, ◌==◌, if◌then◌else◌, length, take, Bytes,
}
use nx_nexus.ObjectDb.{NexusObject}
use nx_nexus.Mtp.Codes.{
  res_ok, res_general_error, res_invalid_object_handle, res_no_thumbnail_present,
  res_invalid_parameter, res_object_prop_not_supported, format_exif_jpeg, protection_none,
  prop_storage_id, prop_object_format, prop_protection_status, prop_object_size,
  prop_object_file_name, prop_parent_object, prop_persistent_uid, prop_name, container_header_size,
}
use nx_nexus.Mtp.Container.{MtpContainer}
use nx_nexus.Mtp.Writer.{MtpWriter, write_u16, write_u32, write_u64, write_u128, write_string}
use nx_nexus.Mtp.Path.{path_basename}
use nx_nexus.Mtp.World.{
  Device, Stores, World, thumbnail_hook, Act, Never, ◌>>=◌, ◌>>◌, pure, return, gets, on_stores,
}
use nx_nexus.Mtp.Transport.{
  payload_buf_size, send_response, respond, send_data, end_packet, stream_begin, stream_chunk,
  note_rate,
}
use nx_nexus.Mtp.Reply.{
  param, reply, reject_if, or_refuse, format_for, stat_or, resolve_handle, payload_writer,
  send_dataset,
}
use nx_nexus.Mtp.Listing.{told_parent}

abbrev pub thumb_dim : ℕ
thumb_dim = 256

abbrev pub thumb_max_bytes : ℕ
thumb_max_bytes = 256 * 1024

-- The ObjectInfo dataset.
unfoldable pub write_object_info :
    (Bytes → ℕ → Option (List ℕ)) → NexusObject → Bool × ℕ → Bool → MtpWriter
write_object_info to_utf16 obj kind has_thumb =
    let w1 =
      write_u16 protection_none
        (write_u16 (format_for kind.0) (write_u32 obj.storage_id payload_writer)) in
    let w2 =
      write_u32
        (if ltb 0xFFFFFFFF kind.1 && ltb kind.1 (2 ^ 63) then 0xFFFFFFFF else kind.1 % 2 ^ 32) w1 in
    let w3 = write_u16 (if has_thumb then format_exif_jpeg else 0) w2 in
    let w4 = write_u32 (if has_thumb then thumb_max_bytes else 0) w3 in
    let w5 =
      write_u32 (if has_thumb then thumb_dim else 0)
        (write_u32 (if has_thumb then thumb_dim else 0) w4) in
    let w6 = write_u32 0 (write_u32 0 (write_u32 0 w5)) in
    let w7 = write_u16 (if kind.0 then 1 else 0) (write_u32 (told_parent obj.parent) w6) in
    let w8 = write_string to_utf16 (path_basename obj.path) (write_u32 0 (write_u32 0 w7)) in
    write_string to_utf16 [] (write_string to_utf16 [] (write_string to_utf16 [] w8))

-- The value of an object property.
unfoldable pub prop_value :
    (Bytes → ℕ → Option (List ℕ)) → ℕ → NexusObject → Bool × ℕ → MtpWriter → Option MtpWriter
prop_value to_utf16 prop obj kind w =
    if prop == prop_storage_id
    then some (write_u32 obj.storage_id w)
    else if prop == prop_object_format
    then some (write_u16 (format_for kind.0) w)
    else if prop == prop_protection_status
    then some (write_u16 protection_none w)
    else if prop == prop_object_size
    then some (write_u64 kind.1 w)
    else if prop == prop_parent_object
    then some (write_u32 (told_parent obj.parent) w)
    else if prop == prop_persistent_uid
    then some (write_u128 obj.handle obj.storage_id w)
    else if (prop == prop_object_file_name) || (prop == prop_name)
    then some (write_string to_utf16 (path_basename obj.path) w)
    else none

module _ {D : Device} {S : Stores} where
  unfoldable pub op_get_object_info : MtpContainer → Act D S Never
  op_get_object_info cmd = do
    reject_if (length cmd.params == 0) cmd res_invalid_parameter
    found ← gets (resolve_handle (param cmd 0))
    obj ← or_refuse cmd found
    now ← on_stores {S = S} (S.stat obj.storage_id obj.path)
    elim now [
      | none ↦ reply cmd res_invalid_object_handle
      | some kind ↦ do
        has_thumb ←
            gets (λ (w : World D S). S.has thumbnail_hook obj.storage_id w.stores && obj.is_dir)
        send_dataset cmd (write_object_info D.to_utf16 obj kind has_thumb)
    ]

  unfoldable pub op_get_thumb : MtpContainer → Act D S Never
  op_get_thumb cmd = do
    reject_if (length cmd.params == 0) cmd res_invalid_parameter
    found ← gets (resolve_handle (param cmd 0))
    obj ← or_refuse cmd found
    can ← gets (λ (w : World D S). S.has thumbnail_hook obj.storage_id w.stores)
    reject_if (not can) cmd res_no_thumbnail_present
    picture ← on_stores {S = S} (S.thumbnail obj.storage_id obj.path thumb_max_bytes)
    elim picture [
      | none ↦ reply cmd res_no_thumbnail_present
      | some bytes ↦ do
        reject_if (length bytes == 0) cmd res_no_thumbnail_present
        send_data cmd.code cmd.transaction_id (take thumb_max_bytes bytes)
        reply cmd res_ok
    ]

  -- `n` bytes of an object; the store gives at most what it is asked for.
  unfoldable pub read_object : NexusObject → ℕ → ℕ → Act D S (Option Bytes)
  read_object obj offset n = do
    got ← on_stores {S = S} (S.read obj.storage_id obj.path offset n)
    elim got [ none ↦ pure none | some bytes ↦ pure (some (take n bytes)) ]

  -- The loop of `send_object_range`: what was sent, and what `g_stream_sent` holds.
  unfoldable pub range_chunks : ℕ → NexusObject → ℕ → ℕ → ℕ → ℕ → Act D S (ℕ × ℕ)
  range_chunks zero obj offset size sent stream_sent = pure (sent, stream_sent)
  range_chunks (suc fuel) obj offset size sent stream_sent =
      if not (ltb sent size) then pure (sent, stream_sent) else (do
        got ← read_object obj ((offset + sent) % 2 ^ 64) (min (size - sent) payload_buf_size)
        elim got [
          | none ↦ pure (sent, stream_sent)
          | some bytes ↦ if length bytes == 0 then pure (sent, stream_sent) else (do
            stream ← stream_chunk stream_sent bytes
            range_chunks fuel obj offset size (sent + length bytes) stream)
        ])

  -- The data block, once its first bytes are there; what was sent of the object.
  unfoldable pub stream_range : MtpContainer → NexusObject → ℕ → ℕ → Bytes → Act D S ℕ
  stream_range cmd obj offset size first = do
    let got = length first
    let first_len = min size (payload_buf_size - container_header_size)
    let total = if (got == first_len) && ltb first_len size then size else got
    begun ← stream_begin cmd.code cmd.transaction_id total first
    out ← range_chunks (size - got) obj offset size got begun
    end_packet out.1
    note_rate out.0
    pure (if ltb 0xFFFFFFFF out.0 then 0xFFFFFFFF else out.0)

  -- `send_object_range`, with `if (R_FAILED(rc)) return rc;`. When the first read fails, a response is
  -- sent here, and the caller goes on.
  unfoldable pub send_object_range : MtpContainer → NexusObject → ℕ → ℕ → Act D S ℕ
  send_object_range cmd obj offset size = do
    let first_len = min size (payload_buf_size - container_header_size)
    if first_len == 0 then stream_range cmd obj offset size [] else (do
      got ← read_object obj offset first_len
      elim got [
        | some first ↦ stream_range cmd obj offset size first
        | none ↦ do
          answered ← send_response cmd.transaction_id res_general_error []
          if answered then pure 0 else return false
      ])

  unfoldable pub op_get_object : MtpContainer → Act D S Never
  op_get_object cmd = do
    reject_if (length cmd.params == 0) cmd res_invalid_parameter
    found ← gets (resolve_handle (param cmd 0))
    obj ← or_refuse cmd found
    reject_if obj.is_dir cmd res_invalid_object_handle
    now ← on_stores {S = S} (S.stat obj.storage_id obj.path)
    elim now [
      | none ↦ reply cmd res_invalid_object_handle
      | some kind ↦ do send_object_range cmd obj 0 kind.1 >>= λ _. reply cmd res_ok
    ]

  unfoldable pub op_get_partial_object : MtpContainer → Act D S Never
  op_get_partial_object cmd = do
    reject_if (ltb (length cmd.params) 3) cmd res_invalid_parameter
    found ← gets (resolve_handle (param cmd 0))
    obj ← or_refuse cmd found
    reject_if obj.is_dir cmd res_invalid_object_handle
    actual ← send_object_range cmd obj (param cmd 1) (param cmd 2)
    respond cmd.transaction_id res_ok (actual ∷ [])

  unfoldable pub op_get_object_prop_value : MtpContainer → Act D S Never
  op_get_object_prop_value cmd = do
    reject_if (ltb (length cmd.params) 2) cmd res_invalid_parameter
    found ← gets (resolve_handle (param cmd 0))
    obj ← or_refuse cmd found
    now ← on_stores {S = S} (S.stat obj.storage_id obj.path)
    written ← pure (prop_value D.to_utf16 (param cmd 1) obj (stat_or obj now) payload_writer)
    elim written [ none ↦ reply cmd res_object_prop_not_supported | some w ↦ send_dataset cmd w ]
