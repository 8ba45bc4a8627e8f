-- ===== src/Mtp/About.antt =====
-- The operations of src/mtp/mtp_ops.c on the device and on the properties it has.
use nx_nexus.Base.{
  ℕ, ◌%◌, ◌^◌, Bool, true, false, List, [], ◌∷◌, Option, none, some, ◌==◌, if◌then◌else◌, length,
  Bytes,
}
use nx_nexus.Mtp.Codes.{
  code_get_device_info, code_open_session, code_close_session, code_get_storage_ids,
  code_get_storage_info, code_get_num_objects, code_get_object_handles, code_get_object_info,
  code_get_object, code_get_thumb, code_delete_object, code_send_object_info, code_send_object,
  code_get_device_prop_desc, code_get_device_prop_value, code_move_object, code_copy_object,
  code_get_partial_object, code_get_object_props_supported, code_get_object_prop_desc,
  code_get_object_prop_value, code_set_object_prop_value, code_get_object_prop_list,
  res_device_prop_not_supported, res_invalid_parameter, res_object_prop_not_supported,
  event_object_added, event_object_removed, event_store_added, event_store_removed,
  format_undefined, format_association, type_u8, type_u16, type_u32, type_u64, type_u128, type_str,
  prop_storage_id, prop_object_format, prop_protection_status, prop_object_size,
  prop_object_file_name, prop_parent_object, prop_persistent_uid, prop_name, device_battery_level,
  device_friendly_name,
}
use nx_nexus.Mtp.Container.{MtpContainer}
use nx_nexus.Mtp.Writer.{
  MtpWriter, write_u8, write_u16, write_u32, write_u64, write_u128, write_u16_array, write_string,
}
use nx_nexus.Mtp.World.{World, Device, Stores, Act, Never, ◌>>=◌, ◌>>◌, gets, pure}
use nx_nexus.Mtp.Reply.{param, reply, reject_if, payload_writer, send_dataset}

abbrev pub standard_version : ℕ
standard_version = 100

abbrev pub vendor_extension_id : ℕ
vendor_extension_id = 0x00000006

abbrev pub vendor_extension_ver : ℕ
vendor_extension_ver = 100

abbrev pub vendor_extension_desc : Bytes
vendor_extension_desc =
    b'm' ∷ b'i' ∷ b'c' ∷ b'r' ∷ b'o' ∷ b's' ∷ b'o' ∷ b'f' ∷ b't' ∷ b'.' ∷ b'c' ∷ b'o' ∷ b'm' ∷ b':'
    ∷ b' ' ∷ b'1' ∷ b'.' ∷ b'0' ∷ b';' ∷ []

abbrev pub product_name : Bytes
product_name = b'N' ∷ b'X' ∷ b'-' ∷ b'N' ∷ b'e' ∷ b'x' ∷ b'u' ∷ b's' ∷ []

abbrev pub device_name : Bytes
device_name =
    b'N' ∷ b'i' ∷ b'n' ∷ b't' ∷ b'e' ∷ b'n' ∷ b'd' ∷ b'o' ∷ b' ' ∷ b'S' ∷ b'w' ∷ b'i' ∷ b't' ∷ b'c'
    ∷ b'h' ∷ []

abbrev pub device_version : Bytes
device_version = b'0' ∷ b'.' ∷ b'1' ∷ b'.' ∷ b'0' ∷ []

abbrev pub serial_number : Bytes
serial_number =
    b'0' ∷ b'0' ∷ b'0' ∷ b'0' ∷ b'0' ∷ b'0' ∷ b'0' ∷ b'0' ∷ b'0' ∷ b'0' ∷ b'0' ∷ b'0' ∷ b'0' ∷ b'0'
    ∷ b'0' ∷ b'1' ∷ []

abbrev pub supported_ops : List ℕ
supported_ops =
    code_get_device_info ∷ code_open_session ∷ code_close_session ∷ code_get_storage_ids
    ∷ code_get_storage_info ∷ code_get_num_objects ∷ code_get_object_handles ∷ code_get_object_info
    ∷ code_get_object ∷ code_get_thumb ∷ code_get_partial_object ∷ code_delete_object
    ∷ code_send_object_info ∷ code_send_object ∷ code_get_device_prop_desc
    ∷ code_get_device_prop_value ∷ code_get_object_props_supported ∷ code_get_object_prop_desc
    ∷ code_get_object_prop_value ∷ code_set_object_prop_value ∷ code_get_object_prop_list
    ∷ code_move_object ∷ code_copy_object ∷ []

abbrev pub supported_events : List ℕ
supported_events =
    event_object_added ∷ event_object_removed ∷ event_store_added ∷ event_store_removed ∷ []

abbrev pub supported_device_props : List ℕ
supported_device_props = device_friendly_name ∷ device_battery_level ∷ []

abbrev pub supported_object_props : List ℕ
supported_object_props =
    prop_storage_id ∷ prop_object_format ∷ prop_protection_status ∷ prop_object_size
    ∷ prop_object_file_name ∷ prop_parent_object ∷ prop_persistent_uid ∷ prop_name ∷ []

abbrev pub image_formats : List ℕ
image_formats = format_undefined ∷ format_association ∷ []

-- The type of an object property, and whether it can be written.
unfoldable pub prop_type : ℕ → Option (ℕ × Bool)
prop_type prop =
    if prop == prop_storage_id
    then some (type_u32, false)
    else if prop == prop_object_format
    then some (type_u16, false)
    else if prop == prop_protection_status
    then some (type_u16, false)
    else if prop == prop_object_size
    then some (type_u64, false)
    else if prop == prop_parent_object
    then some (type_u32, false)
    else if prop == prop_persistent_uid
    then some (type_u128, false)
    else if prop == prop_object_file_name
    then some (type_str, true)
    else if prop == prop_name
    then some (type_str, false)
    else none

-- The default value of a type; that of a string is the empty one.
unfoldable pub write_default : ℕ → MtpWriter → MtpWriter
write_default kind w =
    if kind == type_str
    then write_u8 0 w
    else if kind == type_u128
    then write_u128 0 0 w
    else if kind == type_u64
    then write_u64 0 w
    else if kind == type_u32
    then write_u32 0 w
    else write_u16 0 w

module _ {D : Device} {S : Stores} where
  unfoldable pub op_get_device_info : MtpContainer → Act D S Never
  op_get_device_info cmd =
      let w1 =
        write_u16 vendor_extension_ver
          (write_u32 vendor_extension_id (write_u16 standard_version payload_writer)) in
      let w2 = write_u16 0 (write_string D.to_utf16 vendor_extension_desc w1) in
      let w3 =
        write_u16_array supported_device_props
          (write_u16_array supported_events (write_u16_array supported_ops w2)) in
      let w4 = write_u16_array image_formats (write_u16_array [] w3) in
      let w5 = write_string D.to_utf16 device_name (write_string D.to_utf16 product_name w4) in
      send_dataset cmd
        (write_string D.to_utf16 serial_number (write_string D.to_utf16 device_version w5))

  unfoldable pub op_get_object_props_supported : MtpContainer → Act D S Never
  op_get_object_props_supported cmd =
      send_dataset cmd (write_u16_array supported_object_props payload_writer)

  unfoldable pub op_get_object_prop_desc : MtpContainer → Act D S Never
  op_get_object_prop_desc cmd = do
    let prop = param cmd 0 % 2 ^ 16
    reject_if (length cmd.params == 0) cmd res_invalid_parameter
    kind ← pure (prop_type prop)
    elim kind [
      | none ↦ reply cmd res_object_prop_not_supported
      | some kind ↦
          let w =
            write_u8 (if kind.1 then 1 else 0) (write_u16 kind.0 (write_u16 prop payload_writer)) in
          send_dataset cmd (write_u8 0 (write_u32 0 (write_default kind.0 w)))
    ]

  unfoldable pub op_get_device_prop_value : MtpContainer → Act D S Never
  op_get_device_prop_value cmd = do
    reject_if (length cmd.params == 0) cmd res_invalid_parameter
    charge ← gets (λ (w : World D S). D.charge w.device)
    if param cmd 0 == device_friendly_name
        then send_dataset cmd (write_string D.to_utf16 product_name payload_writer)
        else if param cmd 0 == device_battery_level
        then send_dataset cmd
            (write_u8 (elim charge [ some percent ↦ percent | none ↦ 100 ]) payload_writer)
        else reply cmd res_device_prop_not_supported

  unfoldable pub op_get_device_prop_desc : MtpContainer → Act D S Never
  op_get_device_prop_desc cmd = do
    let prop = param cmd 0 % 2 ^ 16
    reject_if (length cmd.params == 0) cmd res_invalid_parameter
    if prop == device_friendly_name
        then (let w1 = write_u8 0 (write_u16 type_str (write_u16 prop payload_writer)) in
            let w2 =
              write_string D.to_utf16 product_name (write_string D.to_utf16 product_name w1) in
            send_dataset cmd (write_u8 0 w2))
        else if prop == device_battery_level
        then (let w1 = write_u8 0 (write_u16 type_u8 (write_u16 prop payload_writer)) in
            let w2 = write_u8 1 (write_u8 100 (write_u8 100 w1)) in
            send_dataset cmd (write_u8 1 (write_u8 100 (write_u8 0 w2))))
        else reply cmd res_device_prop_not_supported
