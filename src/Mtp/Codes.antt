-- ===== src/Mtp/Codes.antt =====
-- include/nexus/mtp_types.h: the protocol's numbers that the code uses.
use nx_nexus.Base.{ℕ}

abbrev pub container_command : ℕ
container_command = 1

abbrev pub container_data : ℕ
container_data = 2

abbrev pub container_response : ℕ
container_response = 3

abbrev pub code_get_device_info : ℕ
code_get_device_info = 0x1001

abbrev pub code_open_session : ℕ
code_open_session = 0x1002

abbrev pub code_close_session : ℕ
code_close_session = 0x1003

abbrev pub code_get_storage_ids : ℕ
code_get_storage_ids = 0x1004

abbrev pub code_get_storage_info : ℕ
code_get_storage_info = 0x1005

abbrev pub code_get_num_objects : ℕ
code_get_num_objects = 0x1006

abbrev pub code_get_object_handles : ℕ
code_get_object_handles = 0x1007

abbrev pub code_get_object_info : ℕ
code_get_object_info = 0x1008

abbrev pub code_get_object : ℕ
code_get_object = 0x1009

abbrev pub code_get_thumb : ℕ
code_get_thumb = 0x100A

abbrev pub code_delete_object : ℕ
code_delete_object = 0x100B

abbrev pub code_send_object_info : ℕ
code_send_object_info = 0x100C

abbrev pub code_send_object : ℕ
code_send_object = 0x100D

abbrev pub code_get_device_prop_desc : ℕ
code_get_device_prop_desc = 0x1014

abbrev pub code_get_device_prop_value : ℕ
code_get_device_prop_value = 0x1015

abbrev pub code_move_object : ℕ
code_move_object = 0x1019

abbrev pub code_copy_object : ℕ
code_copy_object = 0x101A

abbrev pub code_get_partial_object : ℕ
code_get_partial_object = 0x101B

abbrev pub code_get_object_props_supported : ℕ
code_get_object_props_supported = 0x9801

abbrev pub code_get_object_prop_desc : ℕ
code_get_object_prop_desc = 0x9802

abbrev pub code_get_object_prop_value : ℕ
code_get_object_prop_value = 0x9803

abbrev pub code_set_object_prop_value : ℕ
code_set_object_prop_value = 0x9804

abbrev pub code_get_object_prop_list : ℕ
code_get_object_prop_list = 0x9805

abbrev pub res_ok : ℕ
res_ok = 0x2001

abbrev pub res_general_error : ℕ
res_general_error = 0x2002

abbrev pub res_session_not_open : ℕ
res_session_not_open = 0x2003

abbrev pub res_operation_not_supported : ℕ
res_operation_not_supported = 0x2005

abbrev pub res_incomplete_transfer : ℕ
res_incomplete_transfer = 0x2007

abbrev pub res_invalid_storage_id : ℕ
res_invalid_storage_id = 0x2008

abbrev pub res_invalid_object_handle : ℕ
res_invalid_object_handle = 0x2009

abbrev pub res_device_prop_not_supported : ℕ
res_device_prop_not_supported = 0x200A

abbrev pub res_store_read_only : ℕ
res_store_read_only = 0x200E

abbrev pub res_access_denied : ℕ
res_access_denied = 0x200F

abbrev pub res_no_thumbnail_present : ℕ
res_no_thumbnail_present = 0x2010

abbrev pub res_store_not_available : ℕ
res_store_not_available = 0x2013

abbrev pub res_spec_by_format_unsupported : ℕ
res_spec_by_format_unsupported = 0x2014

abbrev pub res_no_valid_object_info : ℕ
res_no_valid_object_info = 0x2015

abbrev pub res_invalid_parent_object : ℕ
res_invalid_parent_object = 0x201A

abbrev pub res_invalid_parameter : ℕ
res_invalid_parameter = 0x201D

abbrev pub res_session_already_open : ℕ
res_session_already_open = 0x201E

abbrev pub res_spec_of_destination_unsupported : ℕ
res_spec_of_destination_unsupported = 0x2020

abbrev pub res_invalid_object_prop_value : ℕ
res_invalid_object_prop_value = 0xA803

abbrev pub res_invalid_dataset : ℕ
res_invalid_dataset = 0xA806

abbrev pub res_object_prop_not_supported : ℕ
res_object_prop_not_supported = 0xA80A

abbrev pub event_object_added : ℕ
event_object_added = 0x4002

abbrev pub event_object_removed : ℕ
event_object_removed = 0x4003

abbrev pub event_store_added : ℕ
event_store_added = 0x4004

abbrev pub event_store_removed : ℕ
event_store_removed = 0x4005

abbrev pub format_undefined : ℕ
format_undefined = 0x3000

abbrev pub format_association : ℕ
format_association = 0x3001

abbrev pub format_exif_jpeg : ℕ
format_exif_jpeg = 0x3801

abbrev pub protection_none : ℕ
protection_none = 0x0000

abbrev pub type_u8 : ℕ
type_u8 = 0x0002

abbrev pub type_u16 : ℕ
type_u16 = 0x0004

abbrev pub type_u32 : ℕ
type_u32 = 0x0006

abbrev pub type_u64 : ℕ
type_u64 = 0x0008

abbrev pub type_u128 : ℕ
type_u128 = 0x000A

abbrev pub type_str : ℕ
type_str = 0xFFFF

abbrev pub prop_storage_id : ℕ
prop_storage_id = 0xDC01

abbrev pub prop_object_format : ℕ
prop_object_format = 0xDC02

abbrev pub prop_protection_status : ℕ
prop_protection_status = 0xDC03

abbrev pub prop_object_size : ℕ
prop_object_size = 0xDC04

abbrev pub prop_object_file_name : ℕ
prop_object_file_name = 0xDC07

abbrev pub prop_parent_object : ℕ
prop_parent_object = 0xDC0B

abbrev pub prop_persistent_uid : ℕ
prop_persistent_uid = 0xDC41

abbrev pub prop_name : ℕ
prop_name = 0xDC44

abbrev pub device_battery_level : ℕ
device_battery_level = 0x5001

abbrev pub device_friendly_name : ℕ
device_friendly_name = 0xD402

abbrev pub handle_root : ℕ
handle_root = 0xFFFFFFFF

abbrev pub handle_all : ℕ
handle_all = 0xFFFFFFFF

abbrev pub storage_all : ℕ
storage_all = 0xFFFFFFFF

abbrev pub format_all : ℕ
format_all = 0x00000000

abbrev pub container_header_size : ℕ
container_header_size = 12

abbrev pub max_params : ℕ
max_params = 5
