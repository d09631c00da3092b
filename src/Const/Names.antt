-- ===== src/Const/Names.antt =====
-- The enumerations of const.py. A member is a constructor, its wire value a function by clauses,
-- and a `VALUE_TO_*` table is the dict comprehension over the members.
use yalexs_ble.Prelude.{ℕ, Bool, Option, none, some, List, [], ◌∷◌, ◌++◌, any, ◌==◌, if◌then◌else◌}

abbrev pub apple_mfr_id : ℕ
apple_mfr_id = 76

abbrev pub yale_mfr_id : ℕ
yale_mfr_id = 465

abbrev pub assa_abloy_mfr_id : ℕ
assa_abloy_mfr_id = 302

abbrev pub yale_mfr_ids : List ℕ
yale_mfr_ids = yale_mfr_id ∷ assa_abloy_mfr_id ∷ []

abbrev pub hap_first_byte : ℕ
hap_first_byte = 0x06

abbrev pub hap_encrypted_first_byte : ℕ
hap_encrypted_first_byte = 0x11

abbrev pub response_frame_len : ℕ
response_frame_len = 0x12

pub data Commands : Type 0 where
  getstatus writesetting readsetting unlock lock keycode_set keycode_clear : Commands
  keycode_access keycode_commit lock_activity keycode_get : Commands

abbrev pub command_value : Commands → ℕ
command_value getstatus = 0x02
command_value writesetting = 0x03
command_value readsetting = 0x04
command_value unlock = 0x0A
command_value lock = 0x0B
command_value keycode_set = 0x27
command_value keycode_clear = 0x28
command_value keycode_access = 0x2B
command_value keycode_commit = 0x2C
command_value lock_activity = 0x2D
command_value keycode_get = 0x39

-- `{x.value: x for x in members}.get(n)`; the values of an enumeration differ.
abbrev pub from_value {ℓ} : {A : Type ℓ} → (A → ℕ) → List A → ℕ → Option A
from_value value [] n = none
from_value value (x ∷ xs) n = if value x == n then some x else from_value value xs n

pub data OperationError : Type 0 where
  comm_success param_not_paired param_not_readable wrong_key keycode_disable : OperationError
  keycode_invalid_access keycode_existing_key keycode_nospace keycode_timeout : OperationError
  keycode_dis_onetouch rfid_existing_id fingerprint_existing_id palm_existing_id : OperationError
  mech_timeout mech_position mech_motpol mech_timeout_cal mech_backoff : OperationError
  mech_handle_not_lifted empty_log reading_log vbat_low overtemp mag_read : OperationError
  mag_bad_data invalid_operation not_authorized no_bufs invalid_msg nack : OperationError
  unknown uninitialized busy not_found ssid_is_5ghz dhcp_failure dns_failure : OperationError
  cal_bad_extents cal_bad_angle keycode_slot_in_use ext_timeout : OperationError

abbrev pub operation_error_value : OperationError → ℕ
operation_error_value comm_success = 0x00
operation_error_value param_not_paired = 0x01
operation_error_value param_not_readable = 0x02
operation_error_value wrong_key = 0x03
operation_error_value keycode_disable = 0x04
operation_error_value keycode_invalid_access = 0x05
operation_error_value keycode_existing_key = 0x06
operation_error_value keycode_nospace = 0x07
operation_error_value keycode_timeout = 0x08
operation_error_value keycode_dis_onetouch = 0x09
operation_error_value rfid_existing_id = 0x0A
operation_error_value fingerprint_existing_id = 0x0B
operation_error_value palm_existing_id = 0x0D
operation_error_value mech_timeout = 0x1E
operation_error_value mech_position = 0x1F
operation_error_value mech_motpol = 0x20
operation_error_value mech_timeout_cal = 0x21
operation_error_value mech_backoff = 0x22
operation_error_value mech_handle_not_lifted = 0x23
operation_error_value empty_log = 0x28
operation_error_value reading_log = 0x29
operation_error_value vbat_low = 0x32
operation_error_value overtemp = 0x33
operation_error_value mag_read = 0x34
operation_error_value mag_bad_data = 0x35
operation_error_value invalid_operation = 0x37
operation_error_value not_authorized = 0x38
operation_error_value no_bufs = 0x39
operation_error_value invalid_msg = 0x3A
operation_error_value nack = 0x3B
operation_error_value unknown = 0x3C
operation_error_value uninitialized = 0x3D
operation_error_value busy = 0x3E
operation_error_value not_found = 0x3F
operation_error_value ssid_is_5ghz = 0x40
operation_error_value dhcp_failure = 0x41
operation_error_value dns_failure = 0x42
operation_error_value cal_bad_extents = 0x43
operation_error_value cal_bad_angle = 0x44
operation_error_value keycode_slot_in_use = 0x45
operation_error_value ext_timeout = 0x46

abbrev pub operation_errors : List OperationError
operation_errors =
    comm_success ∷ param_not_paired ∷ param_not_readable ∷ wrong_key ∷ keycode_disable
    ∷ keycode_invalid_access ∷ keycode_existing_key ∷ keycode_nospace ∷ keycode_timeout
    ∷ keycode_dis_onetouch ∷ rfid_existing_id ∷ fingerprint_existing_id ∷ palm_existing_id
    ∷ mech_timeout ∷ mech_position ∷ mech_motpol ∷ mech_timeout_cal ∷ mech_backoff
    ∷ mech_handle_not_lifted ∷ empty_log ∷ reading_log ∷ vbat_low ∷ overtemp ∷ mag_read
    ∷ mag_bad_data ∷ invalid_operation ∷ not_authorized ∷ no_bufs ∷ invalid_msg ∷ nack ∷ unknown
    ∷ uninitialized ∷ busy ∷ not_found ∷ ssid_is_5ghz ∷ dhcp_failure ∷ dns_failure ∷ cal_bad_extents
    ∷ cal_bad_angle ∷ keycode_slot_in_use ∷ ext_timeout ∷ []

-- `VALUE_TO_OPERATION_ERROR`
unfoldable pub value_to_operation_error : ℕ → Option OperationError
value_to_operation_error = from_value operation_error_value operation_errors

-- `MECHANICAL_OPERATION_ERRORS`, by value: the code tests a wire byte against these IntEnum members.
abbrev pub mechanical_operation_errors : List ℕ
mechanical_operation_errors = 0x1E ∷ 0x1F ∷ 0x20 ∷ 0x21 ∷ 0x22 ∷ 0x23 ∷ []

abbrev pub status_type_lock_only : ℕ
status_type_lock_only = 0x02

abbrev pub status_type_door_only : ℕ
status_type_door_only = 0x2E

abbrev pub status_type_door_and_lock : ℕ
status_type_door_and_lock = 0x2F

abbrev pub status_type_battery : ℕ
status_type_battery = 0x0F

-- `SettingType.AUTOLOCK`
abbrev pub setting_type_autolock : ℕ
setting_type_autolock = 0x28

pub data LockStatus : Type 0 where
  unknown unknown_01 unlocking unlocked locking locked unknown_06 jammed : LockStatus
  unlatching unlatched securemode : LockStatus

abbrev pub lock_status_value : LockStatus → ℕ
lock_status_value LockStatus.unknown = 0x00
lock_status_value unknown_01 = 0x01
lock_status_value unlocking = 0x02
lock_status_value unlocked = 0x03
lock_status_value locking = 0x04
lock_status_value locked = 0x05
lock_status_value unknown_06 = 0x06
lock_status_value jammed = 0x07
lock_status_value unlatching = 0x09
lock_status_value unlatched = 0x0A
lock_status_value securemode = 0x0C

abbrev pub lock_statuses : List LockStatus
lock_statuses =
    LockStatus.unknown ∷ unknown_01 ∷ unlocking ∷ unlocked ∷ locking ∷ locked ∷ unknown_06 ∷ jammed
    ∷ unlatching ∷ unlatched ∷ securemode ∷ []

-- `VALUE_TO_LOCK_STATUS`
unfoldable pub value_to_lock_status : ℕ → Option LockStatus
value_to_lock_status = from_value lock_status_value lock_statuses

-- `a == b` on members of the enumeration, whose values differ.
abbrev pub lock_status_eq : LockStatus → LockStatus → Bool
lock_status_eq a b = lock_status_value a == lock_status_value b

-- `s in xs` for a set of statuses.
abbrev pub status_in : LockStatus → List LockStatus → Bool
status_in s xs = any (lock_status_eq s) xs

abbrev pub setup_condition_statuses : List LockStatus
setup_condition_statuses = unknown_01 ∷ unknown_06 ∷ []

abbrev pub manual_intervention_statuses : List LockStatus
manual_intervention_statuses = setup_condition_statuses ++ (jammed ∷ [])

pub data DoorStatus : Type 0 where
  unknown closed ajar opened unknown_04 : DoorStatus

abbrev pub door_status_value : DoorStatus → ℕ
door_status_value DoorStatus.unknown = 0x00
door_status_value closed = 0x01
door_status_value ajar = 0x02
door_status_value opened = 0x03
door_status_value unknown_04 = 0x04

abbrev pub door_statuses : List DoorStatus
door_statuses = DoorStatus.unknown ∷ closed ∷ ajar ∷ opened ∷ unknown_04 ∷ []

-- `VALUE_TO_DOOR_STATUS`
unfoldable pub value_to_door_status : ℕ → Option DoorStatus
value_to_door_status = from_value door_status_value door_statuses

pub data AutoLockMode : Type 0 where
  instant timer off : AutoLockMode

abbrev pub auto_lock_mode_value : AutoLockMode → ℕ
auto_lock_mode_value instant = 0
auto_lock_mode_value timer = 1
auto_lock_mode_value off = 2

pub data LockActivityType : Type 0 where
  lock keypad_unlock door pin no_activity : LockActivityType

abbrev pub lock_activity_type_value : LockActivityType → ℕ
lock_activity_type_value LockActivityType.lock = 0x00
lock_activity_type_value keypad_unlock = 0x07
lock_activity_type_value door = 0x20
lock_activity_type_value pin = 0x0E
lock_activity_type_value no_activity = 0x80

pub data LockOperationSource : Type 0 where
  remote manual auto_lock pin unknown : LockOperationSource

abbrev pub lock_operation_source_value : LockOperationSource → ℕ
lock_operation_source_value remote = 0x00
lock_operation_source_value manual = 0x01
lock_operation_source_value auto_lock = 0x05
lock_operation_source_value LockOperationSource.pin = 0x0B
lock_operation_source_value LockOperationSource.unknown = 0xFF

-- `VALUE_TO_LOCK_OPERATION_SOURCE`
unfoldable pub value_to_lock_operation_source : ℕ → Option LockOperationSource
value_to_lock_operation_source =
    from_value lock_operation_source_value
      (remote ∷ manual ∷ auto_lock ∷ LockOperationSource.pin ∷ LockOperationSource.unknown ∷ [])

pub data LockOperationRemoteType : Type 0 where
  unknown ble : LockOperationRemoteType

abbrev pub lock_operation_remote_type_value : LockOperationRemoteType → ℕ
lock_operation_remote_type_value LockOperationRemoteType.unknown = 0x00
lock_operation_remote_type_value ble = 0x03

-- `VALUE_TO_LOCK_OPERATION_REMOTE_TYPE`
unfoldable pub value_to_lock_operation_remote_type : ℕ → Option LockOperationRemoteType
value_to_lock_operation_remote_type =
    from_value lock_operation_remote_type_value (LockOperationRemoteType.unknown ∷ ble ∷ [])
