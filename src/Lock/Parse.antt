-- ===== src/Lock/Parse.antt =====
-- lock.py: `_parse_state` and the decoders that it calls, and `_internal_state_callback`. A read
-- past the end of a frame raises IndexError. What is logged is left out.
use yalexs_ble.Prelude.{
  ℕ, Bool, true, false, not, ◌&&◌, ◌||◌, Option, none, some, List, [], ◌∷◌, map, any, length, slice,
  or_default, ltb, ◌==◌, if◌then◌else◌,
}
use yalexs_ble.Errors.{Result, ok, ◌>>=◌}
use yalexs_ble.Const.{
  Commands, command_value, getstatus, writesetting, readsetting, unlock, lock, keycode_set,
  keycode_clear, keycode_access, keycode_commit, keycode_get, status_type_lock_only,
  status_type_door_only, status_type_door_and_lock, status_type_battery, setting_type_autolock,
  LockStatus, jammed, value_to_lock_status, DoorStatus, value_to_door_status, BatteryState,
  StateValue, lock_status, door_status, battery, auto_lock,
}
use yalexs_ble.Util.Bytes.{index, bytes_to_int}
use yalexs_ble.Lock.Battery.{convert_voltage_to_percentage, cell_voltage}
use yalexs_ble.Lock.Matchers.{result_byte}
use yalexs_ble.Lock.AutoLock.{parse_auto_lock_state}

-- `n in xs`
abbrev pub contains : List ℕ → ℕ → Bool
contains xs n = any (λ x. x == n) xs

-- `NO_STATE_OPCODES`
abbrev pub no_state_opcodes : List ℕ
no_state_opcodes = map command_value (
    keycode_set ∷ keycode_clear ∷ keycode_access ∷ keycode_commit ∷ keycode_get
    ∷ Commands.lock_activity ∷ [])

unfoldable pub parse_lock_status : ℕ → LockStatus
unfolding value_to_lock_status
parse_lock_status code = or_default (value_to_lock_status code) LockStatus.unknown

unfoldable pub parse_door_status : ℕ → DoorStatus
unfolding value_to_door_status
parse_door_status code = or_default (value_to_door_status code) DoorStatus.unknown

unfoldable pub parse_battery_state : List ℕ → BatteryState
parse_battery_state response =
    let voltage = bytes_to_int (slice 0x08 0x0A response) in
    record { voltage = voltage; percentage = convert_voltage_to_percentage (cell_voltage voltage) }

-- What `_parse_state` returns, `none` for an unknown frame, and whether it called the op-response
-- callback.
pub record Parsed : Type 0 where
  pub states : Option (List StateValue)
  pub op_response : Bool

abbrev pub unknown_frame : Parsed
unknown_frame = record { states = none; op_response = false }

abbrev pub reports : List StateValue → Parsed
reports values = record { states = some values; op_response = false }

-- The answers to GETSTATUS and to the settings commands.
unfoldable pub parse_status : List ℕ → ℕ → Result Parsed
unfolding parse_lock_status parse_door_status parse_battery_state
parse_status state kind =
    if kind == status_type_lock_only
    then (do code ← index state 0x08; ok (reports (lock_status (parse_lock_status code) ∷ [])))
    else if kind == status_type_door_only
    then (do code ← index state 0x08; ok (reports (door_status (parse_door_status code) ∷ [])))
    else if kind == status_type_door_and_lock
    then (do
      code ← index state 0x08
      door ← index state 0x09
      ok (
          reports
            (lock_status (parse_lock_status code) ∷ door_status (parse_door_status door) ∷ [])))
    else if kind == status_type_battery
    then ok (reports (battery (parse_battery_state state) ∷ []))
    else ok unknown_frame

abbrev pub is_operation : ℕ → Bool
is_operation opcode = opcode == command_value lock || opcode == command_value unlock

abbrev pub is_setting : ℕ → Bool
is_setting opcode = opcode == command_value writesetting || opcode == command_value readsetting

-- The 0xBB frames.
unfoldable pub parse_response : List ℕ → ℕ → Result Parsed
unfolding parse_status parse_auto_lock_state
parse_response state opcode =
    if is_operation opcode && ltb result_byte (length state)
    then (do
      result ← index state result_byte
      ok (record {
        states = some (if not (result == 0x00) then lock_status jammed ∷ [] else []);
        op_response = true;
      }))
    else if opcode == command_value getstatus
    then (do kind ← index state 0x04; parse_status state kind)
    else if is_setting opcode
    then (do
      setting ← index state 0x04
      ok (
          if setting == setting_type_autolock
          then reports (auto_lock (parse_auto_lock_state state) ∷ [])
          else unknown_frame))
    else ok unknown_frame

-- The frames with a response flag, by the flag and the opcode.
unfoldable pub parse_flagged : List ℕ → ℕ → ℕ → Result Parsed
unfolding parse_response
parse_flagged state flag opcode =
    if contains no_state_opcodes opcode
    then ok (reports [])
    else if flag == 0xBB
    then parse_response state opcode
    else if is_operation opcode
    then ok (reports [])
    else if is_setting opcode
    then ok (reports [])
    else ok unknown_frame

-- The opcode is read only behind one of the two flags.
unfoldable pub parse_state : List ℕ → Result Parsed
unfolding parse_flagged
parse_state state = do
  flag ← index state 0x00
  if flag == 0xAA || flag == 0xBB
      then (do opcode ← index state 0x01; parse_flagged state flag opcode)
      else ok unknown_frame

-- `_internal_state_callback`: the states that reach the consumer, with the op-response call.
unfoldable pub internal_state_callback : List ℕ → Result (List StateValue × Bool)
unfolding parse_state
internal_state_callback state = do
  parsed ← parse_state state
  ok (or_default parsed.states [], parsed.op_response)
