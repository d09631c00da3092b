-- ===== src/Lock/Operations.antt =====
-- lock.py: the commands that read a state and those that move the mechanism, as exchanges with the
-- lock. The callbacks of a mechanical operation are those of push.py; the events of the watcher's
-- `Step` stand for their calls.
use yalexs_ble.Prelude.{
  ℕ, Bool, true, false, not, Option, none, some, List, or_default, ◌==◌, if◌then◌else◌,
}
use yalexs_ble.Errors.{Result, ok, operation_failed_error}
use yalexs_ble.Errors
use yalexs_ble.Const.{
  Commands, command_value, getstatus, readsetting, writesetting, status_type_lock_only,
  status_type_door_only, status_type_battery, setting_type_autolock, LockStatus, lock_status_eq,
  value_to_lock_status, DoorStatus, value_to_door_status, BatteryState, AutoLockMode, Activity,
}
use yalexs_ble.Util.Bytes.{index}
use yalexs_ble.Session.State.{Matcher}
use yalexs_ble.Session.Frame.{build_command, build_operation_command}
use yalexs_ble.Lock.Matchers.{
  result_byte, poll_response_matcher, settings_response_matcher, ack_matcher,
  operation_response_matcher,
}
use yalexs_ble.Lock.Parse.{parse_battery_state}
use yalexs_ble.Lock.AutoLock.{auto_lock_command}
use yalexs_ble.Lock.Activity.{parse_lock_activity}
use yalexs_ble.Lock.Wire.{Link, Exchange, ◌>>=◌, ◌>>◌, lift, execute, raise_if_not_connected}

-- `UNLATCH_OPERATION_BYTE`
abbrev pub unlatch_operation_byte : ℕ
unlatch_operation_byte = 0x0A

-- `SECUREMODE_OPERATION_BYTE`
abbrev pub securemode_operation_byte : ℕ
securemode_operation_byte = 0x04

-- `session.execute` with a command before its checksum and a matcher, or
-- `session.execute_operation` with the two matchers and `retry_after_write`.
pub data Call : Type 0 where
  command : List ℕ → Option Matcher → Call
  operation : List ℕ → Matcher → Matcher → Bool → Call

-- `_execute_command`
unfoldable pub execute_command : Link → ℕ → ℕ → Option Matcher → Exchange Call (List ℕ)
execute_command link opcode cmd_byte matcher = do
  cmd ← lift (build_operation_command opcode cmd_byte)
  execute link (command cmd matcher)

-- A poll of `GETSTATUS`.
abbrev pub poll : Link → ℕ → Exchange Call (List ℕ)
poll link kind =
    execute_command link (command_value getstatus) kind
      (some (poll_response_matcher (command_value getstatus) (some kind)))

unfoldable pub lock_status : Link → Exchange Call LockStatus
unfolding execute_command
lock_status link = raise_if_not_connected link do
  response ← poll link status_type_lock_only
  code ← lift (index response 0x08)
  lift (ok (or_default (value_to_lock_status code) LockStatus.unknown))

unfoldable pub door_status : Link → Exchange Call DoorStatus
unfolding execute_command
door_status link = raise_if_not_connected link do
  response ← poll link status_type_door_only
  code ← lift (index response 0x08)
  lift (ok (or_default (value_to_door_status code) DoorStatus.unknown))

unfoldable pub battery : Link → Exchange Call BatteryState
unfolding execute_command
battery link =
    raise_if_not_connected link
      do response ← poll link status_type_battery; lift (ok (parse_battery_state response))

-- Any frame completes it, the acknowledgment included.
unfoldable pub auto_lock_status : Link → Exchange Call (Unit {0})
unfolding execute_command
auto_lock_status link =
    raise_if_not_connected link
      do execute_command link (command_value readsetting) setting_type_autolock none; lift (ok tt)

unfoldable pub set_auto_lock : Link → AutoLockMode → ℕ → Exchange Call (Unit {0})
set_auto_lock link mode duration = raise_if_not_connected link do
  cmd ← lift (auto_lock_command mode duration)
  execute link (
      command cmd
        (some (settings_response_matcher (command_value writesetting) setting_type_autolock)))
  lift (ok tt)

-- `_read_lock_activity_response`
unfoldable pub read_lock_activity_response : Link → Exchange Call (List ℕ)
read_lock_activity_response link = do
  cmd ← lift (build_command (command_value Commands.lock_activity))
  execute link
      (command cmd (some (poll_response_matcher (command_value Commands.lock_activity) none)))

-- `lock_activity`, which reads one record.
unfoldable pub read_lock_activity : Link → Exchange Call (Option Activity)
unfolding read_lock_activity_response
read_lock_activity link =
    raise_if_not_connected link
      do response ← read_lock_activity_response link; lift (parse_lock_activity response)

-- What `_on_result` tells the result callback.
abbrev pub reports_success : List ℕ → Result Bool
reports_success response = Errors.◌>>=◌ (index response result_byte) (λ result. ok (result == 0x00))

-- The end of `_execute_operation`: an error names the result byte.
unfoldable pub check_result : List ℕ → Result (Unit {0})
check_result response =
    Errors.◌>>=◌ (index response result_byte)
      (λ result. Errors.raise_if (not (result == 0x00)) (operation_failed_error result))

-- `_execute_operation`
unfoldable pub execute_operation : Link → ℕ → ℕ → Bool → Exchange Call (Unit {0})
unfolding check_result
execute_operation link opcode operation_byte retry_after_write = do
  cmd ← lift (build_operation_command opcode operation_byte)
  response ← execute link (
      operation cmd (ack_matcher opcode operation_byte) (operation_response_matcher opcode)
        retry_after_write)
  lift (check_result response)

unfoldable pub force_securemode : Link → Exchange Call (Unit {0})
unfolding execute_operation
force_securemode link =
    raise_if_not_connected link
      (execute_operation link (command_value Commands.lock) securemode_operation_byte true)

unfoldable pub force_lock : Link → Exchange Call (Unit {0})
unfolding execute_operation
force_lock link =
    raise_if_not_connected link (execute_operation link (command_value Commands.lock) 0x00 true)

unfoldable pub force_unlock : Link → Exchange Call (Unit {0})
unfolding execute_operation
force_unlock link =
    raise_if_not_connected link (execute_operation link (command_value Commands.unlock) 0x00 true)

-- Not repeated after the write.
unfoldable pub force_unlatch : Link → Exchange Call (Unit {0})
unfolding execute_operation
force_unlatch link =
    raise_if_not_connected link
      (execute_operation link (command_value Commands.unlock) unlatch_operation_byte false)

-- `if (await self.lock_status()) != target: await force()`
abbrev pub unless_reported : Link → LockStatus → Exchange Call (Unit {0}) → Exchange Call (Unit {0})
unless_reported link target force = do
  status ← lock_status link
  if lock_status_eq status target then lift (ok tt) else force

unfoldable pub securemode : Link → Exchange Call (Unit {0})
unfolding lock_status force_securemode
securemode link = unless_reported link LockStatus.securemode (force_securemode link)

unfoldable pub lock : Link → Exchange Call (Unit {0})
unfolding lock_status force_lock
lock link = unless_reported link LockStatus.locked (force_lock link)

unfoldable pub unlock : Link → Exchange Call (Unit {0})
unfolding lock_status force_unlock
unlock link = unless_reported link LockStatus.unlocked (force_unlock link)

unfoldable pub unlatch : Link → Exchange Call (Unit {0})
unfolding force_unlatch
unlatch link = force_unlatch link
