-- ===== src/Lock/AutoLock.antt =====
-- lock.py: the auto lock value, two little-endian 16-bit timers. `set_auto_lock` writes it and
-- `_parse_auto_lock_state` reads it. A duration is a whole number of seconds, never negative.
use Prim.Native.Nat.{bit_or}
use yalexs_ble.Prelude.{
  ℕ, ◌*◌, ◌/◌, ◌%◌, ◌^◌, Bool, true, false, not, ◌||◌, ◌&&◌, List, slice, leb, ◌==◌, if◌then◌else◌,
}
use yalexs_ble.Errors.{Result, ok, err, value_error, ◌>>=◌}
use yalexs_ble.Const.{
  writesetting, command_value, setting_type_autolock, AutoLockMode, instant, timer, off,
  AutoLockState,
}
use yalexs_ble.Util.Bytes.{bytes_to_int, int_to_bytes, copy}
use yalexs_ble.Session.Frame.{build_operation_command}

abbrev pub is_off : AutoLockMode → Bool
is_off off = true
is_off _ = false

abbrev pub is_timer : AutoLockMode → Bool
is_timer timer = true
is_timer _ = false

-- The value that `set_auto_lock` writes.
unfoldable pub auto_lock_value : AutoLockMode → ℕ → Result ℕ
auto_lock_value mode duration =
    if is_off mode || duration == 0
    then ok 0
    else if not (leb 1 duration && leb duration 0xFFFE)
    then err value_error
    else if is_timer mode
    then ok (bit_or duration (duration * 2 ^ 16))
    else ok duration

-- The command that `set_auto_lock` sends, before its checksum.
unfoldable pub auto_lock_command : AutoLockMode → ℕ → Result (List ℕ)
unfolding auto_lock_value
auto_lock_command mode duration = do
  value ← auto_lock_value mode duration
  cmd ← build_operation_command (command_value writesetting) setting_type_autolock
  field ← int_to_bytes value 4
  ok (copy cmd field 0x08)

-- `_parse_auto_lock_state`
unfoldable pub parse_auto_lock_state : List ℕ → AutoLockState
parse_auto_lock_state response =
    let value = bytes_to_int (slice 0x08 0x0C response) in
    let never_opened = value % 2 ^ 16 in
    let door_close = value / 2 ^ 16 % 2 ^ 16 in
    if value == 0
    then record { mode = off; duration = 0 }
    else if not (door_close == 0)
    then record {
      mode = timer;
      duration = (if not (never_opened == 0) then never_opened else door_close);
    }
    else record { mode = instant; duration = never_opened }
