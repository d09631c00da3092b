-- ===== src/Lock/Activity.antt =====
-- lock.py: the activity log. `_parse_lock_activity` decodes a record, `drain_lock_activity` pops
-- records until the end marker. What a read of the lock answers is given by the place of the read
-- in the drain. `datetime.fromtimestamp` is left out: a timestamp stays a number of seconds.
use yalexs_ble.Prelude.{
  ℕ, zero, suc, ◌%◌, ◌^◌, Bool, true, false, not, Option, none, some, List, [], ◌∷◌, slice,
  or_default, ◌==◌, if◌then◌else◌,
}
use yalexs_ble.Errors.{activity_log_overrun_error, disconnected_error, Result, ok, err, ◌>>=◌}
use yalexs_ble.Const.{
  LockActivityType, keypad_unlock, door, no_activity, lock_activity_type_value, unlocked,
  LockOperationSource, remote, value_to_lock_operation_source, LockOperationRemoteType,
  value_to_lock_operation_remote_type, Activity, lock_activity, door_activity,
}
use yalexs_ble.Util.Bytes.{index, bytes_to_int}
use yalexs_ble.Lock.Parse.{parse_lock_status, parse_door_status}

-- `MAX_ACTIVITY_RECORDS`
abbrev pub max_activity_records : ℕ
max_activity_records = 32

abbrev pub is_remote : LockOperationSource → Bool
is_remote remote = true
is_remote _ = false

-- `_parse_operation_source`
unfoldable pub parse_operation_source : ℕ → ℕ → LockOperationSource × Option LockOperationRemoteType
unfolding value_to_lock_operation_source value_to_lock_operation_remote_type
parse_operation_source source remote_type =
    let source_enum =
      or_default (value_to_lock_operation_source source) LockOperationSource.unknown in
    let remote_type_enum =
      or_default (value_to_lock_operation_remote_type remote_type)
        LockOperationRemoteType.unknown in
    (source_enum, if is_remote source_enum then some remote_type_enum else none)

abbrev pub is_type : LockActivityType → ℕ → Bool
is_type kind n = n == lock_activity_type_value kind

unfoldable pub parse_door_activity : List ℕ → Result (Option Activity)
parse_door_activity response = do
  status ← index response 0x09
  ok (
      some (
        door_activity (record {
          timestamp = bytes_to_int (slice 0x05 0x09 response);
          status = parse_door_status status;
        })))

unfoldable pub parse_operation_activity : List ℕ → Result (Option Activity)
parse_operation_activity response = do
  status ← index response 0x06
  source ← index response 0x05
  remote_type ← index response 0x07
  ok (
      some (
        lock_activity (record {
          timestamp = bytes_to_int (slice 0x08 0x0C response);
          status = parse_lock_status status;
          source = (parse_operation_source source remote_type).0;
          remote_type = (parse_operation_source source remote_type).1;
          slot = none;
        })))

unfoldable pub parse_pin_activity : List ℕ → Result (Option Activity)
parse_pin_activity response = do
  pin_slot ← index response 0x0A
  status ← index response 0x0C
  ok (
      some (
        lock_activity (record {
          timestamp = bytes_to_int (slice 0x05 0x09 response);
          status = parse_lock_status (status % 2 ^ 4);
          source = LockOperationSource.pin;
          remote_type = none;
          slot = some pin_slot;
        })))

unfoldable pub parse_keypad_activity : List ℕ → Activity
parse_keypad_activity response = lock_activity (record {
  timestamp = bytes_to_int (slice 0x05 0x09 response);
  status = unlocked;
  source = LockOperationSource.pin;
  remote_type = none;
  slot = some (bytes_to_int (slice 0x0E 0x10 response));
})

-- `_parse_lock_activity`
unfoldable pub parse_lock_activity : List ℕ → Result (Option Activity)
parse_lock_activity response = do
  activity_type ← index response 0x04
  if is_type no_activity activity_type
      then ok none
      else if is_type door activity_type
      then parse_door_activity response
      else if is_type LockActivityType.lock activity_type
      then parse_operation_activity response
      else if is_type LockActivityType.pin activity_type
      then parse_pin_activity response
      else if is_type keypad_unlock activity_type
      then ok (some (parse_keypad_activity response))
      else ok none

-- What a drain yields, how many reads it made, and how it ended.
pub record Drained : Type 0 where
  pub yielded : List Activity
  pub reads : ℕ
  pub outcome : Result (Unit {0})

abbrev pub ends_with : Result (Unit {0}) → Drained
ends_with outcome = record { yielded = []; reads = 1; outcome = outcome }

abbrev pub yields_first : Option Activity → Drained → Drained
yields_first none rest = record rest { reads = suc rest.reads }
yields_first (some activity) rest = record rest {
  yielded = activity ∷ rest.yielded;
  reads = suc rest.reads;
}

-- One turn of the loop, on the answer and what the later turns do.
unfoldable pub drain_step : Result (List ℕ) → Drained → Drained
drain_step (err e) rest = ends_with (err e)
drain_step (ok response) rest = elim (index response 0x04) [
  | err e ↦ ends_with (err e)
  | ok activity_type ↦
      if is_type no_activity activity_type
      then ends_with (ok tt)
      else elim (parse_lock_activity response) [
        | err e ↦ ends_with (err e)
        | ok activity ↦ yields_first activity rest
      ]
]

-- The loop, with the number of turns left and the number of reads made.
unfoldable pub drain_loop : ℕ → (ℕ → Result (List ℕ)) → ℕ → Drained
drain_loop zero answers i = record {
  yielded = [];
  reads = 0;
  outcome = err activity_log_overrun_error;
}
drain_loop (suc turns) answers i = drain_step (answers i) (drain_loop turns answers (suc i))

unfoldable pub drain_lock_activity : Bool → (ℕ → Result (List ℕ)) → Drained
drain_lock_activity is_connected answers =
    if not is_connected
    then record { yielded = []; reads = 0; outcome = err disconnected_error }
    else drain_loop max_activity_records answers 0
