-- ===== src/Push/Backoff.antt =====
-- push.py: the pacing of reconnects while updates keep failing.
use yalexs_ble.Prelude.{ℕ, ◌*◌, min, Bool, not, ◌&&◌, ◌==◌, if◌then◌else◌}

-- `RECONNECT_BACKOFF_TIME`
abbrev pub reconnect_backoff_time : ℕ
reconnect_backoff_time = 2000

-- `MAX_RECONNECT_BACKOFF_TIME`
abbrev pub max_reconnect_backoff_time : ℕ
max_reconnect_backoff_time = 60000

-- `_record_update_outcome`, with the backoff before and after it.
unfoldable pub record_update_outcome : Bool → ℕ → ℕ
record_update_outcome failed backoff =
    if not failed
    then 0
    else min max_reconnect_backoff_time
        (if backoff * 2 == 0 then reconnect_backoff_time else backoff * 2)

-- The `finally` of `_execute_deferred_update`: neither a cancelled update nor one that stood back
-- behind the floor has an outcome to record.
unfoldable pub finish_update : Bool → Bool → Bool → ℕ → ℕ
unfolding record_update_outcome
finish_update cancelled yielded failed backoff =
    if not cancelled && not yielded then record_update_outcome failed backoff else backoff

-- The test of `_schedule_reconnect`.
unfoldable pub schedules_reconnect : Bool → Bool → Bool → Bool
schedules_reconnect running always_connected should_raise =
    running && (always_connected && not should_raise)
