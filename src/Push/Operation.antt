-- ===== src/Push/Operation.antt =====
-- push.py: one lock operation of the watcher, from its start to its exit. The attempts between them
-- are those of `Attempts`, run by `RetryRun`; `Commands` puts them together. What a link does during
-- one reaches the watcher as the events of `Step`.
use yalexs_ble.Prelude.{
  ℕ, Bool, true, false, not, ◌&&◌, ◌||◌, Option, none, some, List, if◌then◌else◌,
}
use yalexs_ble.Errors.{Error, Result, ok, err}
use yalexs_ble.Const.{LockStatus, StateValue}
use yalexs_ble.Push.Display.{settled, project_lock_status, LockOperation, pending_display, complete}
use yalexs_ble.Push.Scheduler.{
  hold_update, cancel_future_update, schedule_with_debounce, lock_stale_state_debounce_delay,
}
use yalexs_ble.Push.State.{Watcher, get_current_state}
use yalexs_ble.Push.Jam.{
  jam_takes_precedence, jam_hold_live, attention_holds_display, release_jam_hold, reset_jam_state,
  jam_hold_ended,
}
use yalexs_ble.Push.Update.{display, display_result, update_any_state}

-- `KEEP_ALIVE_TIME`
abbrev pub keep_alive_time : ℕ
keep_alive_time = 25000

-- `_run_lock_operation`, up to its `try`.
unfoldable pub begin_operation : ℕ → Watcher → Watcher
begin_operation now w = record w {
  scheduler = cancel_future_update w.scheduler;
  operation = record w.operation {
    outcome = none;
    answered = false;
    failure = none;
    in_flight = true;
    issued_at = now;
  };
}

-- The handler of `_run_lock_operation`: the outcome of an operation that raised is not known.
unfoldable pub fail_operation : Watcher → Watcher
fail_operation w = record w { operation = record w.operation { outcome = some LockStatus.unknown } }

-- An attempt of `_execute_lock_operation` opens the window just before the write.
unfoldable pub open_operation_window : Watcher → Watcher
open_operation_window w = record w {
  scheduler = cancel_future_update w.scheduler;
  operation = record w.operation { window_open = true };
}

-- `_close_operation_window`
unfoldable pub close_operation_window : Watcher → Watcher
close_operation_window w = record w { operation = record w.operation { window_open = false } }

-- The last handler of `_execute_lock_operation`.
unfoldable pub attempt_failed : Error → Watcher → Watcher
unfolding close_operation_window
attempt_failed e w =
    close_operation_window (record w { operation = record w.operation { failure = some e } })

-- `_operation_result`
unfoldable pub operation_result : LockOperation → Bool → Watcher → Watcher
operation_result operation succeeded w =
    let closed =
      close_operation_window (record w { operation = record w.operation { answered = true } }) in
    if not closed.running || not succeeded
    then closed
    else if attention_holds_display (jam_takes_precedence closed) closed
    then closed
    else display (project_lock_status (complete operation) (get_current_state closed))
        (release_jam_hold closed)

-- `_operation_write_success`
unfoldable pub operation_write_success : LockOperation → Watcher → Watcher
operation_write_success operation w =
    if w.operation.answered
    then w
    else if attention_holds_display (jam_takes_precedence w) w
    then w
    else display (pending_display operation (get_current_state w)) (release_jam_hold w)

-- The display of an operation that ended without its op-response.
unfoldable pub show_outcome : ℕ → Option LockStatus → Watcher → Watcher
show_outcome now none w = w
show_outcome now (some outcome) w =
    if attention_holds_display (jam_takes_precedence w || jam_hold_live now w) w
    then w
    else display (project_lock_status outcome (get_current_state w)) w

-- What showing it ends with, where `_callback_state` would end as `called`.
unfoldable pub show_result : ℕ → Option LockStatus → Result (Unit {0}) → Watcher → Result (Unit {0})
unfolding display_result
show_result now none called w = ok tt
show_result now (some outcome) called w =
    if attention_holds_display (jam_takes_precedence w || jam_hold_live now w) w
    then ok tt
    else display_result (project_lock_status outcome (get_current_state w)) called w

-- The next poll after an operation.
unfoldable pub schedule_after_operation : ℕ → Bool → Watcher → Watcher
schedule_after_operation now is_connected w =
    let s = cancel_future_update w.scheduler in
    let shown = get_current_state w in
    if w.always_connected && not is_connected
    then record w { scheduler = schedule_with_debounce now lock_stale_state_debounce_delay s }
    else if not (jam_hold_live now w)
    then record w {
      scheduler =
          schedule_with_debounce now
            (if settled (record { lock = shown.lock; secure = shown.secure })
              then keep_alive_time
              else lock_stale_state_debounce_delay)
            s;
    }
    else record w { scheduler = s }

-- The state of `_finalize_operation` before its stop check.
unfoldable pub end_operation : ℕ → Watcher → Watcher
end_operation now w = record w {
  operation = record w.operation { in_flight = false; window_open = false };
  force_lock_status_poll = true;
  scheduler = hold_update now w.scheduler;
}

-- The outcome that the exit shows, unless the op-response showed one.
abbrev pub unanswered_outcome : Watcher → Option LockStatus
unanswered_outcome w = if w.operation.answered then none else w.operation.outcome

-- What `_finalize_operation` ends with, where `_callback_state` would end as `called`.
unfoldable pub finalize_result : ℕ → Result (Unit {0}) → Watcher → Result (Unit {0})
unfolding end_operation show_result
finalize_result now called w =
    if not w.running
    then ok tt
    else show_result now (unanswered_outcome w) called (end_operation now w)

abbrev pub schedule_if : Result (Unit {0}) → ℕ → Bool → Watcher → Watcher
schedule_if (err raised) now is_connected w = w
schedule_if (ok _) now is_connected w = schedule_after_operation now is_connected w

-- `_finalize_operation`, where `_callback_state` would end as `called`: an exception skips the poll.
unfoldable pub finalize_operation : ℕ → Bool → Result (Unit {0}) → Watcher → Watcher
unfolding end_operation finalize_result
finalize_operation now is_connected called w =
    let ended = end_operation now w in
    if not ended.running
    then reset_jam_state ended
    else schedule_if (finalize_result now called w) now is_connected
        (show_outcome now (unanswered_outcome w) ended)

-- What can happen to a watcher, at any time and in any order.
pub data Step : Watcher → Watcher → Type 0 where
  reported :
      (now : ℕ) (states : List StateValue) (w : Watcher) → Step w (update_any_state now states w)
  began : (now : ℕ) (w : Watcher) → Step w (begin_operation now w)
  opened : (w : Watcher) → Step w (open_operation_window w)
  wrote : (operation : LockOperation) (w : Watcher) → Step w (operation_write_success operation w)
  answered :
      (operation : LockOperation) (succeeded : Bool) (w : Watcher)
      → Step w (operation_result operation succeeded w)
  attempt_ended : (e : Error) (w : Watcher) → Step w (attempt_failed e w)
  raised : (w : Watcher) → Step w (fail_operation w)
  finished :
      (now : ℕ) (is_connected : Bool) (called : Result (Unit {0})) (w : Watcher)
      → Step w (finalize_operation now is_connected called w)
  hold_ended :
      (now : ℕ) (operation_locked : Bool) (w : Watcher)
      → Step w (jam_hold_ended now operation_locked w)

-- Any sequence of them.
pub data Steps : Watcher → Watcher → Type 0 where
  stay : (w : Watcher) → Steps w w
  step_then : (u v w : Watcher) → Step u v → Steps v w → Steps u w
