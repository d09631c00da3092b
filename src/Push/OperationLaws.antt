-- ===== src/Push/OperationLaws.antt =====
-- What a watcher's operations do to the display and to the next poll.
use yalexs_ble.Prelude.{
  ℕ, ◌≡◌, Bool, true, false, not, ◌||◌, Option, none, some, arith, if◌then◌else◌,
}
use yalexs_ble.Errors.{Result, ok, err}
use yalexs_ble.Const.{LockStatus}
use yalexs_ble.Push.Display.{project_lock_status, LockOperation, pending_display, complete}
use yalexs_ble.Push.DisplayLaws.{project_lock_status-settled, pending_display-complete}
use yalexs_ble.Push.State.{Watcher, get_current_state}
use yalexs_ble.Push.Jam.{
  jam_takes_precedence, jam_hold_live, attention_holds_display, release_jam_hold, reset_jam_state,
  jam_hold_ended,
}
use yalexs_ble.Push.Update.{display}
use yalexs_ble.Push.UpdateLaws.{SecurePlain, update_any_state-SecurePlain, display-SecurePlain}
use yalexs_ble.Push.Operation.{
  begin_operation, fail_operation, open_operation_window, close_operation_window, attempt_failed,
  operation_result, operation_write_success, show_outcome, schedule_after_operation, end_operation,
  unanswered_outcome, finalize_result, schedule_if, finalize_operation, Step, reported, began,
  opened, wrote, answered, attempt_ended, raised, finished, hold_ended, Steps, stay, step_then,
}

if-SecurePlain :
    (b : Bool) (w w' : Watcher) → SecurePlain w → SecurePlain w' → SecurePlain (if b then w else w')
if-SecurePlain true w w' h k = h
if-SecurePlain false w w' h k = k

operation_result-SecurePlain :
    (operation : LockOperation) (succeeded : Bool) (w : Watcher)
    → SecurePlain w
    → SecurePlain (operation_result operation succeeded w)
unfolding operation_result close_operation_window release_jam_hold get_current_state
operation_result-SecurePlain operation succeeded w h =
    let closed =
      close_operation_window (record w { operation = record w.operation { answered = true } }) in
    let state = get_current_state closed in
    let shows : SecurePlain
        (display (project_lock_status (complete operation) state) (release_jam_hold closed)) =
      (display-SecurePlain (project_lock_status (complete operation) state)
        (release_jam_hold closed) (project_lock_status-settled (complete operation) state).1 h).0 in
    if-SecurePlain (not w.running || not succeeded) _ _ h
      (if-SecurePlain (attention_holds_display (jam_takes_precedence closed) closed) _ _ h shows)

operation_write_success-SecurePlain :
    (operation : LockOperation) (w : Watcher)
    → SecurePlain w
    → SecurePlain (operation_write_success operation w)
unfolding operation_write_success release_jam_hold get_current_state
operation_write_success-SecurePlain operation w h =
    let state = get_current_state w in
    let shows : SecurePlain (display (pending_display operation state) (release_jam_hold w)) =
      (display-SecurePlain (pending_display operation state) (release_jam_hold w)
        (pending_display-complete operation state state).1 h).0 in
    if-SecurePlain w.operation.answered _ _ h
      (if-SecurePlain (attention_holds_display (jam_takes_precedence w) w) _ _ h shows)

show_outcome-SecurePlain :
    (now : ℕ) (outcome : Option LockStatus) (w : Watcher)
    → SecurePlain w
    → SecurePlain (show_outcome now outcome w)
unfolding show_outcome
show_outcome-SecurePlain now none w h = h
show_outcome-SecurePlain now (some status) w h =
    let state = get_current_state w in
    if-SecurePlain (attention_holds_display (jam_takes_precedence w || jam_hold_live now w) w) _ _ h
      (display-SecurePlain (project_lock_status status state) w
        (project_lock_status-settled status state).1 h).0

schedule_after_operation-keeps :
    (now : ℕ) (is_connected : Bool) (w : Watcher)
    → (schedule_after_operation now is_connected w).lock_state ≡ w.lock_state
unfolding schedule_after_operation
schedule_after_operation-keeps now is_connected w = ground arith

scheduled-SecurePlain :
    (r : Result (Unit {0})) (now : ℕ) (is_connected : Bool) (w : Watcher)
    → SecurePlain w
    → SecurePlain (schedule_if r now is_connected w)
unfolding get_current_state
scheduled-SecurePlain (err e) now is_connected w h = h
scheduled-SecurePlain (ok _) now is_connected w h =
    rw (schedule_after_operation-keeps now is_connected w) h

finalize_operation-SecurePlain :
    (now : ℕ) (is_connected : Bool) (called : Result (Unit {0})) (w : Watcher)
    → SecurePlain w
    → SecurePlain (finalize_operation now is_connected called w)
unfolding finalize_operation end_operation reset_jam_state release_jam_hold get_current_state
finalize_operation-SecurePlain now is_connected called w h =
    let outcome = unanswered_outcome w in
    let shown = show_outcome now outcome (end_operation now w) in
    if-SecurePlain (not w.running) _ _ h (
      scheduled-SecurePlain (finalize_result now called w) now is_connected shown
        (show_outcome-SecurePlain now outcome (end_operation now w) h))

Step-SecurePlain : {w w' : Watcher} → Step w w' → SecurePlain w → SecurePlain w'
unfolding begin_operation fail_operation open_operation_window close_operation_window attempt_failed
    jam_hold_ended get_current_state
Step-SecurePlain (reported now states w) h = (update_any_state-SecurePlain now states w h).0
Step-SecurePlain (began now w) h = h
Step-SecurePlain (opened w) h = h
Step-SecurePlain (wrote operation w) h = operation_write_success-SecurePlain operation w h
Step-SecurePlain (answered operation succeeded w) h =
    operation_result-SecurePlain operation succeeded w h
Step-SecurePlain (attempt_ended e w) h = h
Step-SecurePlain (raised w) h = h
Step-SecurePlain (finished now is_connected called w) h =
    finalize_operation-SecurePlain now is_connected called w h
Step-SecurePlain (hold_ended now true w) h = h
Step-SecurePlain (hold_ended now false w) h = h

-- However reports, operations and the end of a hold interleave, a watcher whose secure channel does
-- not show SECUREMODE never comes to show it there.
pub Steps-SecurePlain : {w w' : Watcher} → Steps w w' → SecurePlain w → SecurePlain w'
Steps-SecurePlain (stay w) h = h
Steps-SecurePlain (step_then u v w step rest) h = Steps-SecurePlain rest (Step-SecurePlain step h)
