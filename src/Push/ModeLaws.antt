-- ===== src/Push/ModeLaws.antt =====
-- What reports leave alone: whether the watcher runs, whether it stays connected, and whether a poll
-- of the position is owed.
use yalexs_ble.Prelude.{ℕ, ◌≡◌, refl, ◌∙◌, Bool, true, Option, none, some, List, [], ◌∷◌, arith}
use yalexs_ble.Const.{
  LockStatus, LockState, StateValue, lock_status, door_status, battery, auto_lock, auth,
}
use yalexs_ble.Push.State.{Watcher, mark_lock_seen, get_current_state, callback_state}
use yalexs_ble.Push.Jam.{release_jam_hold, jam_hold_ended, admit_lock_status, note_attention}
use yalexs_ble.Push.Update.{
  Changes, no_changes, display, stage_display, apply_changes, stage_admitted, update_lock_status,
  update_value, update_values, update_any_state,
}
use yalexs_ble.Push.Display.{Display, project_lock_status, LockOperation, pending_display, complete}
use yalexs_ble.Push.Operation.{operation_write_success, operation_result, close_operation_window}
use yalexs_ble.Push.PushLock.{
  keep_alive, schedule_next_keep_alive, run_deferred_update, disconnect_with_timer, PushLock,
  reset_disconnect_timer, schedule_reconnect, disconnected_callback,
}
use yalexs_ble.Push.Events.{
  written, answered, hold_due, update_due, keep_alive_due, disconnect_due, state_callback, Event,
  reports, op_response, link_lost, handle_event, handle_events,
}

pub record Mode : Type 0 where
  pub running : Bool
  pub always_connected : Bool
  pub force_lock_status_poll : Bool

abbrev pub mode : Watcher → Mode
mode w = record {
  running = w.running;
  always_connected = w.always_connected;
  force_lock_status_poll = w.force_lock_status_poll;
}

admit_lock_status-mode :
    (now : ℕ) (incoming : LockStatus) (w : Watcher)
    → mode (admit_lock_status now incoming w).1 ≡ mode w
unfolding admit_lock_status note_attention
admit_lock_status-mode now incoming w = ground arith

stage_admitted-mode :
    (shown : LockState) (admitted : Option LockStatus) (w : Watcher) (c : Changes)
    → mode (stage_admitted shown admitted (w, c)).0 ≡ mode w
unfolding stage_admitted stage_display
stage_admitted-mode shown none w c = refl
stage_admitted-mode shown (some status) w c = refl

update_value-mode :
    (now : ℕ) (shown : LockState) (v : StateValue) (w : Watcher) (c : Changes)
    → mode (update_value now shown v (w, c)).0 ≡ mode w
unfolding update_value update_lock_status
update_value-mode now shown (lock_status status) w c =
    let noticed : Watcher = mark_lock_seen true w in
    let (admitted, w') = admit_lock_status now status noticed in
    stage_admitted-mode shown admitted w' c ∙ admit_lock_status-mode now status noticed
update_value-mode now shown (door_status status) w c = ground arith
update_value-mode now shown (battery status) w c = ground arith
update_value-mode now shown (auto_lock status) w c = ground arith
update_value-mode now shown (auth status) w c = ground arith

update_values-mode :
    (now : ℕ) (shown : LockState) (vs : List StateValue) (staged : Watcher × Changes)
    → mode (update_values now shown vs staged).0 ≡ mode staged.0
update_values-mode now shown [] staged = refl
update_values-mode now shown (v ∷ vs) (w, c) =
    update_values-mode now shown vs (update_value now shown v (w, c))
    ∙ update_value-mode now shown v w c

apply_changes-mode :
    (shown : LockState) (staged : Watcher × Changes)
    → mode (apply_changes shown staged) ≡ mode staged.0
unfolding apply_changes callback_state
apply_changes-mode shown (w, c) = ground arith

pub update_any_state-mode :
    (now : ℕ) (states : List StateValue) (w : Watcher)
    → mode (update_any_state now states w) ≡ mode w
unfolding update_any_state
update_any_state-mode now states w =
    let shown = get_current_state w in
    apply_changes-mode shown (update_values now shown states (w, no_changes))
    ∙ update_values-mode now shown states (w, no_changes)

abbrev pub lock_mode : PushLock → Mode
lock_mode p = mode p.watcher

display-mode : (shown : Display) (w : Watcher) → mode (display shown w) ≡ mode w
unfolding display stage_display
display-mode shown w =
    apply_changes-mode (get_current_state w)
      (stage_display (get_current_state w) shown (w, no_changes))

written-mode :
    (operation : LockOperation) (w : Watcher) → mode (operation_write_success operation w) ≡ mode w
unfolding operation_write_success release_jam_hold
written-mode operation w =
    ground
      (arith, display-mode (pending_display operation (get_current_state w)) (release_jam_hold w))

answered-mode :
    (operation : LockOperation) (succeeded : Bool) (w : Watcher)
    → mode (operation_result operation succeeded w) ≡ mode w
unfolding operation_result close_operation_window release_jam_hold
answered-mode operation succeeded w =
    let closed =
      close_operation_window (record w { operation = record w.operation { answered = true } }) in
    ground (
      arith,
      display-mode (project_lock_status (complete operation) (get_current_state closed))
          (release_jam_hold closed),
    )

pub handle_event-mode : (e : Event) (p : PushLock) → lock_mode (handle_event e p) ≡ lock_mode p
unfolding handle_event state_callback reset_disconnect_timer disconnected_callback
    schedule_reconnect keep_alive schedule_next_keep_alive run_deferred_update disconnect_with_timer
    jam_hold_ended
handle_event-mode (reports now states) p =
    ground (arith, update_any_state-mode now states p.watcher)
handle_event-mode (op_response now) p = refl
handle_event-mode (link_lost now) p = ground arith
handle_event-mode (written operation) p = written-mode operation p.watcher
handle_event-mode (answered operation succeeded) p = answered-mode operation succeeded p.watcher
handle_event-mode (hold_due now) p = refl
handle_event-mode (update_due now) p = ground arith
handle_event-mode (keep_alive_due now) p = ground arith
handle_event-mode (disconnect_due now) p = ground arith

pub handle_events-mode :
    (es : List Event) (p : PushLock) → lock_mode (handle_events es p) ≡ lock_mode p
handle_events-mode [] p = refl
handle_events-mode (e ∷ es) p = handle_events-mode es (handle_event e p) ∙ handle_event-mode e p
