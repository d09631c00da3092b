-- ===== src/Push/PrecedenceLaws.antt =====
-- A jam that takes precedence over a command goes on to do so, and ends its attempts.
use yalexs_ble.Prelude.{ℕ, ◌≡◌, ◌+◌, ◌≤◌, Bool, true, Option, none, some, List, [], ◌∷◌, arith}
use yalexs_ble.Const.{
  LockStatus, LockState, StateValue, lock_status, door_status, battery, auto_lock, auth,
}
use yalexs_ble.Push.Display.{Display, LockOperation, pending_display, project_lock_status, complete}
use yalexs_ble.Push.State.{Watcher, get_current_state, callback_state, mark_lock_seen}
use yalexs_ble.Push.Jam.{
  jam_takes_precedence, admit_lock_status, note_attention, release_jam_hold, jam_hold_ended,
}
use yalexs_ble.Push.Update.{
  Changes, no_changes, stage_display, display, stage_admitted, update_lock_status, update_value,
  update_values, apply_changes, update_any_state,
}
use yalexs_ble.Push.Operation.{close_operation_window, operation_result, operation_write_success}
use yalexs_ble.Push.PushLock.{
  PushLock, reset_disconnect_timer, disconnected_callback, schedule_reconnect, keep_alive,
  schedule_next_keep_alive, run_deferred_update, disconnect_with_timer,
}
use yalexs_ble.Push.Events.{
  written, answered, hold_due, update_due, keep_alive_due, disconnect_due, state_callback, Event,
  reports, op_response, link_lost, handle_event, handle_events,
}

-- The command was issued then, and a jam was reported since, or in the 5 s before.
abbrev pub Precedes : ℕ → Watcher → Type 0
Precedes issue w = (w.operation.issued_at ≡ issue) × (issue ≤ w.jam.last_event_time + 5000)

pub Precedes-jam_takes_precedence :
    (issue : ℕ) (w : Watcher) → Precedes issue w → jam_takes_precedence w ≡ true
unfolding jam_takes_precedence
Precedes-jam_takes_precedence issue w held = ground (arith, held)

module _ (issue : ℕ) where
  -- An event that reports nothing from before the command.
  abbrev pub Since : Event → Type 0
  Since (reports now states) = issue ≤ now
  Since e = Unit

  abbrev pub AllSince : List Event → Type 0
  AllSince [] = Unit
  AllSince (e ∷ es) = Since e × AllSince es

  admit_lock_status-Precedes :
      (now : ℕ) (incoming : LockStatus) (w : Watcher)
      → issue ≤ now
      → Precedes issue w
      → Precedes issue (admit_lock_status now incoming w).1
  unfolding admit_lock_status note_attention
  admit_lock_status-Precedes now incoming w since held = ground (arith, held)

  stage_admitted-Precedes :
      (shown : LockState) (admitted : Option LockStatus) (w : Watcher) (c : Changes)
      → Precedes issue w
      → Precedes issue (stage_admitted shown admitted (w, c)).0
  unfolding stage_admitted stage_display
  stage_admitted-Precedes shown none w c held = held
  stage_admitted-Precedes shown (some status) w c held = held

  update_value-Precedes :
      (now : ℕ) (shown : LockState) (v : StateValue) (w : Watcher) (c : Changes)
      → issue ≤ now
      → Precedes issue w
      → Precedes issue (update_value now shown v (w, c)).0
  unfolding update_value update_lock_status
  update_value-Precedes now shown (lock_status status) w c since held =
      let noticed : Watcher = mark_lock_seen true w in
      let (admitted, w') = admit_lock_status now status noticed in
      stage_admitted-Precedes shown admitted w' c
        (admit_lock_status-Precedes now status noticed since held)
  update_value-Precedes now shown (door_status status) w c since held = ground (arith, held)
  update_value-Precedes now shown (battery status) w c since held = ground (arith, held)
  update_value-Precedes now shown (auto_lock status) w c since held = ground (arith, held)
  update_value-Precedes now shown (auth status) w c since held = ground (arith, held)

  update_values-Precedes :
      (now : ℕ) (shown : LockState) (vs : List StateValue) (staged : Watcher × Changes)
      → issue ≤ now
      → Precedes issue staged.0
      → Precedes issue (update_values now shown vs staged).0
  update_values-Precedes now shown [] staged since held = held
  update_values-Precedes now shown (v ∷ vs) (w, c) since held =
      update_values-Precedes now shown vs (update_value now shown v (w, c)) since
        (update_value-Precedes now shown v w c since held)

  apply_changes-Precedes :
      (shown : LockState) (staged : Watcher × Changes)
      → Precedes issue staged.0
      → Precedes issue (apply_changes shown staged)
  unfolding apply_changes callback_state
  apply_changes-Precedes shown (w, c) held = ground (arith, held)

  update_any_state-Precedes :
      (now : ℕ) (states : List StateValue) (w : Watcher)
      → issue ≤ now
      → Precedes issue w
      → Precedes issue (update_any_state now states w)
  unfolding update_any_state
  update_any_state-Precedes now states w since held =
      apply_changes-Precedes (get_current_state w)
        (update_values now (get_current_state w) states (w, no_changes))
        (update_values-Precedes now (get_current_state w) states (w, no_changes) since held)

  display-Precedes :
      (shown : Display) (w : Watcher) → Precedes issue w → Precedes issue (display shown w)
  unfolding display stage_display
  display-Precedes shown w held =
      apply_changes-Precedes (get_current_state w)
        (stage_display (get_current_state w) shown (w, no_changes)) held

  written-Precedes :
      (operation : LockOperation) (w : Watcher)
      → Precedes issue w
      → Precedes issue (operation_write_success operation w)
  unfolding operation_write_success release_jam_hold
  written-Precedes operation w held = ground (
    arith,
    held,
    display-Precedes (pending_display operation (get_current_state w)) (release_jam_hold w) held,
  )

  answered-Precedes :
      (operation : LockOperation) (succeeded : Bool) (w : Watcher)
      → Precedes issue w
      → Precedes issue (operation_result operation succeeded w)
  unfolding operation_result close_operation_window release_jam_hold
  answered-Precedes operation succeeded w held =
      let closed =
        close_operation_window (record w { operation = record w.operation { answered = true } }) in
      ground (
        arith,
        held,
        display-Precedes (project_lock_status (complete operation) (get_current_state closed))
            (release_jam_hold closed) held,
      )

  handle_event-Precedes :
      (e : Event) (p : PushLock)
      → Since e
      → Precedes issue p.watcher
      → Precedes issue (handle_event e p).watcher
  unfolding handle_event state_callback reset_disconnect_timer disconnected_callback
      schedule_reconnect keep_alive schedule_next_keep_alive run_deferred_update
      disconnect_with_timer jam_hold_ended
  handle_event-Precedes (reports now states) p since held =
      ground (arith, held, update_any_state-Precedes now states p.watcher since held)
  handle_event-Precedes (op_response now) p since held = held
  handle_event-Precedes (link_lost now) p since held = ground (arith, held)
  handle_event-Precedes (written operation) p since held = written-Precedes operation p.watcher held
  handle_event-Precedes (answered operation succeeded) p since held =
      answered-Precedes operation succeeded p.watcher held
  handle_event-Precedes (hold_due now) p since held = held
  handle_event-Precedes (update_due now) p since held = ground (arith, held)
  handle_event-Precedes (keep_alive_due now) p since held = ground (arith, held)
  handle_event-Precedes (disconnect_due now) p since held = ground (arith, held)

  pub handle_events-Precedes :
      (es : List Event) (p : PushLock)
      → AllSince es
      → Precedes issue p.watcher
      → Precedes issue (handle_events es p).watcher
  handle_events-Precedes [] p since held = held
  handle_events-Precedes (e ∷ es) p (since, later) held =
      handle_events-Precedes es (handle_event e p) later (handle_event-Precedes e p since held)
