-- ===== src/Push/Events.antt =====
-- push.py: what reaches the watcher while a coroutine of its own, which holds the operation lock, is
-- suspended: reports, op-responses and a lost link from the lock's side, the two callbacks of its own
-- command, and its timers. What an assertion of `_callback_state` does to the frame or the command
-- whose handler it ends is part of how the wait for it ends.
use yalexs_ble.Prelude.{ℕ, Bool, true, false, none, some, List, [], ◌∷◌, is_some, if◌then◌else◌}
use yalexs_ble.Const.{StateValue}
use yalexs_ble.Push.Display.{LockOperation}
use yalexs_ble.Push.Scheduler.{hold_update}
use yalexs_ble.Push.State.{Watcher}
use yalexs_ble.Push.Jam.{jam_hold_ended}
use yalexs_ble.Push.Update.{update_any_state}
use yalexs_ble.Push.Operation.{operation_write_success, operation_result}
use yalexs_ble.Push.PushLock.{
  PushLock, set_scheduler, reset_disconnect_timer, disconnected_callback, run_deferred_update,
  keep_alive, disconnect_with_timer,
}

-- `_state_callback`
unfoldable pub state_callback : ℕ → List StateValue → PushLock → PushLock
unfolding reset_disconnect_timer
state_callback now states p =
    let p' = reset_disconnect_timer now p in
    record p' { watcher = update_any_state now states p'.watcher }

-- Each with the time at which it comes, where that matters.
pub data Event : Type 0 where
  reports : ℕ → List StateValue → Event
  op_response : ℕ → Event
  link_lost : ℕ → Event
  written : LockOperation → Event
  answered : LockOperation → Bool → Event
  hold_due update_due keep_alive_due disconnect_due : ℕ → Event

abbrev pub on_watcher : (Watcher → Watcher) → PushLock → PushLock
on_watcher f p = record p { watcher = f p.watcher }

-- The client that went down, if there is one.
abbrev pub lose_client : PushLock → PushLock
lose_client p = record p {
  link = record p.link { client = (if is_some p.link.client then some false else none) };
}

unfoldable pub handle_event : Event → PushLock → PushLock
unfolding state_callback disconnected_callback run_deferred_update keep_alive disconnect_with_timer
handle_event (reports now states) p = state_callback now states p
handle_event (op_response now) p = set_scheduler (hold_update now p.watcher.scheduler) p
handle_event (link_lost now) p = disconnected_callback now (lose_client p)
handle_event (written operation) p = on_watcher (operation_write_success operation) p
handle_event (answered operation succeeded) p = on_watcher (operation_result operation succeeded) p
handle_event (hold_due now) p = on_watcher (jam_hold_ended now true) p
handle_event (update_due now) p = (run_deferred_update now true p).1
handle_event (keep_alive_due now) p = (keep_alive now p).1
handle_event (disconnect_due now) p = (disconnect_with_timer now true p).1

abbrev pub handle_events : List Event → PushLock → PushLock
handle_events [] p = p
handle_events (e ∷ es) p = handle_events es (handle_event e p)
