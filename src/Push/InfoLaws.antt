-- ===== src/Push/InfoLaws.antt =====
-- What happens during a wait leaves the lock's info alone.
use yalexs_ble.Prelude.{◌≡◌, refl, ◌∙◌, List, [], ◌∷◌, length, arith}
use yalexs_ble.Push.PushLock.{
  PushLock, keep_alive, schedule_next_keep_alive, run_deferred_update, disconnect_with_timer,
  reset_disconnect_timer, schedule_reconnect, disconnected_callback,
}
use yalexs_ble.Push.Events.{
  Event, reports, op_response, link_lost, written, answered, hold_due, update_due, keep_alive_due,
  disconnect_due, state_callback, handle_event, handle_events,
}
use yalexs_ble.Push.Run.{Ask, World, Progress, ask}

handle_event-lock_info : (e : Event) (p : PushLock) → (handle_event e p).lock_info ≡ p.lock_info
unfolding handle_event state_callback reset_disconnect_timer disconnected_callback
    schedule_reconnect keep_alive schedule_next_keep_alive run_deferred_update disconnect_with_timer
handle_event-lock_info (reports now states) p = ground arith
handle_event-lock_info (op_response now) p = refl
handle_event-lock_info (link_lost now) p = ground arith
handle_event-lock_info (written operation) p = refl
handle_event-lock_info (answered operation succeeded) p = refl
handle_event-lock_info (hold_due now) p = refl
handle_event-lock_info (update_due now) p = ground arith
handle_event-lock_info (keep_alive_due now) p = ground arith
handle_event-lock_info (disconnect_due now) p = ground arith

handle_events-lock_info :
    (es : List Event) (p : PushLock) → (handle_events es p).lock_info ≡ p.lock_info
handle_events-lock_info [] p = refl
handle_events-lock_info (e ∷ es) p =
    handle_events-lock_info es (handle_event e p) ∙ handle_event-lock_info e p

pub ask-lock_info :
    (world : World) (r : Ask) (s : Progress) → (ask world r s).1.lock.lock_info ≡ s.lock.lock_info
unfolding ask
ask-lock_info world r s = handle_events-lock_info (world.waits (length s.asked)).heard s.lock
