-- ===== src/Push/TimerLaws.antt =====
-- The timers of the watcher: what keeps a link up, and what is left once it is stopped.
use yalexs_ble.Prelude.{
  ℕ, ◌≡◌, ◌+◌, Bool, true, not, ◌&&◌, ◌||◌, none, some, is_some, arith, if◌then◌else◌,
}
use yalexs_ble.Push.Scheduler.{schedule_with_debounce, schedule_future_update}
use yalexs_ble.Push.PushLock.{
  PushLock, stays_connected, is_connected, floor_outlasts_the_link, keep_alive,
  schedule_next_keep_alive, reset_disconnect_timer, reschedule_next_keep_alive,
  clear_reconnect_backoff, complete_operation,
}

-- A tick of the keep-alive.
abbrev pub KeptAlive : ℕ → PushLock → Bool × PushLock → Type 0
KeptAlive now p (reads, p') =
    (p'.link.keep_alive_timer ≡ some (now + 25000))
    × (reads ≡ (not p.link.update_in_flight && (is_connected p && floor_outlasts_the_link p)))
    × (is_some p'.watcher.scheduler.deferred_update
        ≡ (not p.link.update_in_flight || is_some p.watcher.scheduler.deferred_update))

-- A tick of the keep-alive of a running, always-connected watcher sets the next tick 25 s later. It
-- sends a read of its own exactly if no update is in flight, the link is up, and the floor ends
-- more than 29 s after the last request; and unless an update is in flight one stands scheduled.
pub keep_alive-KeptAlive :
    (now : ℕ) (p : PushLock)
    → p.watcher.running ≡ true
    → p.watcher.always_connected ≡ true
    → KeptAlive now p (keep_alive now p)
unfolding keep_alive schedule_next_keep_alive floor_outlasts_the_link schedule_with_debounce
    schedule_future_update
keep_alive-KeptAlive now p running always = ground arith

-- The end of an operation.
abbrev pub Completed : ℕ → PushLock → PushLock → Type 0
Completed now p p' =
    (p'.link.last_operation_complete_time ≡ now)
    × (p'.link.reconnect_backoff ≡ 0)
    × (p'.link.keep_alive_timer ≡ (if stays_connected p then some (now + 25000) else none))
    × (p'.link.disconnect_timer ≡ (
        if stays_connected p
        then p.link.disconnect_timer
        else some (now + p.link.next_disconnect_delay)))

pub complete_operation-Completed :
    (now : ℕ) (p : PushLock) → Completed now p (complete_operation now p)
unfolding complete_operation clear_reconnect_backoff reset_disconnect_timer
    reschedule_next_keep_alive schedule_next_keep_alive
complete_operation-Completed now p = ground arith
