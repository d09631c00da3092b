-- ===== src/Push/StopLaws.antt =====
-- A stopped watcher: its last timers fire without an update, and then there are none.
use yalexs_ble.Prelude.{
  ℕ, suc, ◌≡◌, refl, ◌∙◌, ◌+◌, ◌*◌, ◌≤◌, ◌<◌, Bool, true, false, none, is_some, arith,
  if◌then◌else◌,
}
use yalexs_ble.Push.Scheduler.{
  cancel_future_update, schedule_with_debounce, schedule_future_update, deferred_update,
  wait_for_the_floor,
}
use yalexs_ble.Push.Jam.{jam_hold_ended}
use yalexs_ble.Push.PushLock.{
  PushLock, Started, an_update, keep_alive, schedule_next_keep_alive, reset_disconnect_timer,
  run_deferred_update, disconnect_with_timer, cancel_disconnect_timer,
}
use yalexs_ble.Push.Lifecycle.{Coroutine, execute_deferred_update}

-- The task that a timer's callback started runs.
abbrev pub run_started : Coroutine → ℕ → Coroutine → Started × PushLock → PushLock
run_started acquire now locked_update (an_update, p) =
    (execute_deferred_update acquire now locked_update now p).1
run_started acquire now locked_update (other, p) = p

-- A timer that stands fires, with the operation lock free and the floor past.
pub data Fires (acquire locked_update : Coroutine) : PushLock → PushLock → Type 0 where
  keep_alive_fires :
      (now : ℕ) (p : PushLock)
      → p.watcher.scheduler.earliest_update_time ≤ now
      → is_some p.link.keep_alive_timer ≡ true
      → Fires acquire locked_update p
          (keep_alive now (record p { link = record p.link { keep_alive_timer = none } })).1
  deferred_fires :
      (now : ℕ) (p : PushLock)
      → p.watcher.scheduler.earliest_update_time ≤ now
      → is_some p.watcher.scheduler.deferred_update ≡ true
      → Fires acquire locked_update p
          (run_started acquire now locked_update (run_deferred_update now false p))
  disconnect_fires :
      (now : ℕ) (p : PushLock)
      → p.watcher.scheduler.earliest_update_time ≤ now
      → is_some p.link.disconnect_timer ≡ true
      → Fires acquire locked_update p
          (run_started acquire now locked_update (disconnect_with_timer now false p))
  hold_fires :
      (now : ℕ) (p : PushLock)
      → p.watcher.scheduler.earliest_update_time ≤ now
      → is_some p.watcher.jam.hold_timer ≡ true
      → Fires acquire locked_update p (record p { watcher = jam_hold_ended now false p.watcher })

-- Any number of them.
pub data Firings (acquire locked_update : Coroutine) : ℕ → PushLock → PushLock → Type 0 where
  idle : (p : PushLock) → Firings acquire locked_update 0 p p
  fires_then :
      (n : ℕ) (p q r : PushLock)
      → Fires acquire locked_update p q
      → Firings acquire locked_update n q r
      → Firings acquire locked_update (suc n) p r

-- Stopped, with no update running.
pub record IsStopped (p : PushLock) : Type 0 where
  pub stopped : p.watcher.running ≡ false
  pub rests : p.link.update_in_flight ≡ false

abbrev weight : Bool → ℕ
weight b = if b then 1 else 0

-- The keep-alive's tick and the end of a jam's hold may leave a deferred update, so each weighs two.
abbrev pub timers : PushLock → ℕ
timers p =
    2 * weight (is_some p.link.keep_alive_timer)
    + 2 * weight (is_some p.watcher.jam.hold_timer)
    + weight (is_some p.watcher.scheduler.deferred_update)
    + weight (is_some p.link.disconnect_timer)

abbrev Calmer : PushLock → PushLock → Type 0
Calmer p q = IsStopped q × (timers q < timers p) × (q.watcher.published ≡ p.watcher.published)

Fires-Calmer :
    {acquire locked_update : Coroutine} {p q : PushLock}
    → Fires acquire locked_update p q
    → IsStopped p
    → Calmer p q
unfolding keep_alive schedule_next_keep_alive run_deferred_update deferred_update wait_for_the_floor
    cancel_future_update schedule_with_debounce schedule_future_update disconnect_with_timer
    jam_hold_ended reset_disconnect_timer cancel_disconnect_timer execute_deferred_update
Fires-Calmer (keep_alive_fires now p floor stands) s = ground arith
Fires-Calmer (deferred_fires now p floor stands) s = ground arith
Fires-Calmer (disconnect_fires now p floor stands) s = ground arith
Fires-Calmer (hold_fires now p floor stands) s = ground arith

Firings-timers :
    {acquire locked_update : Coroutine} {n : ℕ} {p q : PushLock}
    → Firings acquire locked_update n p q
    → IsStopped p
    → (n + timers q ≤ timers p) × (q.watcher.published ≡ p.watcher.published)
Firings-timers (idle p) s = (omega arith, refl)
Firings-timers (fires_then n p q r step rest) s =
    let (still, fewer, same) = Fires-Calmer step s in
    let (bound, same') = Firings-timers rest still in (omega arith, same' ∙ same)

timers_bound : (p : PushLock) → timers p ≤ 6
timers_bound p = ground arith

-- A stopped watcher with no update running, whose timers fire with the operation lock free and the
-- floor of the updates past: in whatever order they do, at most six fire, those that they arm
-- included (of the keep-alive, the jam's hold, the deferred update and the disconnect), and none of
-- them publishes a state: whatever an update would do, the tasks that they start run none.
pub Firings-run_dry :
    (acquire locked_update : Coroutine) (n : ℕ) (p q : PushLock)
    → Firings acquire locked_update n p q
    → IsStopped p
    → (n ≤ 6) × (q.watcher.published ≡ p.watcher.published)
Firings-run_dry acquire locked_update n p q fired s =
    let (bound, same) = Firings-timers fired s in let six = timers_bound p in (omega arith, same)
