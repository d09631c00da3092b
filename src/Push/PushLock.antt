-- ===== src/Push/PushLock.antt =====
-- push.py: the whole watcher, and the timers that keep its link up or take it down. An asyncio timer
-- is the time that it fires at, a task or lock what it is seen to be; the caller passes in whether
-- the operation lock is held.
use yalexs_ble.Prelude.{
  ℕ, ◌+◌, ◌-◌, Bool, true, false, not, ◌&&◌, Option, none, some, is_some, or_default, ltb, leb,
  if◌then◌else◌,
}
use yalexs_ble.Errors.{Result}
use yalexs_ble.Const.{LockInfo}
use yalexs_ble.Push.Scheduler.{
  Scheduler, cancel_future_update, schedule_with_debounce, deferred_update,
}
use yalexs_ble.Push.AuthHistory.{auth_failure_to_start_reauth}
use yalexs_ble.Push.State.{Watcher}
use yalexs_ble.Push.Operation.{keep_alive_time}
use yalexs_ble.Push.Backoff.{schedules_reconnect}
use yalexs_ble.Push.Identity.{Identity}
use yalexs_ble.Push.Advertisement.{Advertised}
use yalexs_ble.Push.ActivityDrain.{ActivityDrain, activity_prime_delay}

-- `IDLE_DISCONNECT_TIME`
abbrev pub idle_disconnect_time : ℕ
idle_disconnect_time = 30000

-- `DISCONNECT_DELAY_PENDING_UPDATE`
abbrev pub disconnect_delay_pending_update : ℕ
disconnect_delay_pending_update = 12500

-- `FIRST_CONNECTION_DISCONNECT_TIME`
abbrev pub first_connection_disconnect_time : ℕ
first_connection_disconnect_time = 2100

-- `_first_update_future`: None, pending, or done with what it was given.
pub data FirstUpdate : Type 0 where
  no_future pending : FirstUpdate
  resolved : Result (Unit {0}) → FirstUpdate

pub record LinkState : Type 0 where
  -- `_client`, by its `is_connected`
  pub client : Option Bool
  pub disconnect_timer : Option ℕ
  pub keep_alive_timer : Option ℕ
  pub next_disconnect_delay : ℕ
  pub idle_disconnect_delay : ℕ
  pub idle_disconnect_delay_pending_update : ℕ
  pub last_operation_complete_time : ℕ
  pub reconnect_backoff : ℕ
  pub slow_params_set : Bool
  -- `_update_task` is there and not done
  pub update_in_flight : Bool
  pub first_update : FirstUpdate

-- The flag `_activity_drain_pending` is the one of the watcher; `auth_failures` is what the history
-- of failures holds for the address.
pub record PushLock : Type 0 where
  pub watcher : Watcher
  pub link : LinkState
  pub drain : ActivityDrain
  pub lock_info : Option LockInfo
  pub has_activity_callbacks : Bool
  pub next_battery_refresh_time : ℕ
  pub auth_failures : ℕ
  pub identity : Identity
  pub advertised : Advertised

abbrev pub set_scheduler : Scheduler → PushLock → PushLock
set_scheduler s p = record p { watcher = record p.watcher { scheduler = s } }

-- `_schedule_future_update_with_debounce`
abbrev pub schedule : ℕ → ℕ → PushLock → PushLock
schedule now delay p = set_scheduler (schedule_with_debounce now delay p.watcher.scheduler) p

-- `is_connected`
abbrev pub is_connected : PushLock → Bool
is_connected p = or_default p.link.client false

-- The test of `_reset_disconnect_timer` and of `_schedule_next_keep_alive`.
abbrev pub stays_connected : PushLock → Bool
stays_connected p = p.watcher.always_connected && p.watcher.running

-- `_reset_disconnect_timer`
unfoldable pub reset_disconnect_timer : ℕ → PushLock → PushLock
reset_disconnect_timer now p = if stays_connected p then p else record p {
  link = record p.link { disconnect_timer = some (now + p.link.next_disconnect_delay) };
}

-- `_cancel_disconnect_timer`
unfoldable pub cancel_disconnect_timer : PushLock → PushLock
cancel_disconnect_timer p = record p { link = record p.link { disconnect_timer = none } }

-- `_schedule_next_keep_alive`
unfoldable pub schedule_next_keep_alive : ℕ → ℕ → PushLock → PushLock
schedule_next_keep_alive now delay p = record p {
  link = record p.link {
    keep_alive_timer = (if stays_connected p then some (now + delay) else none);
  };
}

-- `_reschedule_next_keep_alive`; `max(0, KEEP_ALIVE_TIME - (now - last))`.
unfoldable pub reschedule_next_keep_alive : ℕ → PushLock → PushLock
unfolding schedule_next_keep_alive
reschedule_next_keep_alive now p =
    schedule_next_keep_alive now (p.link.last_operation_complete_time + keep_alive_time - now) p

-- `_clear_reconnect_backoff`
unfoldable pub clear_reconnect_backoff : PushLock → PushLock
clear_reconnect_backoff p = record p { link = record p.link { reconnect_backoff = 0 } }

-- `_schedule_reconnect`
unfoldable pub schedule_reconnect : ℕ → PushLock → PushLock
unfolding schedules_reconnect
schedule_reconnect now p =
    if schedules_reconnect p.watcher.running p.watcher.always_connected
      (leb auth_failure_to_start_reauth p.auth_failures)
    then schedule now p.link.reconnect_backoff p
    else p

-- `_disconnected_callback`
unfoldable pub disconnected_callback : ℕ → PushLock → PushLock
unfolding schedule_reconnect
disconnected_callback now p = if p.link.update_in_flight then p else schedule_reconnect now p

-- `_floor_outlasts_the_link`: `earliest - last > 30 - 1`.
unfoldable pub floor_outlasts_the_link : PushLock → Bool
floor_outlasts_the_link p =
    ltb (p.link.last_operation_complete_time + (idle_disconnect_time - 1000))
      p.watcher.scheduler.earliest_update_time

-- `_keep_alive`, and whether it starts `_keep_link_alive`.
unfoldable pub keep_alive : ℕ → PushLock → Bool × PushLock
unfolding floor_outlasts_the_link schedule_next_keep_alive
keep_alive now p =
    if not p.watcher.always_connected
    then (false, p)
    else if p.link.update_in_flight
    then (false, schedule_next_keep_alive now keep_alive_time p)
    else (
      is_connected p && floor_outlasts_the_link p,
      schedule_next_keep_alive now keep_alive_time (schedule now p.link.reconnect_backoff p),
    )

-- What a timer's callback starts: an update cycle, a disconnect, or nothing.
pub data Started : Type 0 where
  nothing an_update a_disconnect : Started

-- `_deferred_update`, on the watcher.
unfoldable pub run_deferred_update : ℕ → Bool → PushLock → Started × PushLock
run_deferred_update now operation_locked p =
    let (starts, s) =
      deferred_update now p.link.update_in_flight operation_locked p.watcher.scheduler in
    let p' = set_scheduler s p in
    if starts
    then (an_update, record p' { link = record p'.link { update_in_flight = true } })
    else (nothing, p')

-- `_disconnect_with_timer`
unfoldable pub disconnect_with_timer : ℕ → Bool → PushLock → Started × PushLock
unfolding reset_disconnect_timer cancel_disconnect_timer run_deferred_update
disconnect_with_timer now operation_locked p =
    if operation_locked
    then (nothing, reset_disconnect_timer now p)
    else if is_some p.watcher.scheduler.deferred_update
    then (let p' = reset_disconnect_timer now p in
        run_deferred_update now operation_locked
          (set_scheduler (cancel_future_update p'.watcher.scheduler) p'))
    else (a_disconnect, cancel_disconnect_timer p)

-- `_execute_disconnect`, and whether the client is told to disconnect.
unfoldable pub execute_disconnect : PushLock → Bool × PushLock
execute_disconnect p =
    if p.watcher.running && is_some p.link.disconnect_timer
    then (false, p)
    else (is_some p.link.client, record p { link = record p.link { client = none } })

-- `_async_handle_disconnected`
unfoldable pub handle_disconnected : Bool → PushLock → Bool × PushLock
unfolding cancel_disconnect_timer execute_disconnect
handle_disconnected connect_locked p =
    if connect_locked then (false, p) else execute_disconnect (cancel_disconnect_timer p)

-- `_execute_forced_disconnect`: an update in flight is cancelled first. `cancelled` is what its end
-- does to the watcher.
unfoldable pub execute_forced_disconnect : (PushLock → PushLock) → PushLock → Bool × PushLock
unfolding cancel_disconnect_timer execute_disconnect
execute_forced_disconnect cancelled p =
    let p' = cancel_disconnect_timer p in
    execute_disconnect (
      if p'.link.update_in_flight
      then cancelled (record p' { link = record p'.link { update_in_flight = false } })
      else p')

-- `_complete_operation`
unfoldable pub complete_operation : ℕ → PushLock → PushLock
unfolding clear_reconnect_backoff reset_disconnect_timer reschedule_next_keep_alive
complete_operation now p =
    let cleared =
      clear_reconnect_backoff
        (record p { link = record p.link { last_operation_complete_time = now } }) in
    let primes =
      if cleared.has_activity_callbacks && not cleared.drain.primed
      then schedule now activity_prime_delay cleared
      else cleared in
    reschedule_next_keep_alive now (reset_disconnect_timer now primes)
