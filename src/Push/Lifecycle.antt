-- ===== src/Push/Lifecycle.antt =====
-- push.py: starting and stopping the watcher, and the task of a deferred update. The lookup of the
-- device, the wait for the operation lock and the update itself are arguments.
use yalexs_ble.Prelude.{
  ℕ, Bool, true, false, not, ◌&&◌, Option, none, some, is_some, Text, if◌then◌else◌,
}
use yalexs_ble.Errors.{
  Error, runtime_error, auth_error, timeout_error, cancelled_error, bluetooth_error, yale_error,
  disconnected_error, invalid_state_error, no_advertisement_error, is_bleak_error, Result, ok, err,
}
use yalexs_ble.Push.Scheduler.{cancel_future_update, wait_for_the_floor}
use yalexs_ble.Push.Backoff.{finish_update}
use yalexs_ble.Push.Jam.{reset_jam_state}
use yalexs_ble.Push.Advertisement.{adv_update_coalesce}
use yalexs_ble.Push.ActivityDrain.{activity_prime_delay}
use yalexs_ble.Push.Identity.{address_of, set_ble_device}
use yalexs_ble.Push.PushLock.{
  FirstUpdate, no_future, pending, resolved, PushLock, set_scheduler, schedule, is_connected,
  clear_reconnect_backoff, schedule_reconnect,
}

-- `MANUAL_UPDATE_COALESCE_SECONDS`
abbrev pub manual_update_coalesce : ℕ
manual_update_coalesce = 50

abbrev pub set_first_update : FirstUpdate → PushLock → PushLock
set_first_update f p = record p { link = record p.link { first_update = f } }

-- The device that the scanner knows, if any, and what it makes of it.
abbrev pub found_device : ℕ → Option Text → PushLock → PushLock
found_device now none p = p
found_device now (some device) p =
    schedule now adv_update_coalesce (record p { identity = set_ble_device device p.identity })

-- `start`; `device` is what the scanner knows under the address.
unfoldable pub start : ℕ → Option Text → PushLock → Result (Unit {0}) × PushLock
unfolding clear_reconnect_backoff address_of
start now device p =
    if p.watcher.running
    then (err runtime_error, p)
    else let running : PushLock = record p { watcher = record p.watcher { running = true } } in
      let waiting = set_first_update pending (clear_reconnect_backoff running) in
      elim (address_of waiting.identity) [
        | err e ↦ (err e, waiting)
        | ok address ↦ (ok tt, found_device now device waiting)
      ]

-- `_cancel`, up to the disconnect that it starts in the background.
unfoldable pub cancel : PushLock → PushLock
cancel p =
    let stopped = record p.watcher {
      running = false;
      scheduler = cancel_future_update p.watcher.scheduler;
    } in
    record p {
      watcher = (if stopped.operation.in_flight then stopped else reset_jam_state stopped);
    }

-- How the wait of `wait_for_first_update` ends when the future is still pending: by the time limit
-- or a cancellation, or once the future is resolved.
pub data Awaited : Type 0 where
  gave_up : Awaited
  was_resolved : Result (Unit {0}) → Awaited

-- `wait_for_first_update`; a TimeoutError that the future holds is raised again by the second await.
unfoldable pub wait_for_first_update : Awaited → PushLock → Result (Unit {0}) × PushLock
wait_for_first_update awaited p =
    let left = set_first_update no_future p in
    if not p.watcher.running then (err runtime_error, p) else elim p.link.first_update [
      | no_future ↦ (err runtime_error, p)
      | resolved result ↦ (result, left)
      | pending ↦ elim awaited [
        | gave_up ↦ (err no_advertisement_error, left)
        | was_resolved result ↦ (result, left)
      ]
    ]

-- `update`
unfoldable pub update : ℕ → PushLock → PushLock
update now p = schedule now (if is_connected p then 0 else manual_update_coalesce) p

-- `register_activity_callback`
unfoldable pub register_activity_callback : ℕ → PushLock → PushLock
register_activity_callback now p =
    if p.has_activity_callbacks
    then p
    else let owed : PushLock = record p {
      has_activity_callbacks = true;
      drain = record p.drain { primed = false };
      watcher = record p.watcher { activity_drain_pending = true };
    } in
      if p.watcher.running && is_some p.lock_info
      then schedule now activity_prime_delay owed
      else owed

-- `_set_update_state`: a future that is done already refuses to be set again.
unfoldable pub set_update_state : Result (Unit {0}) → PushLock → Result (Unit {0}) × PushLock
set_update_state result p = elim p.link.first_update [
  | no_future ↦ (ok tt, p)
  | pending ↦ (ok tt, set_first_update (resolved result) p)
  | resolved _ ↦ (err invalid_state_error, p)
]

-- The exception that the handlers give the future.
unfoldable pub reported_error : Error → Error
reported_error auth_error = auth_error
reported_error cancelled_error = runtime_error
reported_error timeout_error = timeout_error
reported_error disconnected_error = bluetooth_error
reported_error e = if is_bleak_error e then bluetooth_error else yale_error

abbrev pub is_cancelled : Error → Bool
is_cancelled cancelled_error = true
is_cancelled _ = false

-- The `finally`, and the end of the task.
unfoldable pub end_update : ℕ → Bool → Bool → Bool → PushLock → PushLock
unfolding finish_update schedule_reconnect
end_update now cancelled yielded failed p =
    let recorded : PushLock = record p {
      link = record p.link {
        reconnect_backoff = finish_update cancelled yielded failed p.link.reconnect_backoff;
      };
    } in
    let re_armed = if is_connected recorded then recorded else schedule_reconnect now recorded in
    record re_armed { link = record re_armed.link { update_in_flight = false } }

-- A handler: what it raises is what the task ends with.
unfoldable pub handle_update_error : ℕ → Bool → Error → PushLock → Result (Unit {0}) × PushLock
unfolding set_update_state reported_error end_update
handle_update_error now failed e p =
    let (set, p') = set_update_state (err (reported_error e)) p in
    (
      elim set [ err already ↦ err already | ok _ ↦ if is_cancelled e then err e else ok tt ],
      end_update now (is_cancelled e) false failed p',
    )

-- The end of the `try`, once the update returned.
unfoldable pub update_returned : ℕ → PushLock → Result (Unit {0}) × PushLock
unfolding handle_update_error
update_returned now p =
    let (set, p') = set_update_state (ok tt) p in
    elim set [
      | err already ↦ handle_update_error now false already p'
      | ok _ ↦ (ok tt, end_update now false false false p')
    ]

-- A coroutine's run: its result and what it leaves.
abbrev pub Coroutine : Type 0
Coroutine = PushLock → Result (Unit {0}) × PushLock

-- The end of the update that ran.
unfoldable pub update_ended : ℕ → Result (Unit {0}) → PushLock → Result (Unit {0}) × PushLock
unfolding update_returned
update_ended later (err e) left = handle_update_error later true e left
update_ended later (ok _) left = update_returned later left

-- The body once the operation lock is held.
unfoldable pub update_held : ℕ → Coroutine → ℕ → PushLock → Result (Unit {0}) × PushLock
unfolding update_ended
update_held now locked_update later held =
    let (holds, s) = wait_for_the_floor now held.watcher.scheduler in
    let waiting = set_scheduler s held in
    if holds
    then (ok tt, end_update now false true true waiting)
    else update_ended later (locked_update waiting).0 (locked_update waiting).1

abbrev pub once_acquired :
    ℕ
    → (PushLock → Result (Unit {0}) × PushLock)
    → Result (Unit {0}) × PushLock
    → Result (Unit {0}) × PushLock
once_acquired now body (err e, held) = handle_update_error now true e held
once_acquired now body (ok _, held) = body held

-- `_execute_deferred_update`: `acquire` is the wait for the operation lock, `now` the time once it
-- is held, `locked_update` the update, `later` the time at its end.
unfoldable pub execute_deferred_update :
    Coroutine → ℕ → Coroutine → ℕ → PushLock → Result (Unit {0}) × PushLock
unfolding update_held
execute_deferred_update acquire now locked_update later p =
    if not p.watcher.running
    then (ok tt, record p { link = record p.link { update_in_flight = false } })
    else once_acquired now (update_held now locked_update later) (acquire p)
