-- ===== src/Push/Cycle.antt =====
-- push.py: one update cycle, `_locked_update`, one attempt of it, and `_keep_link_alive`.
use yalexs_ble.Prelude.{
  ℕ, Bool, true, false, not, ◌&&◌, ◌||◌, none, some, ◌++◌, is_some, if◌then◌else◌,
}
use yalexs_ble.Errors.{Error, Result, ok, err}
use yalexs_ble.Const.{LockInfo, door_sense}
use yalexs_ble.Push.State.{callback_state, get_current_state}
use yalexs_ble.Push.ActivityDrain.{DrainEffect, drain_activity, activity_prime_delay}
use yalexs_ble.Push.PushLock.{
  PushLock, schedule, is_connected, first_connection_disconnect_time, reset_disconnect_timer,
  reschedule_next_keep_alive, floor_outlasts_the_link,
}
use yalexs_ble.Push.Lifecycle.{is_cancelled}
use yalexs_ble.Push.Run.{
  door_status, drain, slow_params, World, Progress, Run, ◌>>=◌, ◌>>◌, return, modify, called, ask,
  connect,
}
use yalexs_ble.Push.Reads.{learn_info, poll_battery, make_reads, drain_due}

-- The consumers hear of the end of the reads.
abbrev pub publish : World → Run (Unit {0})
publish world s = (
  called world s,
  record s {
    lock = record s.lock {
      watcher = callback_state (get_current_state s.lock.watcher) s.lock.watcher;
    };
  },
)

abbrev pub set_pending : Bool → PushLock → PushLock
set_pending b p = record p { watcher = record p.watcher { activity_drain_pending = b } }

-- What the end of a drain does, with what was delivered.
unfoldable pub drain_ended : DrainEffect → Run Bool
drain_ended effect s =
    let drained : PushLock =
      set_pending effect.state.pending (record s.lock { drain = effect.state }) in
    let end : Progress = record s {
      lock = (if effect.continues then schedule s.now activity_prime_delay drained else drained);
      delivered = s.delivered ++ effect.delivered;
    } in
    elim effect.raised [ none ↦ (ok true, end) | some e ↦ (err e, end) ]

-- `_drain_activity`
unfoldable pub run_drain : World → Run Bool
unfolding drain_ended ask
run_drain world s =
    let after = (ask world drain (record s { lock = set_pending false s.lock })).1 in
    drain_ended
      (drain_activity after.now after.lock.watcher.activity_drain_pending world.drained
        after.lock.drain)
      after

-- `_poll_activity`
unfoldable pub poll_activity : World → Bool → Bool → Run Bool
unfolding run_drain
poll_activity world first_update made s =
    if not (drain_due s.now s.lock)
    then (ok made, s)
    else if first_update
    then (ok made, record s { lock = schedule s.now activity_prime_delay s.lock })
    else run_drain world s

-- The first update frees the connection soon.
unfoldable pub free_connection : ℕ → PushLock → PushLock
unfolding reset_disconnect_timer
free_connection now p =
    reset_disconnect_timer now (record p {
      link = record p.link { next_disconnect_delay = first_connection_disconnect_time };
    })

-- `_set_slow_connection_params`, on how the request ended: only a cancellation is raised.
unfoldable pub slow_params_answered : Result (Unit {0}) → Run (Unit {0})
slow_params_answered (ok _) s = (
  ok tt,
  record s { lock = record s.lock { link = record s.lock.link { slow_params_set = true } } },
)
slow_params_answered (err e) s = if is_cancelled e then (err e, s) else (ok tt, s)

unfoldable pub slow_down : World → Bool → Run (Unit {0})
unfolding slow_params_answered ask
slow_down world made s =
    if not (s.lock.watcher.always_connected && made) || s.lock.link.slow_params_set
    then (ok tt, s)
    else slow_params_answered (ask world slow_params s).0 (ask world slow_params s).1

-- A request was made: the keep-alive counts from it.
unfoldable pub count_request : ℕ → PushLock → PushLock
unfolding reschedule_next_keep_alive
count_request now p =
    reschedule_next_keep_alive now
      (record p { link = record p.link { last_operation_complete_time = now } })

abbrev pub free_if : Bool → Run (Unit {0})
free_if first_update = modify (λ now p. if first_update then free_connection now p else p)

abbrev pub count_if : Bool → Run (Unit {0})
count_if made = modify (λ now p. if made then count_request now p else p)

-- From the end of the last read on.
unfoldable pub settle_link : World → Bool → Bool → Run (Unit {0})
unfolding free_connection slow_down count_request
settle_link world first_update made = do free_if first_update; slow_down world made; count_if made

-- From the publication on.
unfoldable pub end_cycle : World → Bool → Bool → Run (Unit {0})
unfolding poll_activity settle_link
end_cycle world first_update read = do
  publish world
  made ← poll_activity world first_update read
  settle_link world first_update made

-- `_locked_update`, one attempt of it.
unfoldable pub locked_update : World → Run (Unit {0})
unfolding connect learn_info make_reads end_cycle
locked_update world s =
    (do
      connect world
      learn_info world
      read ← make_reads world
      end_cycle world (not (is_some s.lock.lock_info)) read)
      s

-- The `try` of `_keep_link_alive`.
unfoldable pub keep_alive_reads : World → LockInfo → Run Bool
unfolding poll_battery ask
keep_alive_reads world info = do
  asked ← poll_battery world true
  if not asked && door_sense info then (do ask world door_status; return true) else return asked

abbrev pub count_asked : Result Bool → Progress → Progress
count_asked (ok true) s = record s { lock = count_request s.now s.lock }
count_asked _ s = s

-- What `_keep_link_alive` handles; `is_bleak_retry` as in `Retry`.
unfoldable pub keep_alive_ended :
    (Error → Bool) → Result Bool × Progress → Result (Unit {0}) × Progress
unfolding count_request
keep_alive_ended handles (ok asked, s) = (ok tt, count_asked (ok asked) s)
keep_alive_ended handles (err e, s) = (if handles e then ok tt else err e, s)

-- `_keep_link_alive`, once it holds the operation lock; `handles` tells the errors that it handles,
-- `(TimeoutError, *RETRYABLE_EXCEPTIONS)`.
unfoldable pub keep_link_alive : (Error → Bool) → World → Run (Unit {0})
unfolding connect keep_alive_reads keep_alive_ended floor_outlasts_the_link
keep_link_alive handles world s =
    if not s.lock.watcher.running
      || (not (is_connected s.lock) || not (floor_outlasts_the_link s.lock))
    then (ok tt, s)
    else let (joined, linked) = connect world s in
      elim joined [
        | err e ↦ (err e, linked)
        | ok _ ↦ elim linked.lock.lock_info [
          | none ↦ (ok tt, linked)
          | some info ↦ keep_alive_ended handles (keep_alive_reads world info linked)
        ]
      ]
