-- ===== src/Push/LifecycleLaws.antt =====
-- What the end of a deferred update reports and records, and what a stopped watcher still does.
use yalexs_ble.Prelude.{
  ℕ, ◌≡◌, refl, sym, subst, ap, ◌∙◌, ◌≤◌, ◌*◌, min, Bool, true, false, not, ◌&&◌, ◌||◌, is_some,
  ltb, ◌==◌, or_default, arith, if◌then◌else◌,
}
use yalexs_ble.Errors.{
  Error, auth_error, cancelled_error, runtime_error, timeout_error, disconnected_error, bleak_error,
  bleak_dbus_error, bleak_not_found_error, bluetooth_error, yale_error, invalid_state_error, Result,
  ok, err,
}
use yalexs_ble.Push.Scheduler.{
  Scheduler, schedule_with_debounce, schedule_future_update, wait_for_the_floor,
}
use yalexs_ble.Push.Backoff.{finish_update, schedules_reconnect, record_update_outcome}
use yalexs_ble.Push.PushLock.{pending, resolved, PushLock, set_scheduler, schedule_reconnect}
use yalexs_ble.Push.Lifecycle.{
  reported_error, is_cancelled, set_first_update, set_update_state, end_update, handle_update_error,
  update_returned, update_ended, update_held, once_acquired, Coroutine, execute_deferred_update,
}

-- The exception that the future is given for an update's, by its class.
abbrev pub surfaced : Error → Error
surfaced auth_error = auth_error
surfaced cancelled_error = runtime_error
surfaced timeout_error = timeout_error
surfaced disconnected_error = bluetooth_error
surfaced (bleak_error s) = bluetooth_error
surfaced (bleak_dbus_error s) = bluetooth_error
surfaced (bleak_not_found_error s) = bluetooth_error
surfaced e = yale_error

-- What the future is given for an update's end.
abbrev pub reported : Result (Unit {0}) → Result (Unit {0})
reported (ok _) = ok tt
reported (err e) = err (surfaced e)

-- What the task ends with.
abbrev pub passed_on : Result (Unit {0}) → Result (Unit {0})
passed_on (err cancelled_error) = err cancelled_error
passed_on _ = ok tt

-- The pause before a reconnect, from the one before.
abbrev pub paced : Result (Unit {0}) → ℕ → ℕ
paced (ok _) before = 0
paced (err cancelled_error) before = before
paced (err e) before = if before == 0 then 2000 else min 60000 (2 * before)

-- Whether the link is to be brought up again: it is down, the watcher runs and keeps its link up, and
-- fewer than five authentications failed.
abbrev pub reconnects : PushLock → Bool
reconnects p =
    not (or_default p.link.client false)
    && (p.watcher.running && (p.watcher.always_connected && ltb p.auth_failures 5))

-- What the end of an update that returned or raised leaves, from what the update left.
abbrev pub Reported : Result (Unit {0}) → PushLock → Result (Unit {0}) × PushLock → Type 0
Reported updated left (result, p) =
    (p.link.first_update ≡ resolved (reported updated))
    × (result ≡ passed_on updated)
    × (p.link.reconnect_backoff ≡ paced updated left.link.reconnect_backoff)
    × (p.link.update_in_flight ≡ false)
    × (is_some p.watcher.scheduler.deferred_update
        ≡ (is_some left.watcher.scheduler.deferred_update || reconnects left))

reported_error-surfaced : (e : Error) → reported_error e ≡ surfaced e
unfolding reported_error
reported_error-surfaced e = ground arith

finish_update-paced :
    (e : Error) (before : ℕ)
    → finish_update (is_cancelled e) false true before ≡ paced (err e) before
unfolding finish_update record_update_outcome
finish_update-paced cancelled_error before = refl
finish_update-paced e before = ground arith

raised_on : (e : Error) → (if is_cancelled e then err e else ok tt) ≡ passed_on (err e)
raised_on cancelled_error = refl
raised_on e = refl

end_update-fields :
    (now : ℕ) (cancelled yielded failed : Bool) (p : PushLock)
    → ((end_update now cancelled yielded failed p).link.first_update ≡ p.link.first_update)
      × ((end_update now cancelled yielded failed p).link.reconnect_backoff
          ≡ finish_update cancelled yielded failed p.link.reconnect_backoff)
      × ((end_update now cancelled yielded failed p).link.update_in_flight ≡ false)
      × (is_some (end_update now cancelled yielded failed p).watcher.scheduler.deferred_update
          ≡ (is_some p.watcher.scheduler.deferred_update || reconnects p))
unfolding end_update schedule_reconnect schedules_reconnect schedule_with_debounce
    schedule_future_update
end_update-fields now cancelled yielded failed p = ground arith

update_end :
    (later : ℕ) (updated : Result (Unit {0})) (left : PushLock)
    → left.link.first_update ≡ pending
    → Reported updated left (update_ended later updated left)
unfolding update_ended handle_update_error set_update_state
update_end later (ok _) left waiting =
    ground
      (arith, end_update-fields later false false false (set_first_update (resolved (ok tt)) left))
update_end later (err e) left waiting =
    let taken = set_first_update (resolved (err (reported_error e))) left in
    let (kept, backoff, rests, re_armed) =
      end_update-fields later (is_cancelled e) false true taken in
    rw waiting (
      kept ∙ ap (λ r. resolved (err r)) (reported_error-surfaced e),
      raised_on e,
      backoff ∙ finish_update-paced e left.link.reconnect_backoff,
      rests,
      re_armed,
    )

past_the_floor :
    (now : ℕ) (s : Scheduler) → s.earliest_update_time ≤ now → wait_for_the_floor now s ≡ (false, s)
unfolding wait_for_the_floor
past_the_floor now s h = ground arith

module _ (acquire locked_update : Coroutine) (now later : ℕ) (p held left : PushLock)
    (running : p.watcher.running ≡ true) (acquired : acquire p ≡ (ok tt, held))
    (due : held.watcher.scheduler.earliest_update_time ≤ now) where
  update_runs :
      (updated : Result (Unit {0}))
      → locked_update held ≡ (updated, left)
      → execute_deferred_update acquire now locked_update later p ≡ update_ended later updated left
  unfolding execute_deferred_update
  update_runs updated ran =
      ap
        (λ b.
          if not b
          then (ok tt, record p { link = record p.link { update_in_flight = false } })
          else once_acquired now (update_held now locked_update later) (acquire p))
        running
      ∙ ap (once_acquired now (update_held now locked_update later)) acquired
      ∙ ap (λ w. update_body w.0 (set_scheduler w.1 held))
          (past_the_floor now held.watcher.scheduler due)
      ∙ ap (λ u. update_ended later u.0 u.1) ran
    where
      update_body : Bool → PushLock → Result (Unit {0}) × PushLock
      update_body holds waiting =
          if holds
          then (ok tt, end_update now false true true waiting)
          else update_ended later (locked_update waiting).0 (locked_update waiting).1

  -- A deferred update of a running watcher that gets the operation lock and finds the floor past ends
  -- as its update does: a pending first-update future is resolved, for an exception with AuthError or
  -- TimeoutError for the same, BluetoothError for one of bleak or a lost link, RuntimeError for a
  -- cancellation and YaleXSBLEError for the rest; only a cancellation is raised on; the backoff is
  -- cleared by a success, kept by a cancellation, and 2 s after a first failure and doubled by each
  -- further one, up to 60 s; and a deferred update stands if one did before, or if the link is down
  -- and a running watcher is to keep it up, with fewer than five failed authentications.
  pub execute_deferred_update-Reported :
      (updated : Result (Unit {0}))
      → locked_update held ≡ (updated, left)
      → left.link.first_update ≡ pending
      → Reported updated left (execute_deferred_update acquire now locked_update later p)
  execute_deferred_update-Reported updated ran waiting =
      subst (Reported updated left) (sym (update_runs updated ran))
        (update_end later updated left waiting)

  -- Where the future was resolved before and nobody has taken its result, the next update that
  -- succeeds ends the task with InvalidStateError, with the success recorded in the backoff.
  pub second_update_raises :
      (before : Result (Unit {0}))
      → locked_update held ≡ (ok tt, left)
      → left.link.first_update ≡ resolved before
      → ((execute_deferred_update acquire now locked_update later p).0 ≡ err invalid_state_error)
        × ((execute_deferred_update acquire now locked_update later p).1.link.reconnect_backoff ≡ 0)
  unfolding execute_deferred_update update_held update_ended wait_for_the_floor update_returned
      handle_update_error set_update_state finish_update record_update_outcome
  second_update_raises before ran taken =
      ground (arith, end_update-fields later false false false left)
