-- ===== src/Push/CommandLaws.antt =====
-- What a whole lock operation asks of the lock and leaves, however its attempts end.
use yalexs_ble.Prelude.{
  ℕ, ◌≡◌, refl, ap, ◌∙◌, ◌+◌, ◌≤◌, Bool, true, false, not, List, ◌∷◌, arith, if◌then◌else◌,
}
use yalexs_ble.Errors.{Error, runtime_error, Result, ok, err}
use yalexs_ble.Lock.Connection.{finally}
use yalexs_ble.Push.State.{Watcher, Consumers, callback_result}
use yalexs_ble.Push.Jam.{reset_jam_state}
use yalexs_ble.Push.Scheduler.{
  hold_update, cancel_future_update, schedule_with_debounce, schedule_future_update,
}
use yalexs_ble.Push.Operation.{
  begin_operation, open_operation_window, finalize_operation, end_operation, show_outcome,
  schedule_after_operation, attempt_failed, unanswered_outcome, schedule_if, finalize_result,
}
use yalexs_ble.Push.PollLaws.{show_outcome-SameControl}
use yalexs_ble.Push.PushLock.{PushLock, is_connected}
use yalexs_ble.Push.Events.{on_watcher}
use yalexs_ble.Push.Lifecycle.{is_cancelled}
use yalexs_ble.Push.Run.{Ask, force, World, Progress, ◌>>◌, modify, ask, connect}
use yalexs_ble.Push.Attempts.{
  completes, is_operation_failed, end_a_retry, try_operation, operation_ended,
  execute_lock_operation,
}
use yalexs_ble.Push.AttemptLaws.{CountsFrom, counts_from}
use yalexs_ble.Push.RetryRun.{Between}
use yalexs_ble.Push.RetryRunLaws.{
  motions, Leaves, Runs, raised-Leaves, if-Leaves, then-Leaves, retried-Runs,
}
use yalexs_ble.Push.Commands.{note_outcome, execute_attempts, run_lock_operation}

-- The last thing asked of the lock is a motion.
abbrev pub MovedLast : Progress → Type 0
MovedLast s = (earlier : List Ask) × (s.asked ≡ force ∷ earlier)

abbrev Moved : Unit {0} → Progress → Type 0
Moved u s = MovedLast s

-- An operation that returned: it counts from its end.
abbrev pub Performed : Unit {0} → Progress → Type 0
Performed u s = MovedLast s × CountsFrom s.now s.lock

module _ (world : World) where
  ask-Moved : Runs Moved 1 (ask world force)
  unfolding ask
  ask-Moved s = (omega arith, λ a h. (s.asked, refl))

  window-Moved : Runs Moved 1 (modify (λ now. on_watcher open_operation_window) >> ask world force)
  window-Moved s =
      then-Leaves Moved 1 (ask world force) (modify (λ now. on_watcher open_operation_window) s)
        s.asked ask-Moved refl

  end_a_retry-Moved :
      Runs Moved 1
        (end_a_retry >> (modify (λ now. on_watcher open_operation_window) >> ask world force))
  end_a_retry-Moved s = then-Leaves Moved 1 _ (end_a_retry s) s.asked window-Moved (ground arith)

  try_operation-Moved : Runs Moved 1 (try_operation world)
  unfolding try_operation connect
  try_operation-Moved s = then-Leaves Moved 1 _ (connect world s) s.asked end_a_retry-Moved refl

-- The end of an attempt keeps what was asked.
operation_ended-Performed :
    (asked : List Ask) (r : Result (Unit {0}) × Progress)
    → Leaves Moved 1 asked r
    → Leaves Performed 1 asked (operation_ended r.0 r.1)
unfolding operation_ended
operation_ended-Performed asked (ok tt, s) (few, moved) =
    (few, λ a h. (moved tt refl, counts_from s.now s.lock))
operation_ended-Performed asked (err e, s) (few, moved) =
    if-Leaves Performed 1 asked (is_operation_failed e) _ _
      (raised-Leaves Performed 1 asked e (completes s).1 few)
      (if-Leaves Performed 1 asked (is_cancelled e) _ _ (raised-Leaves Performed 1 asked e s few) (
        raised-Leaves Performed 1 asked e (record s { lock = on_watcher (attempt_failed e) s.lock })
          few))

execute_lock_operation-Performed : (world : World) → Runs Performed 1 (execute_lock_operation world)
unfolding execute_lock_operation
execute_lock_operation-Performed world s =
    if-Leaves Performed 1 s.asked (not s.lock.watcher.running) _ _
      (raised-Leaves Performed 1 s.asked runtime_error s (omega arith))
      (operation_ended-Performed s.asked (try_operation world s) (try_operation-Moved world s))

-- No operation runs, the next poll reads the position, and it waits for the floor.
abbrev pub Finished : ℕ → Watcher → Type 0
Finished now w =
    (w.operation.in_flight ≡ false)
    × (w.operation.window_open ≡ false)
    × (w.force_lock_status_poll ≡ true)
    × (w.scheduler.earliest_update_time ≡ now + 6100)

scheduled-Finished :
    (now : ℕ) (is_connected : Bool) (w : Watcher)
    → Finished now w
    → Finished now (schedule_after_operation now is_connected w)
unfolding schedule_after_operation schedule_with_debounce schedule_future_update
    cancel_future_update
scheduled-Finished now is_connected w finished = ground (arith, finished)

if_scheduled-Finished :
    (r : Result (Unit {0})) (now : ℕ) (is_connected : Bool) (w : Watcher)
    → Finished now w
    → Finished now (schedule_if r now is_connected w)
if_scheduled-Finished (err e) now is_connected w finished = finished
if_scheduled-Finished (ok _) now is_connected w finished =
    scheduled-Finished now is_connected w finished

finalize_operation-Finished :
    (now : ℕ) (is_connected : Bool) (called : Result (Unit {0})) (w : Watcher)
    → Finished now (finalize_operation now is_connected called w)
unfolding finalize_operation end_operation hold_update reset_jam_state
finalize_operation-Finished now is_connected called w =
    let outcome = unanswered_outcome w in
    let (runs, always, jam, operation, scheduler, polls) =
      show_outcome-SameControl now outcome (end_operation now w) in
    if-Finished (not w.running) _ _ (refl, refl, refl, refl)
      (if_scheduled-Finished (finalize_result now called w) now is_connected
        (show_outcome now outcome (end_operation now w))
        (
          ap (λ o. o.in_flight) operation,
          ap (λ o. o.window_open) operation,
          polls,
          ap (λ s. s.earliest_update_time) scheduler,
        ))
  where
    if-Finished :
        (b : Bool) (u v : Watcher)
        → Finished now u
        → Finished now v
        → Finished now (if b then u else v)
    if-Finished true u v f g = f
    if-Finished false u v f g = g

finally-ok : (before end : Result (Unit {0})) → finally before end ≡ ok tt → before ≡ ok tt
finally-ok before end returned = ground arith

note_outcome-link : (r : Result (Unit {0})) (p : PushLock) → (note_outcome r p).link ≡ p.link
note_outcome-link r p = ground arith

module _ (is_bleak_retry : Error → Bool) (worlds : ℕ → World) (between : ℕ → Between) where
  -- However its attempts, the waits between them and its handlers end, whatever is reported
  -- meanwhile, and whether or not the consumers can be called at the end, a lock operation asks the lock to move at most four times, and at its end it is no
  -- longer in flight, its window is closed, and the next poll reads the position, no sooner than
  -- 6.1 s later. If it returns, the last thing it asked was a motion, and it counts as an
  -- operation from its end, with the reconnect backoff cleared.
  pub run_lock_operation-Finished :
      (consumers : Consumers) (s : Progress)
      → let (result, end) = run_lock_operation is_bleak_retry worlds between consumers s in
        (motions end.asked ≤ motions s.asked + 4)
        × Finished end.now end.lock.watcher
        × (result ≡ ok tt → Performed tt end)
  unfolding run_lock_operation execute_attempts
  run_lock_operation-Finished consumers s =
      let begun : Progress = record s { lock = on_watcher (begin_operation s.now) s.lock } in
      let (result, t) = execute_attempts is_bleak_retry worlds between begun in
      let (few, performed) =
        retried-Runs Performed is_bleak_retry true 4 (λ n. execute_lock_operation (worlds n))
          between (λ n. execute_lock_operation-Performed (worlds n)) begun in
      (
        few,
        finalize_operation-Finished t.now (is_connected (note_outcome result t.lock))
            (callback_result consumers (note_outcome result t.lock).lock_info)
            (note_outcome result t.lock).watcher,
        λ returned.
            let (moved, counts) = performed tt (finally-ok result _ returned) in
            (
              moved,
              (
                ap (λ l. l.last_operation_complete_time) (note_outcome-link result t.lock)
                    ∙ counts.0,
                ap (λ l. l.reconnect_backoff) (note_outcome-link result t.lock) ∙ counts.1,
              ),
            ),
      )
