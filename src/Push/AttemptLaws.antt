-- ===== src/Push/AttemptLaws.antt =====
-- What an attempt of a lock operation leaves, and what it does not send.
use yalexs_ble.Prelude.{
  ℕ, ◌≡◌, refl, sym, ap, ◌∙◌, subst, ◌+◌, ◌≤◌, arith, Bool, true, false, not, some, if◌then◌else◌,
}
use yalexs_ble.Errors.{Error, runtime_error, operation_incomplete_error, Result, ok, err}
use yalexs_ble.Push.State.{Watcher}
use yalexs_ble.Push.Jam.{ends_a_retry, jam_takes_precedence}
use yalexs_ble.Push.Operation.{attempt_failed, close_operation_window, open_operation_window}
use yalexs_ble.Push.PushLock.{PushLock, complete_operation}
use yalexs_ble.Push.TimerLaws.{complete_operation-Completed}
use yalexs_ble.Push.Events.{on_watcher}
use yalexs_ble.Push.Lifecycle.{is_cancelled}
use yalexs_ble.Push.Run.{World, Progress, then_run, ◌>>=◌, ◌>>◌, modify, ask, connect, force}
use yalexs_ble.Push.Attempts.{
  is_operation_failed, end_a_retry, try_operation, operation_ended, execute_lock_operation,
}

-- The last operation ended then, and the backoff is cleared.
abbrev pub CountsFrom : ℕ → PushLock → Type 0
CountsFrom now p = (p.link.last_operation_complete_time ≡ now) × (p.link.reconnect_backoff ≡ 0)

-- The attempt failed: its window is closed, and the failure is kept for the retry.
abbrev pub Failed : Error → PushLock → Type 0
Failed e p = (p.watcher.operation.window_open ≡ false) × (p.watcher.operation.failure ≡ some e)

abbrev pub Raised : Bool → Bool → Error → ℕ → PushLock → Type 0
Raised true cancelled e now p = CountsFrom now p
Raised false true e now p = Unit
Raised false false e now p = Failed e p

abbrev pub AttemptEnds : Result (Unit {0}) → Progress → Type 0
AttemptEnds (ok _) s = CountsFrom s.now s.lock
AttemptEnds (err e) s = Raised (is_operation_failed e) (is_cancelled e) e s.now s.lock

pub counts_from : (now : ℕ) (p : PushLock) → CountsFrom now (complete_operation now p)
counts_from now p =
    let (last, backoff, alive, timer) = complete_operation-Completed now p in (last, backoff)

operation_ended-AttemptEnds :
    (r : Result (Unit {0})) (s : Progress)
    → AttemptEnds (operation_ended r s).0 (operation_ended r s).1
unfolding operation_ended attempt_failed close_operation_window
operation_ended-AttemptEnds (ok _) s = counts_from s.now s.lock
operation_ended-AttemptEnds (err e) s = handled (is_operation_failed e) (is_cancelled e) refl refl
  where
    handled :
        (failed cancelled : Bool)
        → is_operation_failed e ≡ failed
        → is_cancelled e ≡ cancelled
        → AttemptEnds (operation_ended (err e) s).0 (operation_ended (err e) s).1
    handled true cancelled p q = rw (p, p) (counts_from s.now s.lock)
    handled false true p q = rw (p, q, p, q) tt
    handled false false p q = rw (p, q, p, q) (refl, refl)

ends_a_retry-true :
    (w : Watcher) (e : Error)
    → w.operation.failure ≡ some e
    → w.operation.issued_at ≤ w.jam.last_event_time + 5000
    → ends_a_retry w ≡ true
unfolding ends_a_retry jam_takes_precedence
ends_a_retry-true w e failed jammed = rw failed (ground arith)

module _ (world : World) (s : Progress) (running : s.lock.watcher.running ≡ true) where
  attempt_runs :
      execute_lock_operation world s
      ≡ operation_ended (try_operation world s).0 (try_operation world s).1
  unfolding execute_lock_operation
  attempt_runs =
      ap
        (λ b.
          if not b
          then (err runtime_error, s)
          else operation_ended (try_operation world s).0 (try_operation world s).1)
        running

  -- An attempt of a running watcher that succeeds, or that the lock answers with a failure, counts as
  -- an operation from its end and clears the backoff; one that ends with any other exception but a
  -- cancellation has closed its window and kept the exception for the retry.
  pub execute_lock_operation-AttemptEnds :
      AttemptEnds (execute_lock_operation world s).0 (execute_lock_operation world s).1
  execute_lock_operation-AttemptEnds =
      subst (λ r. AttemptEnds r.0 r.1) (sym attempt_runs)
        (operation_ended-AttemptEnds (try_operation world s).0 (try_operation world s).1)

  -- Once the link is up, an attempt after one that failed sends nothing if the last jam was reported
  -- after the operation was issued, or at most 5 s before: it ends with OperationIncompleteError and
  -- its window closed.
  pub retry_under_precedence-sends_nothing :
      (connect world s).0 ≡ ok tt
      → (e : Error) → (connect world s).1.lock.watcher.operation.failure ≡ some e
      → (connect world s).1.lock.watcher.operation.issued_at
        ≤ (connect world s).1.lock.watcher.jam.last_event_time + 5000
      → ((execute_lock_operation world s).0 ≡ err operation_incomplete_error)
        × ((execute_lock_operation world s).1.asked ≡ (connect world s).1.asked)
        × ((execute_lock_operation world s).1.lock.watcher.operation.window_open ≡ false)
  unfolding try_operation operation_ended attempt_failed close_operation_window
  retry_under_precedence-sends_nothing joined e failed jammed =
      let t = (connect world s).1 in
      let held : ends_a_retry t.lock.watcher ≡ true =
        ends_a_retry-true t.lock.watcher e failed jammed in
      let sends =
        λ (_ : Unit {0}). modify (λ now. on_watcher open_operation_window) >> ask world force in
      let stopped : end_a_retry t ≡ (err operation_incomplete_error, t) = rw held refl in
      let refused : try_operation world s ≡ (err operation_incomplete_error, t) =
        ap (λ r. then_run (λ _. end_a_retry >>= sends) r t) joined
        ∙ ap (λ r. then_run sends r.0 r.1) stopped in
      let ended = attempt_runs ∙ ap (λ r. operation_ended r.0 r.1) refused in
      (
        ap (λ r. r.0) ended,
        ap (λ r. r.1.asked) ended,
        ap (λ r. r.1.lock.watcher.operation.window_open) ended,
      )
