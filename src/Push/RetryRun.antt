-- ===== src/Push/RetryRun.antt =====
-- push.py: `retry_bluetooth_connection_error` on the watcher's own state, where `Retry` has only what
-- each attempt ends with. `func` is given by the number of the attempt, and so is what reaches the
-- watcher between it and the next.
use yalexs_ble.Prelude.{
  ℕ, zero, suc, ◌+◌, Bool, true, false, ◌&&◌, leb, ◌==◌, if◌then◌else◌, [], ◌∷◌,
}
use yalexs_ble.Errors.{Error, disconnected_error, operation_incomplete_error, Result, ok, err}
use yalexs_ble.Const.{auth}
use yalexs_ble.Util.ErrorTests.{is_disconnected_error}
use yalexs_ble.Push.AuthHistory.{auth_failure_to_start_reauth}
use yalexs_ble.Push.Retry.{is_auth_error, is_not_found_error, is_backoff_error, is_retryable}
use yalexs_ble.Push.State.{Consumers, callback_result}
use yalexs_ble.Push.Jam.{jam_takes_precedence}
use yalexs_ble.Push.Update.{update_any_state, update_result}
use yalexs_ble.Push.PushLock.{PushLock, handle_disconnected}
use yalexs_ble.Push.Events.{handle_events, on_watcher}
use yalexs_ble.Push.Run.{Wait, Progress, Run, ◌>>◌}

-- What the wrapper meets after an attempt: whether the connect lock is held, the wait for the
-- client's disconnect, the pause before the next attempt, each of which may be cancelled, and what
-- stands for the consumers.
pub record Between : Type 0 where
  pub connect_locked : Bool
  pub cleanup : Wait
  pub pause : Wait
  pub consumers : Consumers

-- A wait in which nothing is asked of the lock.
unfoldable pub wait_for : Wait → Run (Unit {0})
wait_for wait s = (wait.outcome, record s { lock = handle_events wait.heard s.lock; now = wait.at })

-- `_async_handle_disconnected`
unfoldable pub clean_up : Between → Run (Unit {0})
unfolding wait_for handle_disconnected
clean_up b s =
    let (disconnects, p) = handle_disconnected b.connect_locked s.lock in
    let left : Progress = record s { lock = p } in
    if disconnects then wait_for b.cleanup left else (ok tt, left)

-- `auth_failed` of the failure history.
unfoldable pub count_auth_failure : PushLock → PushLock
count_auth_failure p = record p { auth_failures = p.auth_failures + 1 }

-- The consumers hear that the key failed.
abbrev pub report_auth_failure : ℕ → PushLock → PushLock
report_auth_failure now =
    on_watcher (update_any_state now (auth (record { successful = false }) ∷ []))

-- What the call of the consumers raises, else the error that they were told of.
abbrev pub report_error : ℕ → Error → Between → PushLock → Error
report_error now e b p =
    elim (update_result now (auth (record { successful = false }) ∷ [])
      (callback_result b.consumers p.lock_info) p.watcher) [ err raised ↦ raised | ok _ ↦ e ]

abbrev pub pause_if : Bool → Between → Run (Unit {0})
pause_if pauses b s = if pauses then wait_for b.pause s else (ok tt, s)

-- What a handler raises in place of the error that exhausted the attempts.
abbrev pub exhausted_error : Error → Error
exhausted_error e = if is_disconnected_error e then disconnected_error else e

module _ {A : Type 0} (lock_operation : Bool) where
  -- The end of a turn whose attempt failed; past the last one, the end of the wrapper.
  unfoldable pub end_turn : Bool → Bool → Between → Run A → Run A
  unfolding wait_for jam_takes_precedence
  end_turn is_last pauses b rest s =
      if is_last
      then (err disconnected_error, s)
      else if lock_operation && jam_takes_precedence s.lock.watcher
      then (err operation_incomplete_error, s)
      else (pause_if pauses b >> rest) s

module _ {A : Type 0} (is_bleak_retry : Error → Bool) (lock_operation : Bool) where
  -- The handler of `AuthError`.
  unfoldable pub recover_auth : Bool → Error → Between → Run A → Run A
  unfolding count_auth_failure end_turn update_result callback_result
  recover_auth is_last e b rest s =
      let counted : Progress = record s { lock = count_auth_failure s.lock } in
      if leb auth_failure_to_start_reauth counted.lock.auth_failures
      then (
        err (report_error s.now e b counted.lock),
        record counted { lock = report_auth_failure s.now counted.lock },
      )
      else end_turn lock_operation is_last true b rest counted

  -- The handler of `RETRYABLE_EXCEPTIONS`.
  unfoldable pub recover_link : Bool → Error → Between → Run A → Run A
  unfolding clean_up end_turn
  recover_link is_last e b rest = clean_up b >> λ s.
      if is_last
      then (err (exhausted_error e), s)
      else end_turn lock_operation is_last (is_backoff_error e) b rest s

  -- The handlers.
  unfoldable pub recover : Bool → Error → Between → Run A → Run A
  unfolding recover_auth recover_link
  recover is_last e b rest s =
      if is_auth_error e
      then recover_auth is_last e b rest s
      else if is_not_found_error e
      then (err e, s)
      else if is_retryable is_bleak_retry e
      then recover_link is_last e b rest s
      else (err e, s)

  abbrev pub recovered : Bool → Between → Run A → Result A × Progress → Result A × Progress
  recovered is_last b rest (ok a, s) = (ok a, s)
  recovered is_last b rest (err e, s) = recover is_last e b rest s

  -- The loop: `left` attempts are left, `attempt` have run.
  unfoldable pub run_attempts : ℕ → ℕ → (ℕ → Run A) → (ℕ → Between) → Run A
  unfolding recover
  run_attempts zero attempt func between s = (err disconnected_error, s)
  run_attempts (suc left) attempt func between s =
      recovered (left == 0) (between attempt) (run_attempts left (suc attempt) func between)
        (func attempt s)

  -- The wrapper with its `attempts`.
  unfoldable pub retried : ℕ → (ℕ → Run A) → (ℕ → Between) → Run A
  unfolding run_attempts
  retried attempts func between = run_attempts attempts 0 func between
