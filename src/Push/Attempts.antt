-- ===== src/Push/Attempts.antt =====
-- push.py: one attempt of what the consumers call: `_execute_lock_operation`, `_set_auto_lock` and
-- `_run_on_lock`. `RetryRun` runs the attempts; what ends a lock operation is in `Operation`.
use yalexs_ble.Prelude.{ℕ, Bool, true, false, not, List, [], ◌∷◌, any, ◌==◌, if◌then◌else◌}
use yalexs_ble.Errors.{
  Error, runtime_error, value_error, operation_incomplete_error, operation_failed_error, Result, ok,
  err,
}
use yalexs_ble.Push.Scheduler.{cancel_future_update}
use yalexs_ble.Push.AutoLockRead.{write_confirmed}
use yalexs_ble.Push.Jam.{ends_a_retry}
use yalexs_ble.Push.Operation.{open_operation_window, attempt_failed}
use yalexs_ble.Push.PushLock.{PushLock, set_scheduler, complete_operation}
use yalexs_ble.Push.Events.{on_watcher}
use yalexs_ble.Push.Lifecycle.{is_cancelled}
use yalexs_ble.Push.Run.{
  set_auto_lock, keypad, force, World, Run, ◌>>◌, return, modify, ask, connect,
}

-- `if not self._running: raise RuntimeError(…)`, before the `try`.
abbrev pub if_running : {A : Type 0} → Run A → Run A
if_running body s = if not s.lock.watcher.running then (err runtime_error, s) else body s

-- The end of an operation, from the time it ends at.
abbrev pub completes : Run (Unit {0})
completes = modify complete_operation

abbrev pub cancels_update : Run (Unit {0})
cancels_update = modify λ now p. set_scheduler (cancel_future_update p.watcher.scheduler) p

abbrev pub is_operation_failed : Error → Bool
is_operation_failed (operation_failed_error _) = true
is_operation_failed _ = false

-- `_end_a_retry_under_precedence`
abbrev pub end_a_retry : Run (Unit {0})
end_a_retry s =
    if ends_a_retry s.lock.watcher then (err operation_incomplete_error, s) else (ok tt, s)

-- The `try` of `_execute_lock_operation`.
unfoldable pub try_operation : World → Run (Unit {0})
unfolding connect ask
try_operation world = do
  connect world
  end_a_retry
  modify (λ now. on_watcher open_operation_window)
  ask world force

-- Its handlers, and the end after it; a cancellation has no handler.
unfoldable pub operation_ended : Result (Unit {0}) → Run (Unit {0})
operation_ended (ok _) s = completes s
operation_ended (err e) s =
    if is_operation_failed e
    then (err e, (completes s).1)
    else if is_cancelled e
    then (err e, s)
    else (err e, record s { lock = on_watcher (attempt_failed e) s.lock })

-- `_execute_lock_operation`, one attempt of it.
unfoldable pub execute_lock_operation : World → Run (Unit {0})
unfolding try_operation operation_ended
execute_lock_operation world =
    if_running (λ s. operation_ended (try_operation world s).0 (try_operation world s).1)

-- `auto_lock_durations`
abbrev pub auto_lock_durations : List ℕ
auto_lock_durations = 0 ∷ 10 ∷ 30 ∷ 60 ∷ 90 ∷ 120 ∷ 150 ∷ 180 ∷ 240 ∷ 300 ∷ 600 ∷ 1200 ∷ 1800 ∷ []

abbrev pub is_duration : ℕ → Bool
is_duration duration = any (λ d. d == duration) auto_lock_durations

-- A confirmed write: the setting is to be read again at once.
abbrev pub forget_setting : PushLock → PushLock
forget_setting = on_watcher λ w. record w {
  auto_lock_read = write_confirmed w.auto_lock_read;
  seen = record w.seen { auto_lock = false };
}

-- `_set_auto_lock`, one attempt of it.
unfoldable pub write_auto_lock : World → ℕ → Run (Unit {0})
unfolding connect ask write_confirmed
write_auto_lock world duration = if_running λ s.
    if not (is_duration duration)
    then (err value_error, s)
    else (do
      connect world
      cancels_update
      ask world set_auto_lock
      modify (λ now. forget_setting)
      completes)
        s

-- `_run_on_lock`, one attempt of it; `read` is what the operation returns.
unfoldable pub run_on_lock : {A : Type 0} → World → A → Run A
unfolding connect ask
run_on_lock world read =
    if_running do connect world; cancels_update; ask world keypad; completes; return read
