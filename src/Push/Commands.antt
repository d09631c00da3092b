-- ===== src/Push/Commands.antt =====
-- push.py: what the consumers call, from the decorators to the end: the lock operations of
-- `_run_lock_operation`, `_set_auto_lock_or_warn`, the keypad's `_run_on_lock`, `_update` and
-- `validate`; and the update of a deferred update. Each is run with the operation lock held;
-- `_set_auto_lock_or_warn` takes none, and is modelled for the runs in which another task holds it.
-- The callbacks of a lock operation's own command are events of the worlds.
use yalexs_ble.Prelude.{ℕ, [], Bool, true, false, if◌then◌else◌, Option, none, some}
use yalexs_ble.Errors.{Error, Result, ok, err}
use yalexs_ble.Const.{AutoLockState}
use yalexs_ble.Lock.Connection.{finally}
use yalexs_ble.Push.State.{Consumers, callback_result}
use yalexs_ble.Push.Retry.{default_attempts}
use yalexs_ble.Push.Operation.{begin_operation, fail_operation, finalize_result, finalize_operation}
use yalexs_ble.Push.PushLock.{PushLock, is_connected, clear_reconnect_backoff}
use yalexs_ble.Push.Events.{on_watcher}
use yalexs_ble.Push.Lifecycle.{is_cancelled, Coroutine}
use yalexs_ble.Push.Run.{World, Run, ◌>>◌, modify}
use yalexs_ble.Push.Cycle.{locked_update}
use yalexs_ble.Push.Attempts.{execute_lock_operation, write_auto_lock, run_on_lock}
use yalexs_ble.Push.AutoLockWrite.{auto_lock_write_attempts}
use yalexs_ble.Push.RetryRun.{Between, retried}

-- The handler of `_run_lock_operation`: every exception but a cancellation.
abbrev pub note_outcome : Result (Unit {0}) → PushLock → PushLock
note_outcome (ok _) p = p
note_outcome (err e) p = if is_cancelled e then p else on_watcher fail_operation p

-- The `finally`; what it raises replaces what was raised before.
abbrev pub finalized : Consumers → Result (Unit {0}) → Run (Unit {0})
finalized consumers result t =
    let called = callback_result consumers t.lock.lock_info in
    (
      finally result (finalize_result t.now called t.lock.watcher),
      record t { lock = on_watcher (finalize_operation t.now (is_connected t.lock) called) t.lock },
    )

module _ (is_bleak_retry : Error → Bool) (worlds : ℕ → World) (between : ℕ → Between) where
  -- The decorated `_execute_lock_operation`.
  unfoldable pub execute_attempts : Run (Unit {0})
  unfolding retried execute_lock_operation
  execute_attempts =
      retried is_bleak_retry true default_attempts (λ n. execute_lock_operation (worlds n)) between

  -- `_run_lock_operation`; `consumers` is what stands for them at its end.
  unfoldable pub run_lock_operation : Consumers → Run (Unit {0})
  unfolding execute_attempts finalize_result callback_result
  run_lock_operation consumers s =
      let (result, t) =
        execute_attempts (record s { lock = on_watcher (begin_operation s.now) s.lock }) in
      finalized consumers result (record t { lock = note_outcome result t.lock })

  -- The decorated `_locked_update`, and so `_update`.
  unfoldable pub update_attempts : Run (Unit {0})
  unfolding retried locked_update
  update_attempts =
      retried is_bleak_retry false default_attempts (λ n. locked_update (worlds n)) between

  -- The update of `_execute_deferred_update`, begun at a time.
  unfoldable pub deferred_attempts : ℕ → Coroutine
  unfolding update_attempts
  deferred_attempts now p =
      let (result, t) =
        update_attempts (record { lock = p; now = now; asked = []; delivered = [] }) in
      (result, t.lock)

  -- `_set_auto_lock_or_warn`, for what `set_auto_lock_mode` or `set_auto_lock_duration` writes. The
  -- TimeoutError that it raises in place of one has another text.
  unfoldable pub set_auto_lock_attempts : Option AutoLockState → Run (Unit {0})
  unfolding retried write_auto_lock
  set_auto_lock_attempts none s = (ok tt, s)
  set_auto_lock_attempts (some setting) s =
      retried is_bleak_retry false auto_lock_write_attempts
        (λ n. write_auto_lock (worlds n) setting.duration) between s

  -- The decorated `_run_on_lock`; `read` is what the operation returns.
  unfoldable pub run_on_lock_attempts : {A : Type 0} → (ℕ → A) → Run A
  unfolding retried run_on_lock
  run_on_lock_attempts read =
      retried is_bleak_retry false default_attempts (λ n. run_on_lock (worlds n) (read n)) between

  -- `validate`
  unfoldable pub validate : Run (Unit {0})
  unfolding update_attempts clear_reconnect_backoff
  validate = update_attempts >> modify (λ now. clear_reconnect_backoff)
