-- ===== src/Tests/Commands.antt =====
-- Runs of whole operations, with their attempts.
use yalexs_ble.Prelude.{
  ℕ, ◌≡◌, refl, none, ◌&&◌, if◌then◌else◌, ◌+◌, ◌≤◌, true, false, [], ◌∷◌, arith,
}
use yalexs_ble.Errors.{ok, err, response_error, auth_error, assertion_error}
use yalexs_ble.Const.{jammed, lock_status}
use yalexs_ble.Push.Display.{project_lock_status}
use yalexs_ble.Push.State.{get_current_state}
use yalexs_ble.Push.Jam.{admit_lock_status, ends_a_retry}
use yalexs_ble.Push.Update.{update_any_state, apply_changes, update_value}
use yalexs_ble.Push.Operation.{attempt_failed, open_operation_window}
use yalexs_ble.Push.Connect.{ensure_connected}
use yalexs_ble.Push.Events.{reports, handle_event}
use yalexs_ble.Push.Run.{Wait, World, Progress, return}
use yalexs_ble.Push.Attempts.{execute_lock_operation}
use yalexs_ble.Push.RetryRun.{Between, run_attempts, recover}
use yalexs_ble.Push.ReportLaws.{untold, cannot_be_called, recover-masks}
use yalexs_ble.Push.RetryRunLaws.{motions}
use yalexs_ble.Push.Commands.{run_lock_operation}
use yalexs_ble.Push.CommandLaws.{Finished, Performed, run_lock_operation-Finished}
use yalexs_ble.Push.PrecedenceLaws.{Precedes}
use yalexs_ble.Push.JamStopLaws.{run_attempts-stops_at_jam}
use yalexs_ble.Tests.WatcherData.{linked_lock, prompt, served, prompt_world, begun}

abbrev quiet : ℕ → Between
quiet n = record {
  connect_locked = false;
  cleanup = prompt n;
  pause = prompt n;
  consumers = served;
}

run_lock_operation-Finished_example :
    let (result, end) = run_lock_operation (λ e. false) (λ n. prompt_world) quiet served begun in
    (motions end.asked ≤ motions begun.asked + 4)
    × Finished end.now end.lock.watcher
    × (result ≡ ok tt → Performed tt end)
run_lock_operation-Finished_example =
    run_lock_operation-Finished (λ e. false) (λ n. prompt_world) quiet served begun

-- The lock reports a jam while the command is written, and does not answer it.
abbrev jams : ℕ → Wait
jams n = record {
  heard = reports 90011000 (lock_status jammed ∷ []) ∷ [];
  at = 90012000;
  outcome = err response_error;
}

abbrev jamming_world : World
jamming_world = record prompt_world { waits = jams }

abbrev issued : Progress
issued = record begun {
  lock = record linked_lock {
    watcher = record linked_lock.watcher {
      operation = record linked_lock.watcher.operation { in_flight = true; issued_at = 90010000 };
    };
  };
}

in_favour_of_jam : Precedes 90010000 (execute_lock_operation jamming_world issued).1.lock.watcher
unfolding execute_lock_operation ensure_connected ends_a_retry attempt_failed handle_event
    update_any_state apply_changes update_value admit_lock_status get_current_state
    open_operation_window project_lock_status
in_favour_of_jam = (refl, omega arith)

run_attempts-stops_at_jam_example :
    let first = execute_lock_operation jamming_world issued in
    let end =
      run_attempts (λ e. false) true 4 0 (λ n. execute_lock_operation jamming_world) quiet issued in
    (end.1.asked ≡ first.1.asked) × ((a : Unit {0}) → end.0 ≡ ok a → first.0 ≡ ok a)
run_attempts-stops_at_jam_example =
    run_attempts-stops_at_jam (λ e. false) 90010000 (λ n. execute_lock_operation jamming_world)
      quiet 3 0 issued in_favour_of_jam tt

-- A consumer registered before the first update, while the key is wrong.
abbrev wrong_key : Progress
wrong_key = record begun {
  lock = record linked_lock {
    watcher = record linked_lock.watcher { lock_state = none };
    lock_info = none;
    auth_failures = 4;
  };
}

recover-masks_example :
    let (result, end) =
      recover (λ e. false) false false auth_error (quiet 0) (return tt) wrong_key in
    (result
      ≡ err (
          if untold wrong_key.lock.watcher && cannot_be_called served wrong_key
          then assertion_error
          else auth_error))
    × (end.asked ≡ wrong_key.asked)
recover-masks_example =
    recover-masks (λ e. false) false false (quiet 0) (return tt) wrong_key (omega arith)
