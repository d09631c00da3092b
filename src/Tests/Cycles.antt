-- ===== src/Tests/Cycles.antt =====
-- Runs of an update cycle and of the attempts of an operation.
use yalexs_ble.Prelude.{ℕ, arith, ◌≡◌, ◌≤◌, ◌+◌, refl, true, false, none, some}
use yalexs_ble.Errors.{ok, err, response_error, operation_incomplete_error}
use yalexs_ble.Const.{battery_reporting}
use yalexs_ble.Push.State.{get_current_state, callback_state}
use yalexs_ble.Push.Update.{update_any_state, apply_changes, update_value, replace}
use yalexs_ble.Push.AutoLockRead.{setting_gate, setting_answered}
use yalexs_ble.Push.ActivityDrain.{activity_drain_due}
use yalexs_ble.Push.Connect.{ensure_connected, record_auth_success}
use yalexs_ble.Push.Run.{Progress, connect}
use yalexs_ble.Push.Cycle.{locked_update}
use yalexs_ble.Push.AskOrder.{Descends}
use yalexs_ble.Push.CycleLaws.{locked_update-Descends}
use yalexs_ble.Push.ReturnLaws.{AnswersAll, locked_update-returns}
use yalexs_ble.Push.RequestLaws.{Counted, locked_update-Counted}
use yalexs_ble.Push.Attempts.{execute_lock_operation}
use yalexs_ble.Push.AttemptLaws.{retry_under_precedence-sends_nothing}
use yalexs_ble.Push.PushLock.{PushLock, pending}
use yalexs_ble.Push.Lifecycle.{Coroutine, execute_deferred_update}
use yalexs_ble.Push.LifecycleLaws.{Reported, execute_deferred_update-Reported}
use yalexs_ble.Push.RetryRun.{Between}
use yalexs_ble.Push.Commands.{deferred_attempts}
use yalexs_ble.Tests.WatcherData.{
  connected_watcher, linked_lock, prompt, served, prompt_world, begun,
}

locked_update-Descends_example : Descends 7 (locked_update prompt_world begun).1.asked
locked_update-Descends_example = locked_update-Descends prompt_world begun refl

answers : AnswersAll prompt_world
answers = ((λ n. refl), refl, refl, λ n h. refl)

locked_update-returns_example : (locked_update prompt_world begun).0 ≡ ok tt
locked_update-returns_example = locked_update-returns prompt_world answers begun

returns : (locked_update prompt_world begun).0 ≡ ok tt
returns = locked_update-returns prompt_world answers begun

locked_update-Counted_example : Counted (locked_update prompt_world begun).1
locked_update-Counted_example =
    locked_update-Counted prompt_world (λ p. refl) begun refl refl refl returns

-- A failed attempt was made of a command, and a jam was reported since it was issued.
abbrev retrying : Progress
retrying = record begun {
  lock = record linked_lock {
    watcher = record linked_lock.watcher {
      jam = record { hold_deadline = 0; hold_timer = none; last_event_time = 90009000 };
      operation = record linked_lock.watcher.operation {
        in_flight = true;
        issued_at = 90008000;
        failure = some response_error;
      };
    };
  };
}

joins : (connect prompt_world retrying).0 ≡ ok tt
unfolding connect ensure_connected
joins = refl

keeps_failure :
    (connect prompt_world retrying).1.lock.watcher.operation.failure ≡ some response_error
unfolding connect ensure_connected
keeps_failure = refl

precedes :
    (connect prompt_world retrying).1.lock.watcher.operation.issued_at
    ≤ (connect prompt_world retrying).1.lock.watcher.jam.last_event_time + 5000
unfolding connect ensure_connected
precedes = omega arith

retry_under_precedence-sends_nothing_example :
    let end = execute_lock_operation prompt_world retrying in
    (end.0 ≡ err operation_incomplete_error)
    × (end.1.asked ≡ (connect prompt_world retrying).1.asked)
    × (end.1.lock.watcher.operation.window_open ≡ false)
retry_under_precedence-sends_nothing_example =
    retry_under_precedence-sends_nothing prompt_world retrying refl joins response_error
      keeps_failure precedes

-- The task of a deferred update, with the cycle as its update.
abbrev updating : PushLock
updating = record linked_lock {
  watcher = record connected_watcher {
    scheduler = record { deferred_update = none; earliest_update_time = 0 };
  };
  link = record linked_lock.link { update_in_flight = true; first_update = pending };
}

abbrev acquires : Coroutine
acquires p = (ok tt, p)

abbrev quiet : ℕ → Between
quiet n = record {
  connect_locked = false;
  cleanup = prompt n;
  pause = prompt n;
  consumers = served;
}

abbrev cycle : Coroutine
cycle = deferred_attempts (λ e. false) (λ n. prompt_world) quiet 90010000

still_pending : (cycle updating).1.link.first_update ≡ pending
unfolding deferred_attempts ensure_connected battery_reporting setting_gate setting_answered
    record_auth_success update_any_state apply_changes update_value get_current_state callback_state
    activity_drain_due replace
still_pending = refl

execute_deferred_update-Reported_example :
    Reported
      (cycle updating).0
      (cycle updating).1
      (execute_deferred_update acquires 90010000 cycle 90012000 updating)
execute_deferred_update-Reported_example =
    execute_deferred_update-Reported acquires cycle 90010000 90012000 updating updating
      (cycle updating).1 refl refl (omega arith) (cycle updating).0 refl still_pending
