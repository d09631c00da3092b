-- ===== src/Tests/Pushes.antt =====
-- Runs of the watcher.
use yalexs_ble.Prelude.{
  ℕ, zero, suc, ◌≡◌, refl, ◌≤◌, ◌<◌, true, false, ◌&&◌, some, none, is_some, List, [], ◌∷◌, arith,
}
use yalexs_ble.Errors.{activity_log_overrun_error, response_error, Result, ok, err}
use yalexs_ble.Const.{locked, securemode, lock_status}
use yalexs_ble.Push.Display.{lock_operation, securemode_operation}
use yalexs_ble.Push.Scheduler.{never_time}
use yalexs_ble.Push.Retry.{Aftermath, retry_bluetooth_connection_error}
use yalexs_ble.Push.RetryLaws.{Succeeds, FailsTransiently, retry-calls, retry-Succeeds}
use yalexs_ble.Push.State.{Watcher, get_current_state, displayed_status}
use yalexs_ble.Push.Jam.{needs_attention, jam_hold_live, jam_takes_precedence}
use yalexs_ble.Push.Update.{update_any_state}
use yalexs_ble.Push.UpdateLaws.{SecurePlain}
use yalexs_ble.Push.JamLaws.{update_any_state-kept_off, update_any_state-shows, kept_off}
use yalexs_ble.Push.Operation.{
  Steps, stay, step_then, reported, answered, operation_result, finalize_operation,
}
use yalexs_ble.Push.OperationLaws.{Steps-SecurePlain}
use yalexs_ble.Push.PollLaws.{NotBefore, polls_after, finalize_operation-polls}
use yalexs_ble.Push.AnswerLaws.{operation_result-shows}
use yalexs_ble.Lock.Activity.{Drained}
use yalexs_ble.Push.ActivityDrain.{ActivityDrain, activity_drain_due, drain_activity}
use yalexs_ble.Push.ActivityDrainLaws.{exhausted_drain-rests}
use yalexs_ble.Push.Advertisement.{Advertised, read_advertisement}
use yalexs_ble.Push.AdvertisementLaws.{read_advertisement-repeated}
use yalexs_ble.Tests.Data.{jammed_state, jammed_watcher, locked_watcher}

jammed_is_plain : SecurePlain jammed_watcher
unfolding get_current_state
jammed_is_plain = λ e. cc

-- A SECUREMODE report after the hold, then the answer of a command.
abbrev reported_watcher : Watcher
reported_watcher = update_any_state 90040000 (lock_status securemode ∷ []) jammed_watcher

abbrev two_steps : Steps jammed_watcher (operation_result lock_operation true reported_watcher)
two_steps = step_then _ _ _ (reported 90040000 (lock_status securemode ∷ []) jammed_watcher) (
    step_then _ _ _ (answered lock_operation true reported_watcher)
      (stay (operation_result lock_operation true reported_watcher)))

Steps-SecurePlain_example : SecurePlain (operation_result lock_operation true reported_watcher)
Steps-SecurePlain_example = Steps-SecurePlain two_steps jammed_is_plain

held_at_91 : kept_off 90001000 locked jammed_watcher ≡ true
unfolding jam_hold_live
held_at_91 = refl

update_any_state-kept_off_example :
    let w = update_any_state 90001000 (lock_status locked ∷ []) jammed_watcher in
    (w.lock_state ≡ some jammed_state) × (w.published ≡ jammed_state ∷ []) × (w.seen.lock ≡ false)
update_any_state-kept_off_example =
    update_any_state-kept_off 90001000 locked jammed_watcher held_at_91

hold_is_over : kept_off 90040000 locked jammed_watcher ≡ false
unfolding jam_hold_live
hold_is_over = refl

update_any_state-shows_example :
    displayed_status (update_any_state 90040000 (lock_status locked ∷ []) jammed_watcher) ≡ locked
update_any_state-shows_example = update_any_state-shows 90040000 locked jammed_watcher hold_is_over

finalize_operation-polls_example :
    let w = finalize_operation 90003000 true (ok tt) locked_watcher in
    (w.operation.in_flight ≡ false)
    × (w.operation.window_open ≡ false)
    × (w.force_lock_status_poll ≡ true)
    × NotBefore w.scheduler.deferred_update 90009100
    × (is_some w.scheduler.deferred_update ≡ polls_after 90003000 true locked_watcher)
finalize_operation-polls_example = finalize_operation-polls 90003000 true locked_watcher refl

no_precedence :
    (jam_takes_precedence locked_watcher && needs_attention (displayed_status locked_watcher))
    ≡ false
unfolding jam_takes_precedence
no_precedence = refl

operation_result-shows_example :
    (displayed_status (operation_result securemode_operation true locked_watcher) ≡ securemode)
    × ((operation_result securemode_operation true locked_watcher).jam.hold_deadline ≡ never_time)
operation_result-shows_example =
    operation_result-shows securemode_operation locked_watcher refl no_precedence

-- The first attempt fails with a ResponseError, the second succeeds.
abbrev second_succeeds : ℕ → Result ℕ
second_succeeds zero = err response_error
second_succeeds (suc n) = ok 7

abbrev undisturbed : Aftermath
undisturbed = record { report = ok tt; cleanup = ok tt; pause = ok tt }

retry-calls_example :
    ((retry_bluetooth_connection_error
        (λ e. false)
        true
        4
        second_succeeds
        (λ n. true)
        (λ n. undisturbed)
        0).calls
      ≤ 4)
    × ((retry_bluetooth_connection_error
          (λ e. false)
          true
          4
          second_succeeds
          (λ n. true)
          (λ n. undisturbed)
          0).calls
        ≤ 1)
retry-calls_example =
    retry-calls (λ e. false) true 4 0 second_succeeds (λ n. true) (λ n. undisturbed) 0 refl refl

first_fails :
    (j : ℕ)
    → j < 1
    → FailsTransiently
        (λ e. false)
        second_succeeds
        (λ n. false)
        (λ n. undisturbed)
        (λ n. response_error)
        j
first_fails zero h = (refl, refl, (refl, refl, refl), refl, refl)
first_fails (suc j) h = absurd (omega arith)

retry-Succeeds_example :
    Succeeds
      (retry_bluetooth_connection_error
        (λ e. false)
        true
        4
        second_succeeds
        (λ n. false)
        (λ n. undisturbed)
        0)
      7
      2
retry-Succeeds_example =
    retry-Succeeds (λ e. false) true 4 1 second_succeeds (λ n. false) (λ n. undisturbed) 0
      (λ n. response_error) 7 (omega arith) first_fails refl

-- A drain that read nothing and did not end.
abbrev endless : Drained
endless = record { yielded = []; reads = 32; outcome = err activity_log_overrun_error }

abbrev fresh_drain : ActivityDrain
fresh_drain = record {
  primed = true;
  pending = true;
  failures = 0;
  overruns = 0;
  earliest_time = 0;
}

exhausted_drain-rests_example :
    activity_drain_due 90060000 true (drain_activity 90000000 true endless fresh_drain).state
    ≡ false
exhausted_drain-rests_example =
    exhausted_drain-rests 90000000 90060000 true true endless fresh_drain activity_log_overrun_error
      refl refl refl (omega arith)

-- A HomeKit state and a Yale value, neither seen before.
abbrev two_payloads : List (ℕ × List ℕ)
two_payloads =
    (76, 6 ∷ 0 ∷ 0 ∷ 0 ∷ 0 ∷ 0 ∷ 0 ∷ 0 ∷ 0 ∷ 0 ∷ 0 ∷ 9 ∷ 0 ∷ 0 ∷ 0 ∷ []) ∷ (465, 1 ∷ []) ∷ []

abbrev nothing_seen : Advertised
nothing_seen = record { last_adv_value = none; last_hk_state = none }

read_advertisement-repeated_example :
    (read_advertisement two_payloads (read_advertisement two_payloads nothing_seen).1).0 ≡ 0
read_advertisement-repeated_example = read_advertisement-repeated two_payloads nothing_seen refl
