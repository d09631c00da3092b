-- ===== src/Tests/Sessions.antt =====
-- Runs of a session.
use yalexs_ble.Prelude.{
  ℕ, ◌≡◌, refl, true, false, none, some, [], ◌∷◌, get_elem?, ◌&&◌, not, ◌⊎◌, ◌≤◌,
}
use yalexs_ble.Errors.{ok, err, timeout_error, value_error}
use yalexs_ble.Util.Checksum.{simple_checksum}
use yalexs_ble.Session.Frame.{validate_response}
use yalexs_ble.Session.State.{
  Session, Matcher, fresh_progress, final_stage, admits, resolved, pending,
}
use yalexs_ble.Session.Notify.{decrypt, take_ack, take_answer, deliver, admit, notify}
use yalexs_ble.Session.Admission.{IsFrame, Answers, notify-Answers}
use yalexs_ble.Session.Write.{arm_wait, write_once, write_attempts, locked_write, hear, is_rejected}
use yalexs_ble.Session.WriteLaws.{locked_write_answers, locked_write_retries}
use yalexs_ble.Session.Operation.{
  arm_operation, disarm_operation, await_result, await_ack, staged_wait, locked_write_operation,
}
use yalexs_ble.Session.OperationLaws.{locked_write_operation_answers}
use yalexs_ble.Session.Execute.{operation_result}
use yalexs_ble.Session.ExecuteLaws.{retryable_failure_is_early}
use yalexs_ble.Lock.Matchers.{poll_response_matcher, operation_response_matcher, ack_matcher}
use yalexs_ble.Session.Notifications.{Starting}
use yalexs_ble.Tests.Data.{
  status_frame, result_frame, counting_cipher, idle_session, answering, operating,
}

-- The waits of a lock poll.
abbrev lock_poll : Matcher
lock_poll = poll_response_matcher 0x02 (some 0x02)

abbrev armed_session : Session ℕ
armed_session = record idle_session {
  futures = pending ∷ [];
  notify_future = some 0;
  notify_matcher = some lock_poll;
}

poll_returns :
    (locked_write counting_cipher (some lock_poll) true answering idle_session).result
    ≡ ok status_frame
unfolding locked_write write_attempts write_once hear arm_wait notify decrypt admit deliver
    take_answer validate_response simple_checksum poll_response_matcher
poll_returns = refl

locked_write_answers_example : IsFrame status_frame × (admits (some lock_poll) status_frame ≡ true)
locked_write_answers_example =
    locked_write_answers counting_cipher (λ c block. refl) (some lock_poll) true answering
      idle_session refl poll_returns

locked_write_retries_example :
    let out = locked_write counting_cipher (some lock_poll) true answering idle_session in
    (1 ≤ out.writes)
    × (out.writes ≤ 3)
    × ((is_rejected out.result ≡ false) ⊎ (out.writes ≡ 3))
    × (out.session.notify_future ≡ none)
    × (out.session.notify_matcher ≡ none)
locked_write_retries_example =
    locked_write_retries counting_cipher (some lock_poll) answering idle_session

operation_returns :
    (locked_write_operation counting_cipher
      (ack_matcher 0x0B 0)
      (operation_response_matcher 0x0B)
      true
      true
      true
      operating
      idle_session).result
    ≡ ok result_frame
unfolding locked_write_operation arm_operation disarm_operation staged_wait await_ack await_result
    hear notify decrypt admit deliver take_ack take_answer validate_response simple_checksum
    ack_matcher operation_response_matcher
operation_returns = refl

locked_write_operation_answers_example :
    IsFrame result_frame × (operation_response_matcher 0x0B result_frame ≡ true)
locked_write_operation_answers_example =
    locked_write_operation_answers counting_cipher (λ c block. refl) (ack_matcher 0x0B 0)
      (operation_response_matcher 0x0B) true true operating idle_session true operation_returns

frame_resolves :
    get_elem? (notify counting_cipher armed_session 7 status_frame).session.futures 0
    ≡ some (resolved status_frame)
unfolding notify decrypt admit deliver take_answer validate_response simple_checksum
    poll_response_matcher
frame_resolves = refl

notify-Answers_example :
    (get_elem? armed_session.futures 0 ≡ some (resolved status_frame))
    ⊎ (IsFrame status_frame × Answers armed_session 0 status_frame)
notify-Answers_example =
    notify-Answers counting_cipher (λ c block. refl) armed_session 7 status_frame 0 status_frame
      frame_resolves

early_failure : operation_result true true fresh_progress (err timeout_error) ≡ err timeout_error
unfolding operation_result final_stage
early_failure = refl

retryable_failure_is_early_example :
    (fresh_progress.acknowledged ≡ false)
    × (fresh_progress.result ≡ none)
    × ((fresh_progress.write_attempted && not true) ≡ false)
retryable_failure_is_early_example =
    retryable_failure_is_early true true fresh_progress (err timeout_error) early_failure (λ e. cc)
      (λ e. cc)

-- The first start raises ValueError, the second one succeeds.
abbrev restarting : Starting
restarting = record {
  connected = true;
  started = err value_error;
  connected_to_stop = true;
  stopped = ok tt;
  connected_again = true;
  restarted = ok tt;
}
