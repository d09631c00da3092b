-- ===== src/Session/State.antt =====
-- session.py: `OperationProgress` and the state of a `Session`. A future is a number, its place in
-- the list of the futures made so far, since the session and the waiting task share it. The
-- progress object of the staged operation is kept here too, with `staged` for
-- `_operation_progress is not None`, because its owner reads it after the session let go of it.
use yalexs_ble.Prelude.{
  ℕ, Bool, true, false, not, ◌&&◌, Option, none, some, List, get_elem?, set, is_some, if◌then◌else◌,
}
use yalexs_ble.Errors.{Error, invalid_state_error, Result, ok, err}

pub data Future : Type 0 where
  pending cancelled : Future
  resolved : List ℕ → Future
  failed : Error → Future

pub record OperationProgress : Type 0 where
  pub write_attempted : Bool
  pub acknowledged : Bool
  pub result : Option (List ℕ)

abbrev pub fresh_progress : OperationProgress
fresh_progress = record { write_attempted = false; acknowledged = false; result = none }

-- `final_stage(...) is not None`: the operation got past the stage where a retry is safe.
unfoldable pub final_stage : OperationProgress → Bool → Bool
final_stage progress retry_after_write =
    if progress.acknowledged
    then true
    else if progress.write_attempted && not retry_after_write
    then true
    else false

-- A matcher is a test on a decrypted frame.
abbrev pub Matcher : Type 0
Matcher = List ℕ → Bool

-- `C` is the state of the cipher context that decrypts.
pub record Session (C : Type 0) : Type 0 where
  pub cipher_decrypt : Option C
  pub notify_future : Option ℕ
  pub notify_matcher : Option Matcher
  pub ack_future : Option ℕ
  pub ack_matcher : Option Matcher
  pub staged : Bool
  pub progress : OperationProgress
  pub has_result_callback : Bool
  pub has_state_callback : Bool
  pub futures : List Future
  pub last_callback_time : ℕ

abbrev pub is_pending : Option Future → Bool
is_pending (some pending) = true
is_pending _ = false

-- `future.set_result(frame)`: raises InvalidStateError unless the future is pending.
abbrev pub set_result : List Future → ℕ → List ℕ → Result (List Future)
set_result futures i frame =
    if is_pending (get_elem? futures i)
    then ok (set futures i (resolved frame))
    else err invalid_state_error

-- `if (future := …) is not None and not future.done(): …`, on the futures.
abbrev pub finish_pending : List Future → Option ℕ → Future → List Future
finish_pending futures none outcome = futures
finish_pending futures (some i) outcome =
    if is_pending (get_elem? futures i) then set futures i outcome else futures

-- `matcher is None or matcher(frame)`
abbrev pub admits : Option Matcher → List ℕ → Bool
admits none frame = true
admits (some matches) frame = matches frame

-- `matcher is not None and matcher(frame)`
abbrev pub matched : Option Matcher → List ℕ → Bool
matched none frame = false
matched (some matches) frame = matches frame

module _ {C : Type 0} where
  -- `_disarm_wait` and `_disarm_ack`; the future that they return is the field before the call.
  abbrev pub disarm_wait : Session C → Session C
  disarm_wait s = record s { notify_future = none; notify_matcher = none }

  abbrev pub disarm_ack : Session C → Session C
  disarm_ack s = record s { ack_future = none; ack_matcher = none }

  unfoldable pub awaits_op_response : Session C → List ℕ → Bool
  awaits_op_response s frame =
      s.staged && (is_some s.notify_future && matched s.notify_matcher frame)
