-- ===== src/Session/Operation.antt =====
-- session.py: `_locked_write_operation`, the staged wait of a mechanical operation.
use yalexs_ble.Prelude.{
  ℕ, suc, Bool, true, false, not, Option, none, some, List, [], ◌∷◌, ◌++◌, codes, length, get_elem?,
  if◌then◌else◌,
}
use yalexs_ble.Errors.{Error, bleak_error, timeout_error, operation_incomplete_error, Result, err}
use yalexs_ble.Session.State.{Future, pending, Matcher, Session, disarm_wait, disarm_ack}
use yalexs_ble.Session.Notify.{Call}
use yalexs_ble.Session.Write.{hear, await}

-- What happens around one operation: in the write, in the wait for the acknowledgment, and in the
-- wait for the op-response. A wait is over when its futures say so or its time has run out.
pub record Staging : Type 0 where
  pub during_write : List (ℕ × List ℕ)
  pub write_error : Option Error
  pub during_ack : List (ℕ × List ℕ)
  pub ack_interrupted : Option Error
  pub during_result : List (ℕ × List ℕ)
  pub result_interrupted : Option Error

-- What the operation calls: `write_success_callback`, and the calls of the notifications.
pub data OperationCall : Type 0 where
  write_success : OperationCall
  notified : List Call → OperationCall

pub record Operated (C : Type 0) : Type 0 where
  pub session : Session C
  pub calls : List OperationCall
  pub result : Result (List ℕ)

-- `future in done`
abbrev pub is_done : Option Future → Bool
is_done (some pending) = false
is_done (some _) = true
is_done none = false

module _ {C : Type 0} where
  -- Both futures are armed before the write: the acknowledgment's is the older one.
  unfoldable pub arm_operation : Matcher → Matcher → Bool → Session C → Session C
  arm_operation ack_matcher response_matcher has_result_callback s = record s {
    futures = s.futures ++ pending ∷ pending ∷ [];
    ack_future = some (length s.futures);
    ack_matcher = some ack_matcher;
    notify_future = some (suc (length s.futures));
    notify_matcher = some response_matcher;
    staged = true;
    has_result_callback = has_result_callback;
    progress = record s.progress { write_attempted = true };
  }

  -- The `finally`.
  unfoldable pub disarm_operation : Session C → Session C
  disarm_operation s =
      disarm_wait (disarm_ack (record s { staged = false; has_result_callback = false }))

module _ {C : Type 0} (update : C → List ℕ → List ℕ × C) where
  -- The last wait. `i` is the place of the result future.
  unfoldable pub await_result : ℕ → Staging → Session C → List OperationCall → Operated C
  await_result i env s calls =
      let (s', heard) = hear update s env.during_result in
      record {
        session = s';
        calls = calls ++ notified heard ∷ [];
        result = elim env.result_interrupted [
          | some e ↦ err e
          | none ↦
              if not (is_done (get_elem? s'.futures i))
              then err operation_incomplete_error
              else await (get_elem? s'.futures i)
        ];
      }

  -- The wait for the acknowledgment or the result, then the last wait.
  unfoldable pub await_ack : ℕ → Staging → Session C → List OperationCall → Operated C
  await_ack i env s calls =
      let (s', heard) = hear update s env.during_ack in
      let calls' = calls ++ notified heard ∷ [] in
      elim env.ack_interrupted [
        | some e ↦ record { session = s'; calls = calls'; result = err e }
        | none ↦
            if is_done (get_elem? s'.futures (suc i))
            then record {
              session = s';
              calls = calls';
              result = await (get_elem? s'.futures (suc i));
            }
            else if not (is_done (get_elem? s'.futures i))
            then record { session = s'; calls = calls'; result = err timeout_error }
            else await_result (suc i) env s' calls'
      ]

  -- The body of the `try`. `i` is the place of the acknowledgment's future.
  unfoldable pub staged_wait : ℕ → Bool → Staging → Session C → Operated C
  staged_wait i retry_after_write env s =
      let (s', heard) = hear update s env.during_write in
      elim env.write_error [
        | some e ↦ record { session = s'; calls = notified heard ∷ []; result = err e }
        | none ↦
            let calls = notified heard ∷ write_success ∷ [] in
            if retry_after_write
            then await_ack i env s' calls
            else await_result (suc i) env s' calls
      ]

  unfoldable pub locked_write_operation :
      Matcher → Matcher → Bool → Bool → Bool → Staging → Session C → Operated C
  locked_write_operation ack response has_result_callback retry_after_write is_connected env s =
      if not is_connected
      then record { session = s; calls = []; result = err (bleak_error (codes "disconnected")) }
      else let armed = arm_operation ack response has_result_callback s in
        let out = staged_wait (length s.futures) retry_after_write env armed in
        record out { session = disarm_operation out.session }
