-- ===== src/Session/Notify.antt =====
-- session.py: `decrypt`, `_reject_frame` and `_notify`. The cipher is a parameter: `update` decrypts
-- a block and returns the next state of its context. What a notification calls comes back as a
-- list; the callbacks return, as `_notify` does not contain the state callback's exceptions.
use yalexs_ble.Prelude.{
  ℕ, Bool, not, ◌&&◌, Option, none, some, List, [], ◌∷◌, ◌++◌, take, length, is_empty, is_some,
  ◌==◌, if◌then◌else◌, true,
}
use yalexs_ble.Errors.{Error, response_error, is_response_error, ok, err}
use yalexs_ble.Const.{response_frame_len}
use yalexs_ble.Util.Bytes.{copy}
use yalexs_ble.Session.Frame.{validate_response}
use yalexs_ble.Session.State.{
  resolved, failed, Session, disarm_wait, disarm_ack, admits, matched, set_result, finish_pending,
}

pub data Call : Type 0 where
  state_callback result_callback : List ℕ → Call

-- The session after a notification, what was called in order, and what was raised.
pub record Outcome (C : Type 0) : Type 0 where
  pub session : Session C
  pub calls : List Call
  pub raised : Option Error

module _ {C : Type 0} (update : C → List ℕ → List ℕ × C) where
  unfoldable pub decrypt : Session C → List ℕ → List ℕ × Session C
  decrypt s frame = elim s.cipher_decrypt [
    | none ↦ (frame, s)
    | some c ↦
        let (plain, c') = update c (take 0x10 frame) in
        (copy frame plain 0, record s { cipher_decrypt = some c' })
  ]

module _ {C : Type 0} where
  unfoldable pub reject_frame : Session C → Error → Session C
  reject_frame s ex = if s.staged then s else record s {
    notify_future = none;
    notify_matcher = none;
    futures = finish_pending s.futures s.notify_future (failed ex);
  }

  -- The test of the acknowledgment branch.
  abbrev pub answers_ack : Session C → List ℕ → Bool
  answers_ack s frame = s.staged && (is_some s.ack_future && matched s.ack_matcher frame)

  -- The acknowledgment branch, at the future that is armed; without one it is not taken.
  unfoldable pub take_ack : Session C → List ℕ → List Call → Outcome C
  take_ack s frame calls = elim s.ack_future [
    | none ↦ record { session = s; calls = calls; raised = none }
    | some i ↦ elim (set_result s.futures i frame) [
      | err e ↦ record { session = disarm_ack s; calls = calls; raised = some e }
      | ok futures ↦ record {
        session = record (disarm_ack s) {
          futures = futures;
          progress = record s.progress { acknowledged = true };
        };
        calls = calls;
        raised = none;
      }
    ]
  ]

  -- The rest of `_notify`: the frame answers the armed wait, or leaves it armed.
  unfoldable pub take_answer : Session C → List ℕ → List Call → Outcome C
  take_answer s frame calls =
      if not (is_some s.notify_future)
      then record { session = s; calls = calls; raised = none }
      else if not (admits s.notify_matcher frame)
      then record { session = s; calls = calls; raised = none }
      else record {
        session = record (disarm_wait s) {
          progress = (if s.staged then record s.progress { result = some frame } else s.progress);
          futures = finish_pending s.futures s.notify_future (resolved frame);
        };
        calls =
            (if s.staged && s.has_result_callback
              then calls ++ result_callback frame ∷ []
              else calls);
        raised = none;
      }

  -- `if self._state_callback: self._state_callback(frame)`
  abbrev pub announce : Session C → List ℕ → List Call
  announce s frame = if s.has_state_callback then state_callback frame ∷ [] else []

  -- A frame that passed validation.
  unfoldable pub deliver : Session C → List ℕ → Outcome C
  deliver s frame =
      if answers_ack s frame
      then take_ack s frame (announce s frame)
      else take_answer s frame (announce s frame)

  -- The `try` around the validation: only a ResponseError is caught.
  unfoldable pub admit : Session C → List ℕ → Outcome C
  admit s frame = elim (validate_response frame) [
    | ok _ ↦ deliver s frame
    | err e ↦
        if is_response_error e
        then record { session = reject_frame s e; calls = []; raised = none }
        else record { session = s; calls = []; raised = some e }
  ]

module _ {C : Type 0} (update : C → List ℕ → List ℕ × C) where
  unfoldable pub notify : Session C → ℕ → List ℕ → Outcome C
  notify s now frame =
      let heard = record s { last_callback_time = now } in
      if is_empty frame
      then record { session = heard; calls = []; raised = none }
      else if not (length frame == response_frame_len)
      then record { session = reject_frame heard response_error; calls = []; raised = none }
      else let (plain, s') = decrypt update heard frame in admit s' plain
