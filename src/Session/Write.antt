-- ===== src/Session/Write.antt =====
-- session.py: `_encrypt_command` and `_locked_write`. What the radio and the clock do in an attempt
-- is an argument: what the GATT write raised, the notifications handled until the task resumes,
-- and the exception that a timeout or a disconnect threw into the wait.
use yalexs_ble.Prelude.{
  ℕ, zero, suc, Bool, false, not, Option, none, some, List, [], ◌∷◌, ◌++◌, codes, take, length,
  get_elem?, if◌then◌else◌,
}
use yalexs_ble.Errors.{
  Error, bleak_error, timeout_error, assertion_error, is_response_error, Result, ok, err,
}
use yalexs_ble.Util.Bytes.{copy}
use yalexs_ble.Session.State.{Future, pending, resolved, failed, Matcher, Session, disarm_wait}
use yalexs_ble.Session.Notify.{Call, notify}

-- `_encrypt_command`: the first 16 bytes are replaced by the cipher's output for them. `encrypt` is
-- the encryptor's `update`; `none` is the cipher that is not set.
unfoldable pub encrypt_command :
    {E : Type 0} → (E → List ℕ → List ℕ × E) → Option E → List ℕ → Result (List ℕ × E)
encrypt_command encrypt none command = err assertion_error
encrypt_command encrypt (some c) command =
    let (cipher_text, c') = encrypt c (take 0x10 command) in ok (copy command cipher_text 0, c')

pub record Attempt : Type 0 where
  pub write_error : Option Error
  pub heard : List (ℕ × List ℕ)  -- the time and the payload of each notification
  pub interrupted : Option Error

module _ {C : Type 0} (update : C → List ℕ → List ℕ × C) where
  -- The notifications that are handled while a task waits, with what they call.
  unfoldable pub hear : Session C → List (ℕ × List ℕ) → Session C × List Call
  hear s [] = (s, [])
  hear s ((now, payload) ∷ rest) =
      let out = notify update s now payload in
      let (s', calls) = hear out.session rest in (s', out.calls ++ calls)

-- `await future`, at the moment when the task resumes; one that is still pending timed out.
abbrev pub await : Option Future → Result (List ℕ)
await (some (resolved frame)) = ok frame
await (some (failed e)) = err e
await _ = err timeout_error

-- The `try` inside the timeout: an error of the write, else an interruption, else the future.
abbrev pub attempt_result : Attempt → Option Future → Result (List ℕ)
attempt_result attempt future = elim attempt.write_error [
  | some e ↦ err e
  | none ↦ elim attempt.interrupted [ some e ↦ err e | none ↦ await future ]
]

-- `except ResponseError`
abbrev pub is_rejected : Result (List ℕ) → Bool
is_rejected (ok _) = false
is_rejected (err e) = is_response_error e

pub record Written (C : Type 0) : Type 0 where
  pub session : Session C
  pub calls : List Call
  pub result : Result (List ℕ)
  pub writes : ℕ

module _ {C : Type 0} (matcher : Option Matcher) where
  -- A new future is armed with the matcher.
  unfoldable pub arm_wait : Session C → Session C
  arm_wait s = record s {
    futures = s.futures ++ pending ∷ [];
    notify_future = some (length s.futures);
    notify_matcher = matcher;
  }

module _ {C : Type 0} (update : C → List ℕ → List ℕ × C) (matcher : Option Matcher) where
  -- One turn of the loop: arm, write, wait.
  unfoldable pub write_once : Session C → Attempt → Written C
  write_once s attempt =
      let (s', calls) = hear update (arm_wait matcher s) attempt.heard in
      record {
        session = s';
        calls = calls;
        result = attempt_result attempt (get_elem? s'.futures (length s.futures));
        writes = 1;
      }

  -- The loop, by the number of attempts after this one: a ResponseError makes the next attempt,
  -- anything else ends the loop.
  unfoldable pub write_attempts : ℕ → (ℕ → Attempt) → Session C → Written C
  write_attempts zero attempts s = write_once s (attempts 0)
  write_attempts (suc later) attempts s =
      let first = write_once s (attempts 0) in
      let rest = write_attempts later (λ n. attempts (suc n)) first.session in
      if is_rejected first.result
      then record rest { calls = first.calls ++ rest.calls; writes = suc rest.writes }
      else first

  -- `_locked_write` behind the encryption: the wait is disarmed on every way out of the loop.
  unfoldable pub locked_write : Bool → (ℕ → Attempt) → Session C → Written C
  locked_write is_connected attempts s =
      if not is_connected
      then record {
        session = s;
        calls = [];
        result = err (bleak_error (codes "disconnected"));
        writes = 0;
      }
      else let out = write_attempts 2 attempts s in record out { session = disarm_wait out.session }
