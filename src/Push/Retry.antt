-- ===== src/Push/Retry.antt =====
-- push.py: `retry_bluetooth_connection_error`. What each attempt ends with, whether a reported jam
-- takes precedence after it, and how the calls of its handlers then end, is given by the attempt's
-- number. `BLEAK_RETRY_EXCEPTIONS` is a tuple of the third-party connector, a parameter here.
use yalexs_ble.Prelude.{ℕ, zero, suc, ◌+◌, Bool, true, false, ◌&&◌, ◌||◌, leb, ◌==◌, if◌then◌else◌}
use yalexs_ble.Errors.{
  Error, auth_error, disconnected_error, operation_incomplete_error, bleak_dbus_error,
  bleak_not_found_error, is_response_error, Result, ok, err,
}
use yalexs_ble.Util.ErrorTests.{is_disconnected_error}
use yalexs_ble.Push.AuthHistory.{auth_failure_to_start_reauth}

-- `DEFAULT_ATTEMPTS`
abbrev pub default_attempts : ℕ
default_attempts = 4

abbrev pub is_auth_error : Error → Bool
is_auth_error auth_error = true
is_auth_error _ = false

abbrev pub is_not_found_error : Error → Bool
is_not_found_error (bleak_not_found_error _) = true
is_not_found_error _ = false

-- `isinstance(err, RETRY_BACKOFF_EXCEPTIONS)`
abbrev pub is_backoff_error : Error → Bool
is_backoff_error (bleak_dbus_error _) = true
is_backoff_error disconnected_error = true
is_backoff_error _ = false

-- What one call of the wrapper did: how often it called the function, how often it cleaned up after
-- a disconnect, how long it slept in all in pauses that ended, whether it reported the failed
-- authentication, the failures counted for the address, and the result.
pub record Retried (A : Type 0) : Type 0 where
  pub calls : ℕ
  pub disconnects : ℕ
  pub slept : ℕ
  pub auth_reported : Bool
  pub failures : ℕ
  pub result : Result A

-- How the calls in the handlers of an attempt's error end: the report of a failed authentication, the
-- clean-up after a disconnect and the pause before the next attempt.
pub record Aftermath : Type 0 where
  pub report : Result (Unit {0})
  pub cleanup : Result (Unit {0})
  pub pause : Result (Unit {0})

module _ {A : Type 0} where
  abbrev pub ends : ℕ → Result A → Retried A
  ends failures result = record {
    calls = 1;
    disconnects = 0;
    slept = 0;
    auth_reported = false;
    failures = failures;
    result = result;
  }

  -- An attempt before the rest.
  abbrev pub then_retry : ℕ → ℕ → Retried A → Retried A
  then_retry disconnects backoff rest = record rest {
    calls = suc rest.calls;
    disconnects = disconnects + rest.disconnects;
    slept = backoff + rest.slept;
  }

-- `isinstance(err, RETRYABLE_EXCEPTIONS)`
abbrev pub is_retryable : (Error → Bool) → Error → Bool
is_retryable is_bleak_retry e = is_backoff_error e || (is_response_error e || is_bleak_retry e)

module _ {A : Type 0} (lock_operation : Bool) where
  -- The end of a turn: `is_last` is `not attempt < max_attempts`, `rest` the turns to come.
  unfoldable pub next_turn : Bool → Bool → ℕ → ℕ → ℕ → Result (Unit {0}) → Retried A → Retried A
  next_turn is_last precedence failures disconnects backoff pause rest =
      if is_last
      then record (ends failures (err disconnected_error)) { disconnects = disconnects }
      else if lock_operation && precedence
      then record (ends failures (err operation_incomplete_error)) { disconnects = disconnects }
      else if backoff == 0
      then then_retry disconnects 0 rest
      else elim pause [
        | err raised ↦ record (ends failures (err raised)) { disconnects = disconnects }
        | ok _ ↦ then_retry disconnects backoff rest
      ]

module _ {A : Type 0} (is_bleak_retry : Error → Bool) (lock_operation : Bool) where
  -- The handlers, for an attempt that raised. `rest` is a function of the failures counted.
  unfoldable pub handle_error : Bool → Bool → Aftermath → ℕ → Error → (ℕ → Retried A) → Retried A
  unfolding next_turn
  handle_error is_last precedence after failures e rest =
      if is_auth_error e
      then if leb auth_failure_to_start_reauth (failures + 1)
        then record (ends (failures + 1)
            (elim after.report [ err raised ↦ err raised | ok _ ↦ err e ])) { auth_reported = true }
        else next_turn lock_operation is_last precedence (failures + 1) 0 250 after.pause
            (rest (failures + 1))
      else if is_not_found_error e
      then ends failures (err e)
      else if is_retryable is_bleak_retry e
      then elim after.cleanup [
        | err raised ↦ record (ends failures (err raised)) { disconnects = 1 }
        | ok _ ↦
            if is_last
            then record (ends failures
                (err (if is_disconnected_error e then disconnected_error else e))) {
                  disconnects = 1;
                }
            else next_turn lock_operation is_last precedence failures 1
                (if is_backoff_error e then 250 else 0) after.pause (rest failures)
      ]
      else ends failures (err e)

  -- One turn of the loop, on what the attempt ended with.
  unfoldable pub after_attempt :
      Bool → Bool → Aftermath → ℕ → Result A → (ℕ → Retried A) → Retried A
  after_attempt is_last precedence after failures (ok a) rest = ends failures (ok a)
  after_attempt is_last precedence after failures (err e) rest =
      handle_error is_last precedence after failures e rest

  -- The loop over the attempts: `left` are left, `attempt` have run.
  unfoldable pub attempt_loop :
      ℕ → ℕ → (ℕ → Result A) → (ℕ → Bool) → (ℕ → Aftermath) → ℕ → Retried A
  attempt_loop zero attempt func precedence after failures =
      record (ends failures (err disconnected_error)) { calls = 0 }
  attempt_loop (suc left) attempt func precedence after failures =
      after_attempt (left == 0) (precedence attempt) (after attempt) failures (func attempt)
        (attempt_loop left (suc attempt) func precedence after)

  -- The wrapper with its `attempts`.
  unfoldable pub retry_bluetooth_connection_error :
      ℕ → (ℕ → Result A) → (ℕ → Bool) → (ℕ → Aftermath) → ℕ → Retried A
  retry_bluetooth_connection_error attempts func precedence after failures =
      attempt_loop attempts 0 func precedence after failures
