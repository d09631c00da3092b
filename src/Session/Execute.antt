-- ===== src/Session/Execute.antt =====
-- session.py: `_raise_for_bleak_error`, and how `execute` and `execute_operation` turn the end of
-- an exchange into their own result. `is_first` is `_first_request`, which both clear on every exit.
use yalexs_ble.Prelude.{
  ℕ, ◌+◌, ◌-◌, Bool, true, false, not, ◌&&◌, ◌||◌, Option, none, some, List, ltb, is_some,
  if◌then◌else◌,
}
use yalexs_ble.Errors.{
  Error, auth_error, disconnected_error, operation_incomplete_error, cancelled_error,
  is_bleak_error, Result, ok, err,
}
use yalexs_ble.Util.ErrorTests.{is_key_error, is_disconnected_error}
use yalexs_ble.Session.State.{OperationProgress, final_stage}

-- Milliseconds; `COOLDOWN_TIME` is 0.25 s.
abbrev pub cooldown_time : ℕ
cooldown_time = 250

-- One turn of the loop of `_wait_for_cooldown`: how long to sleep, `none` when the loop ends.
unfoldable pub cooldown_sleep : Bool → ℕ → ℕ → Option ℕ
cooldown_sleep enable_cooldown last_callback_time now =
    if enable_cooldown && ltb now (last_callback_time + cooldown_time)
    then some (last_callback_time + cooldown_time - now)
    else none

-- `_raise_for_bleak_error` followed by `raise`: the error that leaves the handler.
unfoldable pub raise_for_bleak_error : Bool → Error → Error
raise_for_bleak_error is_first e =
    if is_first && is_key_error e
    then auth_error
    else if is_disconnected_error e
    then disconnected_error
    else e

-- The handlers of `execute`.
unfoldable pub execute_result : Bool → Result (List ℕ) → Result (List ℕ)
execute_result is_first (ok frame) = ok frame
execute_result is_first (err e) =
    if is_bleak_error e then err (raise_for_bleak_error is_first e) else err e

-- The test at the head of `execute_operation`.
unfoldable pub is_fresh : OperationProgress → Bool
is_fresh progress =
    not (progress.write_attempted || (progress.acknowledged || is_some progress.result))

-- `except Exception`: a cancellation is a BaseException and is not caught.
abbrev pub is_exception : Error → Bool
is_exception cancelled_error = false
is_exception _ = true

abbrev pub is_incomplete : Error → Bool
is_incomplete operation_incomplete_error = true
is_incomplete _ = false

-- The handlers of `execute_operation`, on the progress that the operation recorded.
unfoldable pub operation_result :
    Bool → Bool → OperationProgress → Result (List ℕ) → Result (List ℕ)
operation_result is_first retry_after_write progress (ok frame) = ok frame
operation_result is_first retry_after_write progress (err e) =
    if is_incomplete e || not (is_exception e) then err e else elim progress.result [
      | some frame ↦ ok frame
      | none ↦
          if final_stage progress retry_after_write
          then err operation_incomplete_error
          else if is_bleak_error e
          then err (raise_for_bleak_error is_first e)
          else err e
    ]
