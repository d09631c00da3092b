-- ===== src/Session/ExecuteLaws.antt =====
-- Which failures of an operation a caller may retry.
use yalexs_ble.Prelude.{
  ◌≡◌, sym, ◌≢◌, ◌||◌, Bool-cases, Option-cases, inl, inr, Bool, true, false, not, ◌&&◌, none, List,
  ℕ, arith,
}
use yalexs_ble.Errors.{Error, operation_incomplete_error, cancelled_error, Result, ok, err}
use yalexs_ble.Session.State.{OperationProgress, final_stage}
use yalexs_ble.Session.Execute.{operation_result, is_incomplete, is_exception}

passed_on :
    (e : Error) {x : Error}
    → is_incomplete e || not (is_exception e) ≡ true
    → e ≡ x
    → x ≢ operation_incomplete_error
    → x ≢ cancelled_error
    → ⊥
passed_on operation_incomplete_error p same incomplete cancelled = incomplete (sym same)
passed_on cancelled_error p same incomplete cancelled = cancelled (sym same)
passed_on _ p same incomplete cancelled = cc

-- An operation that ends with an error other than OperationIncompleteError or a cancellation was
-- not acknowledged, recorded no op-response, and did not attempt its write unless it may be
-- retried after its write.
pub retryable_failure_is_early :
    (is_first retry_after_write : Bool) (progress : OperationProgress) (r : Result (List ℕ))
    {e : Error}
    → operation_result is_first retry_after_write progress r ≡ err e
    → e ≢ operation_incomplete_error
    → e ≢ cancelled_error
    → (progress.acknowledged ≡ false)
      × (progress.result ≡ none)
      × ((progress.write_attempted && not retry_after_write) ≡ false)
unfolding operation_result final_stage
retryable_failure_is_early is_first retry_after_write progress (ok frame) h incomplete cancelled =
    absurd (ground arith)
retryable_failure_is_early is_first retry_after_write progress (err e) h incomplete cancelled =
    elim (Bool-cases (is_incomplete e || not (is_exception e))) [
      | inl passed ↦ absurd (passed_on e passed (ground arith) incomplete cancelled)
      | inr handled ↦ elim (Option-cases progress.result) [
        | inl unanswered ↦ ground arith
        | inr (frame, answered) ↦ absurd (ground arith)
      ]
    ]
