-- ===== src/Push/RetryLaws.antt =====
-- The attempts of an operation: how many there are, when they end, and what they end with.
use yalexs_ble.Prelude.{
  ℕ, zero, suc, ◌≡◌, refl, subst, ◌+◌, ◌≤◌, ◌<◌, Bool, true, false, ◌==◌, arith,
}
use yalexs_ble.Errors.{Error, Result, ok, err}
use yalexs_ble.Push.Retry.{
  Aftermath, is_auth_error, is_not_found_error, is_retryable, Retried, next_turn, handle_error,
  after_attempt, attempt_loop, retry_bluetooth_connection_error,
}

-- An error that the wrapper retries after a disconnect clean-up.
abbrev pub Transient : (Error → Bool) → Error → Type 0
Transient is_bleak_retry e =
    (is_auth_error e ≡ false)
    × (is_not_found_error e ≡ false)
    × (is_retryable is_bleak_retry e ≡ true)

-- An attempt that fails with such an error, while no jam takes precedence and neither the clean-up nor
-- the pause after it raises.
abbrev pub FailsTransiently :
    {A : Type 0}
    → (Error → Bool)
    → (ℕ → Result A)
    → (ℕ → Bool)
    → (ℕ → Aftermath)
    → (ℕ → Error)
    → ℕ
    → Type 0
FailsTransiently is_bleak_retry func precedence after errors j =
    (func j ≡ err (errors j))
    × (precedence j ≡ false)
    × Transient is_bleak_retry (errors j)
    × ((after j).cleanup ≡ ok tt)
    × ((after j).pause ≡ ok tt)

-- A call with a given result after a given number of attempts.
abbrev pub Succeeds : {A : Type 0} → Retried A → A → ℕ → Type 0
Succeeds r a calls = (r.result ≡ ok a) × (r.calls ≡ calls)

module _ {A : Type 0} (is_bleak_retry : Error → Bool) (lock_operation : Bool) where
  after_attempt-calls :
      (is_last precedence : Bool) (w : Aftermath) (failures : ℕ) (r : Result A)
      (rest : ℕ → Retried A) (bound : ℕ)
      → ((f : ℕ) → (rest f).calls ≤ bound)
      → (after_attempt is_bleak_retry lock_operation is_last precedence w failures r rest).calls
        ≤ suc bound
  unfolding after_attempt handle_error next_turn
  after_attempt-calls is_last precedence w failures (ok a) rest bound h = omega arith
  after_attempt-calls is_last precedence w failures (err e) rest bound h =
      ground (arith, h failures, h (failures + 1))

  attempt_loop-calls :
      (left attempt : ℕ) (func : ℕ → Result A) (precedence : ℕ → Bool) (after : ℕ → Aftermath)
      (failures : ℕ)
      → (attempt_loop is_bleak_retry lock_operation left attempt func precedence after
          failures).calls
        ≤ left
  unfolding attempt_loop
  attempt_loop-calls zero attempt func precedence after failures = omega arith
  attempt_loop-calls (suc left) attempt func precedence after failures =
      after_attempt-calls (left == 0) (precedence attempt) (after attempt) failures (func attempt)
        (attempt_loop is_bleak_retry lock_operation left (suc attempt) func precedence after) left
        (attempt_loop-calls left (suc attempt) func precedence after)

  after_attempt-precedence :
      (is_last : Bool) (w : Aftermath) (failures : ℕ) (r : Result A) (rest : ℕ → Retried A)
      → lock_operation ≡ true
      → (after_attempt is_bleak_retry lock_operation is_last true w failures r rest).calls ≤ 1
  unfolding after_attempt handle_error next_turn
  after_attempt-precedence is_last w failures (ok a) rest h = omega arith
  after_attempt-precedence is_last w failures (err e) rest h = ground arith

  attempt_loop-precedence :
      (left attempt k : ℕ) (func : ℕ → Result A) (precedence : ℕ → Bool) (after : ℕ → Aftermath)
      (failures : ℕ)
      → lock_operation ≡ true
      → precedence (attempt + k) ≡ true
      → (attempt_loop is_bleak_retry lock_operation left attempt func precedence after
          failures).calls
        ≤ suc k
  unfolding attempt_loop
  attempt_loop-precedence zero attempt k func precedence after failures op jammed = omega arith
  attempt_loop-precedence (suc left) attempt zero func precedence after failures op jammed =
      let now : precedence attempt ≡ true = subst (λ i. precedence i ≡ true) (omega arith) jammed in
      rw (now) (
        after_attempt-precedence (left == 0) (after attempt) failures (func attempt)
          (attempt_loop is_bleak_retry lock_operation left (suc attempt) func precedence after) op)
  attempt_loop-precedence (suc left) attempt (suc k) func precedence after failures op jammed =
      after_attempt-calls (left == 0) (precedence attempt) (after attempt) failures (func attempt)
        (attempt_loop is_bleak_retry lock_operation left (suc attempt) func precedence after)
        (suc k)
        (λ f.
          attempt_loop-precedence left (suc attempt) k func precedence after f op
            (subst (λ i. precedence i ≡ true) (omega arith) jammed))

  -- A lock operation for which a reported jam takes precedence over the command as attempt k ends is
  -- attempted at most as often as allowed, and not again after attempt k, whatever raises between
  -- the attempts.
  pub retry-calls :
      (attempts k : ℕ) (func : ℕ → Result A) (precedence : ℕ → Bool) (after : ℕ → Aftermath)
      (failures : ℕ)
      → lock_operation ≡ true
      → precedence k ≡ true
      → ((retry_bluetooth_connection_error is_bleak_retry lock_operation attempts func precedence
            after failures).calls
          ≤ attempts)
        × ((retry_bluetooth_connection_error is_bleak_retry lock_operation attempts func precedence
              after failures).calls
            ≤ suc k)
  unfolding retry_bluetooth_connection_error
  retry-calls attempts k func precedence after failures op jammed = (
    attempt_loop-calls attempts 0 func precedence after failures,
    attempt_loop-precedence attempts 0 k func precedence after failures op
        (subst (λ i. precedence i ≡ true) (omega arith) jammed),
  )

  retried_turn :
      (w : Aftermath) (failures : ℕ) (e : Error) (rest : ℕ → Retried A) (a : A) (n : ℕ)
      → Transient is_bleak_retry e
      → w.cleanup ≡ ok tt
      → w.pause ≡ ok tt
      → Succeeds (rest failures) a n
      → Succeeds
          (after_attempt is_bleak_retry lock_operation false false w failures (err e) rest)
          a
          (suc n)
  unfolding after_attempt handle_error next_turn
  retried_turn w failures e rest a n h c q k = ground arith

  success_turn :
      (is_last precedence : Bool) (w : Aftermath) (failures : ℕ) (rest : ℕ → Retried A) (a : A)
      → Succeeds
          (after_attempt is_bleak_retry lock_operation is_last precedence w failures (ok a) rest)
          a
          1
  unfolding after_attempt
  success_turn is_last precedence w failures rest a = (refl, refl)

  attempt_loop-Succeeds :
      (k left attempt : ℕ) (func : ℕ → Result A) (precedence : ℕ → Bool) (after : ℕ → Aftermath)
      (failures : ℕ)
      → (errors : ℕ → Error) (a : A) → k < left
      → ((j : ℕ)
          → j < k
          → FailsTransiently is_bleak_retry func precedence after errors (attempt + j))
      → func (attempt + k) ≡ ok a
      → Succeeds
          (attempt_loop is_bleak_retry lock_operation left attempt func precedence after failures)
          a
          (suc k)
  unfolding attempt_loop
  attempt_loop-Succeeds k zero attempt func precedence after failures errors a fits before success =
      absurd (omega arith)
  attempt_loop-Succeeds zero (suc left) attempt func precedence after failures errors a fits before
        success =
      let now : func attempt ≡ ok a = subst (λ i. func i ≡ ok a) (omega arith) success in
      rw (now) (
        success_turn (left == 0) (precedence attempt) (after attempt) failures
          (attempt_loop is_bleak_retry lock_operation left (suc attempt) func precedence after) a)
  attempt_loop-Succeeds (suc k) (suc left) attempt func precedence after failures errors a fits
        before success =
      let (fails, free, transient, cleaned, paused) : FailsTransiently is_bleak_retry func
          precedence after errors attempt =
        subst (FailsTransiently is_bleak_retry func precedence after errors) (omega arith)
          (before 0 (omega arith)) in
      let more : (left == 0) ≡ false = ground arith in
      let rest =
        attempt_loop is_bleak_retry lock_operation left (suc attempt) func precedence after in
      rw (fails, free, more)
        (retried_turn (after attempt) failures (errors attempt) rest a (suc k) transient cleaned
          paused
          (attempt_loop-Succeeds k left (suc attempt) func precedence after failures errors a
            (omega arith)
            (λ j h.
              subst (FailsTransiently is_bleak_retry func precedence after errors) (omega arith)
                (before (suc j) (omega arith)))
            (subst (λ i. func i ≡ ok a) (omega arith) success)))

  -- If the attempts before attempt k fail with retryable errors of the link or of a response (neither
  -- AuthError nor BleakNotFoundError), none of them while a jam takes precedence, the clean-up and
  -- the pause after each of them do not raise, and attempt k succeeds within the attempts allowed,
  -- the call succeeds with its value after k + 1 attempts.
  pub retry-Succeeds :
      (attempts k : ℕ) (func : ℕ → Result A) (precedence : ℕ → Bool) (after : ℕ → Aftermath)
      (failures : ℕ)
      → (errors : ℕ → Error) (a : A) → k < attempts
      → ((j : ℕ) → j < k → FailsTransiently is_bleak_retry func precedence after errors j)
      → func k ≡ ok a
      → Succeeds
          (retry_bluetooth_connection_error is_bleak_retry lock_operation attempts func precedence
            after failures)
          a
          (suc k)
  unfolding retry_bluetooth_connection_error
  retry-Succeeds attempts k func precedence after failures errors a fits before success =
      attempt_loop-Succeeds k attempts 0 func precedence after failures errors a fits
        (λ j h.
          subst (FailsTransiently is_bleak_retry func precedence after errors) (omega arith)
            (before j h))
        (subst (λ i. func i ≡ ok a) (omega arith) success)
