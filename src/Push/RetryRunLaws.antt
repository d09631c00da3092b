-- ===== src/Push/RetryRunLaws.antt =====
-- What the retries of a coroutine do to what is asked of the lock, and what a call that returns leaves.
use yalexs_ble.Prelude.{
  ℕ, zero, suc, ◌≡◌, sym, subst, ◌+◌, ◌≤◌, Bool, true, false, ◌&&◌, ◌==◌, List, [], ◌∷◌, arith,
  if◌then◌else◌,
}
use yalexs_ble.Errors.{Error, disconnected_error, Result, ok, err}
use yalexs_ble.Push.Retry.{is_auth_error, is_not_found_error, is_backoff_error, is_retryable}
use yalexs_ble.Push.Jam.{jam_takes_precedence}
use yalexs_ble.Push.Run.{Ask, force, Progress, Run, then_run}
use yalexs_ble.Push.RetryRun.{
  Between, wait_for, clean_up, count_auth_failure, pause_if, end_turn, recover_auth, recover_link,
  recover, recovered, run_attempts, retried,
}

-- How often the lock was asked to move.
abbrev pub motions : List Ask → ℕ
motions [] = 0
motions (force ∷ earlier) = suc (motions earlier)
motions (other ∷ earlier) = motions earlier

-- What is left by a run from `asked`: at most `k` motions more, and where it returned, `Q`.
abbrev pub Leaves :
    {A : Type 0} → (A → Progress → Type 0) → ℕ → List Ask → Result A × Progress → Type 0
Leaves Q k asked r = (motions r.1.asked ≤ motions asked + k) × ((a : _) → r.0 ≡ ok a → Q a r.1)

abbrev pub Runs : {A : Type 0} → (A → Progress → Type 0) → ℕ → Run A → Type 0
Runs Q k run = (s : Progress) → Leaves Q k s.asked (run s)

module _ {A : Type 0} (Q : A → Progress → Type 0) where
  pub raised-Leaves :
      (k : ℕ) (asked : List Ask) (e : Error) (s : Progress)
      → motions s.asked ≤ motions asked + k
      → Leaves Q k asked (err e, s)
  raised-Leaves k asked e s h = (h, λ a p. cc)

  pub if-Leaves :
      (k : ℕ) (asked : List Ask) (b : Bool) (x y : Result A × Progress)
      → Leaves Q k asked x
      → Leaves Q k asked y
      → Leaves Q k asked (if b then x else y)
  if-Leaves k asked true x y l m = l
  if-Leaves k asked false x y l m = m

  -- A step that asks for nothing, before a run.
  pub then-Leaves :
      (k : ℕ) (rest : Run A) (r : Result (Unit {0}) × Progress) (asked : List Ask)
      → Runs Q k rest
      → r.1.asked ≡ asked
      → Leaves Q k asked (then_run (λ _. rest) r.0 r.1)
  then-Leaves k rest (ok u, s) asked runs same = subst (λ l. Leaves Q k l (rest s)) same (runs s)
  then-Leaves k rest (err e, s) asked runs same =
      raised-Leaves k asked e s
        (subst (λ l. motions l ≤ motions asked + k) (sym same) (omega arith))

pub clean_up-asked : (b : Between) (s : Progress) → (clean_up b s).1.asked ≡ s.asked
unfolding clean_up wait_for
clean_up-asked b s = ground arith

pause_if-asked :
    (pauses : Bool) (b : Between) (s : Progress) → (pause_if pauses b s).1.asked ≡ s.asked
unfolding wait_for
pause_if-asked pauses b s = ground arith

module _ {A : Type 0} (Q : A → Progress → Type 0) (is_bleak_retry : Error → Bool)
    (lock_operation : Bool) (k : ℕ) where
  end_turn-Runs :
      (is_last pauses : Bool) (b : Between) (rest : Run A)
      → Runs Q k rest
      → Runs Q k (end_turn lock_operation is_last pauses b rest)
  unfolding end_turn
  end_turn-Runs is_last pauses b rest runs s =
      if-Leaves Q k s.asked is_last _ _ (raised-Leaves Q k s.asked _ s (omega arith)) (
        if-Leaves Q k s.asked (lock_operation && jam_takes_precedence s.lock.watcher) _ _
          (raised-Leaves Q k s.asked _ s (omega arith))
          (then-Leaves Q k rest (pause_if pauses b s) s.asked runs (pause_if-asked pauses b s)))

  recover_auth-Runs :
      (is_last : Bool) (e : Error) (b : Between) (rest : Run A)
      → Runs Q k rest
      → Runs Q k (recover_auth is_bleak_retry lock_operation is_last e b rest)
  unfolding recover_auth
  recover_auth-Runs is_last e b rest runs s =
      if-Leaves Q k s.asked _ _ _ (raised-Leaves Q k s.asked _ _ (omega arith))
        (end_turn-Runs is_last true b rest runs (record s { lock = count_auth_failure s.lock }))

  recover_link-Runs :
      (is_last : Bool) (e : Error) (b : Between) (rest : Run A)
      → Runs Q k rest
      → Runs Q k (recover_link is_bleak_retry lock_operation is_last e b rest)
  unfolding recover_link
  recover_link-Runs is_last e b rest runs s =
      then-Leaves Q k _ (clean_up b s) s.asked
        (λ t.
          if-Leaves Q k t.asked is_last _ _ (raised-Leaves Q k t.asked _ t (omega arith))
            (end_turn-Runs is_last (is_backoff_error e) b rest runs t))
        (clean_up-asked b s)

  recover-Runs :
      (is_last : Bool) (e : Error) (b : Between) (rest : Run A)
      → Runs Q k rest
      → Runs Q k (recover is_bleak_retry lock_operation is_last e b rest)
  unfolding recover
  recover-Runs is_last e b rest runs s =
      if-Leaves Q k s.asked (is_auth_error e) _ _ (recover_auth-Runs is_last e b rest runs s) (
        if-Leaves Q k s.asked (is_not_found_error e) _ _
          (raised-Leaves Q k s.asked e s (omega arith))
          (if-Leaves Q k s.asked (is_retryable is_bleak_retry e) _ _
            (recover_link-Runs is_last e b rest runs s)
            (raised-Leaves Q k s.asked e s (omega arith))))

module _ {A : Type 0} (Q : A → Progress → Type 0) (is_bleak_retry : Error → Bool)
    (lock_operation : Bool) where
  recovered-Leaves :
      (k : ℕ) (is_last : Bool) (b : Between) (rest : Run A) (asked : List Ask)
      (r : Result A × Progress)
      → Runs Q k rest
      → Leaves Q 1 asked r
      → Leaves Q (suc k) asked (recovered is_bleak_retry lock_operation is_last b rest r)
  recovered-Leaves k is_last b rest asked (ok a, s) runs (few, good) = (omega arith, good)
  recovered-Leaves k is_last b rest asked (err e, s) runs (few, good) =
      let (few', good') = recover-Runs Q is_bleak_retry lock_operation k is_last e b rest runs s in
      (omega arith, good')

  run_attempts-Runs :
      (func : ℕ → Run A) (between : ℕ → Between)
      → ((n : ℕ) → Runs Q 1 (func n))
      → (left attempt : ℕ)
      → Runs Q left (run_attempts is_bleak_retry lock_operation left attempt func between)
  unfolding run_attempts
  run_attempts-Runs func between each zero attempt s =
      raised-Leaves Q 0 s.asked disconnected_error s (omega arith)
  run_attempts-Runs func between each (suc left) attempt s =
      recovered-Leaves left (left == 0) (between attempt) _ s.asked (func attempt s)
        (run_attempts-Runs func between each left (suc attempt)) (each attempt s)

  pub retried-Runs :
      (attempts : ℕ) (func : ℕ → Run A) (between : ℕ → Between)
      → ((n : ℕ) → Runs Q 1 (func n))
      → Runs Q attempts (retried is_bleak_retry lock_operation attempts func between)
  unfolding retried
  retried-Runs attempts func between each = run_attempts-Runs func between each attempts 0
