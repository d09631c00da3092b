-- ===== src/Push/JamStopLaws.antt =====
-- The attempts of a lock operation end at a reported jam.
use yalexs_ble.Prelude.{
  ℕ, suc, ◌≡◌, refl, sym, subst, Bool, true, false, ◌==◌, List, arith, if◌then◌else◌,
}
use yalexs_ble.Errors.{Error, Result, ok, err}
use yalexs_ble.Push.Retry.{is_auth_error, is_not_found_error, is_backoff_error, is_retryable}
use yalexs_ble.Push.Jam.{jam_takes_precedence}
use yalexs_ble.Push.PushLock.{
  PushLock, handle_disconnected, cancel_disconnect_timer, execute_disconnect,
}
use yalexs_ble.Push.Run.{Ask, Progress, Run, then_run}
use yalexs_ble.Push.RetryRun.{
  Between, wait_for, clean_up, count_auth_failure, end_turn, recover_auth, recover_link, recover,
  recovered, run_attempts, exhausted_error, report_auth_failure, report_error,
}
use yalexs_ble.Push.RetryRunLaws.{clean_up-asked}
use yalexs_ble.Push.PrecedenceLaws.{
  Precedes, AllSince, Precedes-jam_takes_precedence, handle_events-Precedes,
}

-- It asked for nothing more, and did not return.
abbrev pub Stops : {A : Type 0} → List Ask → Result A × Progress → Type 0
Stops asked r = (r.1.asked ≡ asked) × ((a : _) → r.0 ≡ ok a → ⊥)

module _ {A : Type 0} where
  raised-Stops : (e : Error) (s : Progress) → Stops {A = A} s.asked (err e, s)
  raised-Stops e s = (refl, λ a h. absurd (cc))

  if-Stops :
      (asked : List Ask) (b : Bool) (x y : Result A × Progress)
      → Stops asked x
      → Stops asked y
      → Stops asked (if b then x else y)
  if-Stops asked true x y l m = l
  if-Stops asked false x y l m = m

  end_turn-Stops :
      (is_last pauses : Bool) (b : Between) (rest : Run A) (s : Progress)
      → jam_takes_precedence s.lock.watcher ≡ true
      → Stops s.asked (end_turn true is_last pauses b rest s)
  unfolding end_turn
  end_turn-Stops is_last pauses b rest s jam =
      if-Stops s.asked is_last _ _ (raised-Stops _ s) (rw jam (raised-Stops _ s))

handle_disconnected-watcher :
    (connect_locked : Bool) (p : PushLock)
    → (handle_disconnected connect_locked p).1.watcher ≡ p.watcher
unfolding handle_disconnected cancel_disconnect_timer execute_disconnect
handle_disconnected-watcher connect_locked p = ground arith

clean_up-Precedes :
    (issue : ℕ) (b : Between) (s : Progress)
    → AllSince issue b.cleanup.heard
    → Precedes issue s.lock.watcher
    → Precedes issue (clean_up b s).1.lock.watcher
unfolding clean_up wait_for
clean_up-Precedes issue b s since held =
    let p = (handle_disconnected b.connect_locked s.lock).1 in
    let held' : Precedes issue p.watcher =
      subst (Precedes issue) (sym (handle_disconnected-watcher b.connect_locked s.lock)) held in
    ground (arith, held', handle_events-Precedes issue b.cleanup.heard p since held')

module _ {A : Type 0} (is_bleak_retry : Error → Bool) (issue : ℕ) where
  -- What follows the clean-up.
  recover_link-Stops :
      (is_last : Bool) (e : Error) (b : Between) (rest : Run A) (s : Progress)
      → AllSince issue b.cleanup.heard
      → Precedes issue s.lock.watcher
      → Stops s.asked (recover_link is_bleak_retry true is_last e b rest s)
  unfolding recover_link
  recover_link-Stops is_last e b rest s since held =
      cleaned (clean_up b s) (clean_up-asked b s) (clean_up-Precedes issue b s since held)
    where
      end : Run A
      end t =
          if is_last
          then (err (exhausted_error e), t)
          else end_turn true is_last (is_backoff_error e) b rest t

      cleaned :
          (r : Result (Unit {0}) × Progress)
          → r.1.asked ≡ s.asked
          → Precedes issue r.1.lock.watcher
          → Stops s.asked (then_run (λ _. end) r.0 r.1)
      cleaned (err e', t) same held' = (same, λ a h. absurd (cc))
      cleaned (ok u, t) same held' =
          subst (λ asked. Stops asked (end t)) same
            (if-Stops t.asked is_last _ _ (raised-Stops _ t) (
              end_turn-Stops is_last (is_backoff_error e) b rest t
                (Precedes-jam_takes_precedence issue t.lock.watcher held')))

  recover_auth-Stops :
      (is_last : Bool) (e : Error) (b : Between) (rest : Run A) (s : Progress)
      → Precedes issue s.lock.watcher
      → Stops s.asked (recover_auth is_bleak_retry true is_last e b rest s)
  unfolding recover_auth count_auth_failure
  recover_auth-Stops is_last e b rest s held =
      let counted : Progress = record s { lock = count_auth_failure s.lock } in
      if-Stops s.asked _ _ _
        (raised-Stops (report_error s.now e b counted.lock)
          (record counted { lock = report_auth_failure s.now counted.lock }))
        (end_turn-Stops is_last true b rest counted
          (Precedes-jam_takes_precedence issue counted.lock.watcher held))

  recover-Stops :
      (is_last : Bool) (e : Error) (b : Between) (rest : Run A) (s : Progress)
      → AllSince issue b.cleanup.heard
      → Precedes issue s.lock.watcher
      → Stops s.asked (recover is_bleak_retry true is_last e b rest s)
  unfolding recover
  recover-Stops is_last e b rest s since held =
      if-Stops s.asked (is_auth_error e) _ _ (recover_auth-Stops is_last e b rest s held) (
        if-Stops s.asked (is_not_found_error e) _ _ (raised-Stops e s) (
          if-Stops s.asked (is_retryable is_bleak_retry e) _ _
            (recover_link-Stops is_last e b rest s since held) (raised-Stops e s)))

  -- Whatever an attempt of a lock operation ends with, if a jam was reported by then, since the
  -- command was issued or in the 5 s before, nothing more is asked of the lock: the attempts end,
  -- and they return exactly as that attempt did, or raise. What the clean-up of the link brings is
  -- taken to be reported after the command was issued.
  pub run_attempts-stops_at_jam :
      (func : ℕ → Run A) (between : ℕ → Between) (left attempt : ℕ) (s : Progress)
      → Precedes issue (func attempt s).1.lock.watcher
      → AllSince issue (between attempt).cleanup.heard
      → let end = run_attempts is_bleak_retry true (suc left) attempt func between s in
        (end.1.asked ≡ (func attempt s).1.asked)
        × ((a : A) → end.0 ≡ ok a → (func attempt s).0 ≡ ok a)
  unfolding run_attempts
  run_attempts-stops_at_jam func between left attempt s held since = ended (func attempt s) held
    where
      rest : Run A
      rest = run_attempts is_bleak_retry true left (suc attempt) func between

      ended :
          (r : Result A × Progress)
          → Precedes issue r.1.lock.watcher
          → let end = recovered is_bleak_retry true (left == 0) (between attempt) rest r in
            (end.1.asked ≡ r.1.asked) × ((a : A) → end.0 ≡ ok a → r.0 ≡ ok a)
      ended (ok a, t) held' = (refl, λ a' h. h)
      ended (err e, t) held' =
          let (same, raises) = recover-Stops (left == 0) e (between attempt) rest t since held' in
          (same, λ a h. absurd (raises a h))
