-- ===== src/Session/WriteLaws.antt =====
-- What `_locked_write` returns, how often it writes, and that it leaves no wait armed.
use yalexs_ble.Prelude.{
  ℕ, zero, suc, ◌≤◌, ◌≡◌, refl, ap, ◌∙◌, subst, ◌⊎◌, inl, inr, Bool, true, false, Option, none,
  some, List, [], ◌∷◌, ◌++◌, length, get_elem?, arith, Bool-cases,
}
use yalexs_ble.Errors.{ok}
use yalexs_ble.Session.State.{Future, pending, resolved, Matcher, Session, admits}
use yalexs_ble.Session.Notify.{notify}
use yalexs_ble.Session.Admission.{IsFrame, notify-Answers}
use yalexs_ble.Session.Disarming.{KeepsOrDisarms, notify-Disarms}
use yalexs_ble.Session.Write.{
  Attempt, hear, attempt_result, arm_wait, write_once, is_rejected, write_attempts, locked_write,
}

module _ (matcher : Option Matcher) (i : ℕ) where
  -- During a plain exchange on future `i`: no operation is staged, the armed wait is that of `i`
  -- with its matcher, and what `i` holds is a valid frame that the matcher admits.
  pub record Exchanging {C : Type 0} (s : Session C) : Type 0 where
    pub unstaged : s.staged ≡ false
    pub armed :
        ((s.notify_future ≡ some i) × (s.notify_matcher ≡ matcher)) ⊎ (s.notify_future ≡ none)
    pub answered :
        (v : List ℕ)
        → get_elem? s.futures i ≡ some (resolved v)
        → IsFrame v × (admits matcher v ≡ true)

-- The future made last is pending.
pub pending_last :
    (futures : List Future) (v : List ℕ)
    → get_elem? (futures ++ pending ∷ []) (length futures) ≡ some (resolved v)
    → ⊥
pending_last [] v e = cc
pending_last (_ ∷ futures) v e = pending_last futures v e

-- An attempt succeeds only with the frame that its future holds.
attempt_result-frame :
    (attempt : Attempt) (future : Option Future) {frame : List ℕ}
    → attempt_result attempt future ≡ ok frame
    → future ≡ some (resolved frame)
attempt_result-frame attempt future h = ground arith

module _ {C : Type 0} (update : C → List ℕ → List ℕ × C)
    (whole_blocks : (c : C) (block : List ℕ) → length (update c block).0 ≡ length block)
    (matcher : Option Matcher) where
  notify-Exchanging :
      (i : ℕ) (s : Session C) (now : ℕ) (payload : List ℕ)
      → Exchanging matcher i s
      → Exchanging matcher i (notify update s now payload).session
  notify-Exchanging i s now payload h =
      let d = notify-Disarms update whole_blocks s now payload in
      record {
        unstaged = d.2 ∙ h.unstaged;
        armed = armed_after s (notify update s now payload).session h.armed d.0;
        answered = λ v after. elim (notify-Answers update whole_blocks s now payload i v after) [
          | inl before ↦ h.answered v before
          | inr (valid, inl (armed, admitted)) ↦ (valid, admitted_by s v h.armed armed admitted)
          | inr (valid, inr (_, staged, _)) ↦ absurd (staged_not_unstaged staged h.unstaged)
        ];
      }
    where
      armed_after :
          (s s' : Session C)
          → ((s.notify_future ≡ some i) × (s.notify_matcher ≡ matcher)) ⊎ (s.notify_future ≡ none)
          → KeepsOrDisarms s.notify_future s.notify_matcher s'.notify_future s'.notify_matcher
          → ((s'.notify_future ≡ some i) × (s'.notify_matcher ≡ matcher))
            ⊎ (s'.notify_future ≡ none)
      armed_after s s' (inl (f, m)) (inl (f', m')) = inl (f' ∙ f, m' ∙ m)
      armed_after s s' (inr f) (inl (f', m')) = inr (f' ∙ f)
      armed_after s s' a (inr f') = inr f'

      admitted_by :
          (s : Session C) (v : List ℕ)
          → ((s.notify_future ≡ some i) × (s.notify_matcher ≡ matcher)) ⊎ (s.notify_future ≡ none)
          → s.notify_future ≡ some i
          → admits s.notify_matcher v ≡ true
          → admits matcher v ≡ true
      admitted_by s v (inl (f, m)) armed admitted = subst (λ k. admits k v ≡ true) m admitted
      admitted_by s v (inr f) armed admitted = cc

      staged_not_unstaged : {b : Bool} → b ≡ true → b ≡ false → ⊥
      staged_not_unstaged p q = cc

  hear-Exchanging :
      (i : ℕ) (s : Session C) (heard : List (ℕ × List ℕ))
      → Exchanging matcher i s
      → Exchanging matcher i (hear update s heard).0
  unfolding hear
  hear-Exchanging i s [] h = h
  hear-Exchanging i s ((now, payload) ∷ rest) h =
      hear-Exchanging i (notify update s now payload).session rest
        (notify-Exchanging i s now payload h)

  arm_wait-Exchanging :
      (s : Session C)
      → s.staged ≡ false
      → Exchanging matcher (length s.futures) (arm_wait matcher s)
  unfolding arm_wait
  arm_wait-Exchanging s h = record {
    unstaged = h;
    armed = inl (refl, refl);
    answered = λ v e. absurd (pending_last s.futures v e);
  }

  -- What one attempt returns answers the command.
  write_once_sound :
      (s : Session C) (attempt : Attempt) {frame : List ℕ}
      → s.staged ≡ false
      → (write_once update matcher s attempt).result ≡ ok frame
      → IsFrame frame × (admits matcher frame ≡ true)
  unfolding write_once
  write_once_sound s attempt {frame} h e =
      let after =
        hear-Exchanging (length s.futures) (arm_wait matcher s) attempt.heard
          (arm_wait-Exchanging s h) in
      after.answered frame (attempt_result-frame attempt _ e)

  write_once-unstaged :
      (s : Session C) (attempt : Attempt)
      → s.staged ≡ false
      → (write_once update matcher s attempt).session.staged ≡ false
  unfolding write_once
  write_once-unstaged s attempt h =
      (hear-Exchanging (length s.futures) (arm_wait matcher s) attempt.heard
        (arm_wait-Exchanging s h)).unstaged

  write_attempts_sound :
      (later : ℕ) (attempts : ℕ → Attempt) (s : Session C) {frame : List ℕ}
      → s.staged ≡ false
      → (write_attempts update matcher later attempts s).result ≡ ok frame
      → IsFrame frame × (admits matcher frame ≡ true)
  unfolding write_attempts
  write_attempts_sound zero attempts s h e = write_once_sound s (attempts 0) h e
  write_attempts_sound (suc later) attempts s h e =
      elim (Bool-cases (is_rejected (write_once update matcher s (attempts 0)).result)) [
        | inl again ↦
            write_attempts_sound later (λ n. attempts (suc n))
              (write_once update matcher s (attempts 0)).session
              (write_once-unstaged s (attempts 0) h) (rw (again, write_attempts) at e)
        | inr over ↦ write_once_sound s (attempts 0) h (rw (over, write_attempts) at e)
      ]

  -- With a cipher that returns as many bytes as it is given, an exchange on a session with no
  -- staged operation returns only a valid frame that its matcher admits.
  pub locked_write_answers :
      (is_connected : Bool) (attempts : ℕ → Attempt) (s : Session C) {frame : List ℕ}
      → s.staged ≡ false
      → (locked_write update matcher is_connected attempts s).result ≡ ok frame
      → IsFrame frame × (admits matcher frame ≡ true)
  unfolding locked_write
  locked_write_answers false attempts s h e = absurd (ground arith)
  locked_write_answers true attempts s h e = write_attempts_sound 2 attempts s h e

module _ {C : Type 0} (update : C → List ℕ → List ℕ × C) (matcher : Option Matcher) where
  write_once-writes :
      (s : Session C) (attempt : Attempt) → (write_once update matcher s attempt).writes ≡ 1
  unfolding write_once
  write_once-writes s attempt = refl

  write_attempts_bounded :
      (later : ℕ) (attempts : ℕ → Attempt) (s : Session C)
      → let out = write_attempts update matcher later attempts s in
        (out.writes ≤ suc later)
        × (1 ≤ out.writes)
        × ((is_rejected out.result ≡ false) ⊎ (out.writes ≡ suc later))
  unfolding write_attempts
  write_attempts_bounded zero attempts s =
      let one = write_once-writes s (attempts 0) in (omega arith, omega arith, inr one)
  write_attempts_bounded (suc later) attempts s =
      let first = write_once update matcher s (attempts 0) in
      let (most, least, ended) =
        write_attempts_bounded later (λ n. attempts (suc n)) first.session in
      elim (Bool-cases (is_rejected first.result)) [
        | inl again ↦ rw (again, write_attempts) (omega arith, omega arith, add_one_try ended)
        | inr over ↦
            let one = write_once-writes s (attempts 0) in
            rw (over, write_attempts) (omega arith, omega arith, inl over)
      ]
    where
      add_one_try : {A : Type 0} {n m : ℕ} → A ⊎ (n ≡ m) → A ⊎ (suc n ≡ suc m)
      add_one_try (inl a) = inl a
      add_one_try (inr e) = inr (ap suc e)

  -- An exchange on a connected client writes the command one to three times, gives up on a
  -- ResponseError only after the third write, and leaves no wait armed.
  pub locked_write_retries :
      (attempts : ℕ → Attempt) (s : Session C)
      → let out = locked_write update matcher true attempts s in
        (1 ≤ out.writes)
        × (out.writes ≤ 3)
        × ((is_rejected out.result ≡ false) ⊎ (out.writes ≡ 3))
        × (out.session.notify_future ≡ none)
        × (out.session.notify_matcher ≡ none)
  unfolding locked_write
  locked_write_retries attempts s =
      let (most, least, ended) = write_attempts_bounded 2 attempts s in
      (least, most, ended, refl, refl)
