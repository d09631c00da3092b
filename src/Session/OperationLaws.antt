-- ===== src/Session/OperationLaws.antt =====
-- What the staged wait of a mechanical operation returns.
use yalexs_ble.Prelude.{
  ℕ, suc, ◌≡◌, refl, ◌∙◌, subst, ◌⊎◌, inl, inr, Bool, true, false, Option, none, some, List, [],
  ◌∷◌, ◌++◌, length, get_elem?, arith, Bool-cases, Option-cases,
}
use yalexs_ble.Errors.{ok}
use yalexs_ble.Session.State.{Future, pending, resolved, Matcher, Session, admits}
use yalexs_ble.Session.Notify.{notify}
use yalexs_ble.Session.Admission.{IsFrame, notify-Answers}
use yalexs_ble.Session.Disarming.{KeepsOrDisarms, notify-Disarms}
use yalexs_ble.Session.Write.{hear}
use yalexs_ble.Session.Operation.{
  Staging, OperationCall, write_success, notified, is_done, arm_operation, await_result, await_ack,
  staged_wait, locked_write_operation,
}

-- A wait that was armed on future `i` with `matcher`, and may have been disarmed since.
abbrev ArmedOn : ℕ → Matcher → Option ℕ → Option Matcher → Type 0
ArmedOn i matcher future armed = ((future ≡ some i) × (armed ≡ some matcher)) ⊎ (future ≡ none)

ArmedOn-kept :
    (i : ℕ) (matcher : Matcher) (f f' : Option ℕ) (m m' : Option Matcher)
    → ArmedOn i matcher f m
    → KeepsOrDisarms f m f' m'
    → ArmedOn i matcher f' m'
ArmedOn-kept i matcher f f' m m' (inl (a, b)) (inl (p, q)) = inl (p ∙ a, q ∙ b)
ArmedOn-kept i matcher f f' m m' (inr a) (inl (p, q)) = inr (p ∙ a)
ArmedOn-kept i matcher f f' m m' armed (inr p) = inr p

module _ (i : ℕ) (ack response : Matcher) where
  -- While an operation runs whose futures are `i`, for the acknowledgment, and the next one.
  record Operating {C : Type 0} (s : Session C) : Type 0 where
    ack_armed : ArmedOn i ack s.ack_future s.ack_matcher
    answer_armed : ArmedOn (suc i) response s.notify_future s.notify_matcher
    answered :
        (v : List ℕ)
        → get_elem? s.futures (suc i) ≡ some (resolved v)
        → IsFrame v × (response v ≡ true)

  admitted_by_response :
      {C : Type 0} (s : Session C) (v : List ℕ)
      → ArmedOn (suc i) response s.notify_future s.notify_matcher
      → s.notify_future ≡ some (suc i)
      → admits s.notify_matcher v ≡ true
      → response v ≡ true
  admitted_by_response s v (inl (f, m)) armed admitted = subst (λ k. admits k v ≡ true) m admitted
  admitted_by_response s v (inr f) armed admitted = cc

  -- The acknowledgment wait is never that of the result's future.
  ack_elsewhere :
      {C : Type 0} (s : Session C)
      → ArmedOn i ack s.ack_future s.ack_matcher
      → s.ack_future ≡ some (suc i)
      → ⊥
  ack_elsewhere s (inl (f, m)) armed = ground arith
  ack_elsewhere s (inr f) armed = cc

  module _ {C : Type 0} (update : C → List ℕ → List ℕ × C)
      (whole_blocks : (c : C) (block : List ℕ) → length (update c block).0 ≡ length block) where
    notify-Operating :
        (s : Session C) (now : ℕ) (payload : List ℕ)
        → Operating s
        → Operating (notify update s now payload).session
    notify-Operating s now payload h =
        let s' = (notify update s now payload).session in
        let (d_answer, d_ack, _) = notify-Disarms update whole_blocks s now payload in
        record {
          ack_armed =
              ArmedOn-kept i ack s.ack_future s'.ack_future s.ack_matcher s'.ack_matcher h.ack_armed
                d_ack;
          answer_armed =
              ArmedOn-kept (suc i) response s.notify_future s'.notify_future s.notify_matcher
                s'.notify_matcher h.answer_armed d_answer;
          answered = λ v after.
              elim (notify-Answers update whole_blocks s now payload (suc i) v after) [
                | inl before ↦ h.answered v before
                | inr (valid, inl (armed, admitted)) ↦
                    (valid, admitted_by_response s v h.answer_armed armed admitted)
                | inr (valid, inr (armed, _, _)) ↦ absurd (ack_elsewhere s h.ack_armed armed)
              ];
        }

    hear-Operating :
        (s : Session C) (heard : List (ℕ × List ℕ))
        → Operating s
        → Operating (hear update s heard).0
    unfolding hear
    hear-Operating s [] h = h
    hear-Operating s ((now, payload) ∷ rest) h =
        hear-Operating (notify update s now payload).session rest (notify-Operating s now payload h)

    -- The last wait returns the answer alone.
    await_result_sound :
        (env : Staging) (s : Session C) (calls : List OperationCall) {frame : List ℕ}
        → Operating s
        → (await_result update (suc i) env s calls).result ≡ ok frame
        → IsFrame frame × (response frame ≡ true)
    unfolding await_result
    await_result_sound env s calls {frame} h e =
        (hear-Operating s env.during_result h).answered frame (ground arith)

    await_ack_sound :
        (env : Staging) (s : Session C) (calls : List OperationCall) {frame : List ℕ}
        → Operating s
        → (await_ack update i env s calls).result ≡ ok frame
        → IsFrame frame × (response frame ≡ true)
    unfolding await_ack
    await_ack_sound env s calls {frame} h e =
        let s' = (hear update s env.during_ack).0 in
        let calls' = calls ++ notified (hear update s env.during_ack).1 ∷ [] in
        let after = hear-Operating s env.during_ack h in
        elim (Option-cases env.ack_interrupted) [
          | inr (x, broken) ↦ absurd (ground arith)
          | inl waited ↦ elim (Bool-cases (is_done (get_elem? s'.futures (suc i)))) [
            | inl done ↦ after.answered frame (ground arith)
            | inr open_result ↦ elim (Bool-cases (is_done (get_elem? s'.futures i))) [
              | inl acked ↦
                  await_result_sound env s' calls' after
                    (rw (waited, open_result, acked, await_ack) at e)
              | inr unanswered ↦ absurd (ground arith)
            ]
          ]
        ]

    staged_wait_sound :
        (retry_after_write : Bool) (env : Staging) (s : Session C) {frame : List ℕ}
        → Operating s
        → (staged_wait update i retry_after_write env s).result ≡ ok frame
        → IsFrame frame × (response frame ≡ true)
    unfolding staged_wait
    staged_wait_sound retry_after_write env s {frame} h e =
        let s' = (hear update s env.during_write).0 in
        let calls = notified (hear update s env.during_write).1 ∷ write_success ∷ [] in
        let after = hear-Operating s env.during_write h in
        elim (Option-cases env.write_error) [
          | inr (x, broken) ↦ absurd (ground arith)
          | inl written ↦ elim (Bool-cases retry_after_write) [
            | inl retry ↦ await_ack_sound env s' calls after (rw (written, retry, staged_wait) at e)
            | inr once ↦
                await_result_sound env s' calls after (rw (written, once, staged_wait) at e)
          ]
        ]

-- The futures that an operation arms are pending and are its own.
arm_operation-Operating :
    {C : Type 0} (ack response : Matcher) (has_result_callback : Bool) (s : Session C)
    → Operating (length s.futures) ack response (arm_operation ack response has_result_callback s)
unfolding arm_operation
arm_operation-Operating ack response has_result_callback s = record {
  ack_armed = inl (refl, refl);
  answer_armed = inl (refl, refl);
  answered = λ v e. absurd (unresolved s.futures v e);
}
  where
    unresolved :
        (futures : List Future) (v : List ℕ)
        → get_elem? (futures ++ pending ∷ pending ∷ []) (suc (length futures)) ≡ some (resolved v)
        → ⊥
    unresolved [] v e = cc
    unresolved (_ ∷ futures) v e = unresolved futures v e

module _ {C : Type 0} (update : C → List ℕ → List ℕ × C)
    (whole_blocks : (c : C) (block : List ℕ) → length (update c block).0 ≡ length block)
    (ack response : Matcher) (has_result_callback retry_after_write : Bool) (env : Staging)
    (s : Session C) where
  -- With a cipher that returns as many bytes as it is given, a mechanical operation succeeds only
  -- with a valid frame that its response matcher matches: no acknowledgment and no rejected frame
  -- completes it.
  pub locked_write_operation_answers :
      (is_connected : Bool) {frame : List ℕ}
      → (locked_write_operation update ack response has_result_callback retry_after_write
          is_connected env s).result
        ≡ ok frame
      → IsFrame frame × (response frame ≡ true)
  unfolding locked_write_operation
  locked_write_operation_answers false e = absurd (ground arith)
  locked_write_operation_answers true e =
      staged_wait_sound (length s.futures) ack response update whole_blocks retry_after_write env
        (arm_operation ack response has_result_callback s)
        (arm_operation-Operating ack response has_result_callback s) e
