-- ===== src/Session/Admission.antt =====
-- What reaches the callbacks of a session and what resolves its waits.
use yalexs_ble.Prelude.{
  ℕ, zero, suc, ◌≡◌, ◌≢◌, refl, subst, ◌⊎◌, inl, inr, true, some, List, [], ◌∷◌, length, get_elem?,
  set, arith, Bool-cases, Option-cases,
}
use yalexs_ble.Errors.{ok, response_error, Error}
use yalexs_ble.Session.Frame.{validate_response}
use yalexs_ble.Session.State.{Future, resolved, failed, Session, admits, matched}
use yalexs_ble.Session.Notify.{
  Call, state_callback, result_callback, reject_frame, answers_ack, announce, take_ack, take_answer,
  deliver, admit, notify,
}
use yalexs_ble.Session.Waits.{validate_response-cases, notify-cases}

-- A decrypted frame that passed the gate.
abbrev pub IsFrame : List ℕ → Type 0
IsFrame frame = (length frame ≡ 18) × (validate_response frame ≡ ok tt)

abbrev pub call_frame : Call → List ℕ
call_frame (state_callback frame) = frame
call_frame (result_callback frame) = frame

abbrev pub AllFrames : List Call → Type 0
AllFrames [] = Unit
AllFrames (c ∷ cs) = IsFrame (call_frame c) × AllFrames cs

module _ {C : Type 0} (s : Session C) where
  deliver_calls : (frame : List ℕ) → IsFrame frame → AllFrames (deliver s frame).calls
  unfolding deliver take_ack take_answer
  deliver_calls frame h = ground arith

  admit_calls : (frame : List ℕ) → length frame ≡ 18 → AllFrames (admit s frame).calls
  unfolding admit
  admit_calls frame h = elim (validate_response-cases frame h) [
    | inl valid ↦ rw (valid, admit) (deliver_calls frame (h, valid))
    | inr invalid ↦ rw (invalid, admit) tt
  ]

-- Why a future of the session may be resolved with a frame: it answers the wait that is armed on
-- that future.
abbrev pub Answers : {C : Type 0} → Session C → ℕ → List ℕ → Type 0
Answers s j v =
    ((s.notify_future ≡ some j) × (admits s.notify_matcher v ≡ true))
    ⊎ ((s.ack_future ≡ some j) × (s.staged ≡ true) × (matched s.ack_matcher v ≡ true))

set_resolved :
    (futures : List Future) (i j : ℕ) (w v : List ℕ)
    → get_elem? (set futures i (resolved w)) j ≡ some (resolved v)
    → (get_elem? futures j ≡ some (resolved v)) ⊎ ((i ≡ j) × (w ≡ v))
set_resolved [] i j w v h = cc
set_resolved (x ∷ xs) zero zero w v h = ground arith
set_resolved (x ∷ xs) zero (suc j) w v h = inl h
set_resolved (x ∷ xs) (suc i) zero w v h = inl h
set_resolved (x ∷ xs) (suc i) (suc j) w v h = ground (arith, set_resolved xs i j w v h)

set_failed :
    (futures : List Future) (i j : ℕ) (e : Error) (v : List ℕ)
    → get_elem? (set futures i (failed e)) j ≡ some (resolved v)
    → get_elem? futures j ≡ some (resolved v)
set_failed [] i j e v h = cc
set_failed (x ∷ xs) zero zero e v h = absurd (ground arith)
set_failed (x ∷ xs) zero (suc j) e v h = h
set_failed (x ∷ xs) (suc i) zero e v h = h
set_failed (x ∷ xs) (suc i) (suc j) e v h = set_failed xs i j e v h

-- How a future that is resolved after a step came to be so.
abbrev Resolves : {C : Type 0} → Session C → ℕ → List ℕ → List ℕ → Type 0
Resolves s j frame v = (get_elem? s.futures j ≡ some (resolved v)) ⊎ ((frame ≡ v) × Answers s j v)

module _ {C : Type 0} (s : Session C) (j : ℕ) (v : List ℕ) where
  take_ack-Resolves :
      (frame : List ℕ) (calls : List Call)
      → answers_ack s frame ≡ true
      → get_elem? (take_ack s frame calls).session.futures j ≡ some (resolved v)
      → Resolves s j frame v
  unfolding take_ack
  take_ack-Resolves frame calls armed h = elim (Option-cases s.ack_future) [
    | inl unarmed ↦ ground arith
    | inr (i, e) ↦ ground (arith, set_resolved s.futures i j frame v)
  ]

  take_answer-Resolves :
      (frame : List ℕ) (calls : List Call)
      → get_elem? (take_answer s frame calls).session.futures j ≡ some (resolved v)
      → Resolves s j frame v
  unfolding take_answer
  take_answer-Resolves frame calls h = elim (Option-cases s.notify_future) [
    | inl unarmed ↦ ground arith
    | inr (i, e) ↦ ground (arith, set_resolved s.futures i j frame v)
  ]

  deliver-Resolves :
      (frame : List ℕ)
      → get_elem? (deliver s frame).session.futures j ≡ some (resolved v)
      → Resolves s j frame v
  unfolding deliver
  deliver-Resolves frame h = elim (Bool-cases (answers_ack s frame)) [
    | inl ack ↦ take_ack-Resolves frame (announce s frame) ack (rw (ack, deliver) at h)
    | inr answer ↦ take_answer-Resolves frame (announce s frame) (rw (answer, deliver) at h)
  ]

  reject_resolves :
      (e : Error)
      → get_elem? (reject_frame s e).futures j ≡ some (resolved v)
      → get_elem? s.futures j ≡ some (resolved v)
  unfolding reject_frame
  reject_resolves e h = elim (Option-cases s.notify_future) [
    | inl unarmed ↦ ground arith
    | inr (i, armed) ↦ ground (arith, set_failed s.futures i j e v)
  ]

  admit_resolves :
      (frame : List ℕ)
      → length frame ≡ 18
      → get_elem? (admit s frame).session.futures j ≡ some (resolved v)
      → (get_elem? s.futures j ≡ some (resolved v)) ⊎ (IsFrame v × Answers s j v)
  unfolding admit
  admit_resolves frame len h = elim (validate_response-cases frame len) [
    | inl valid ↦ elim (deliver-Resolves frame (rw (valid, admit) at h)) [
      | inl before ↦ inl before
      | inr (same, answers) ↦ inr (subst (λ f. IsFrame f) same (len, valid), answers)
    ]
    | inr invalid ↦ inl (reject_resolves response_error (rw (invalid, admit) at h))
  ]

-- The part of a session that a rejected frame leaves alone while an operation is staged.
abbrev SameWaits : {C : Type 0} → Session C → Session C → Type 0
SameWaits s s' =
    (s'.futures ≡ s.futures)
    × (s'.notify_future ≡ s.notify_future)
    × (s'.ack_future ≡ s.ack_future)
    × (s'.progress ≡ s.progress)
    × (s'.staged ≡ true)

module _ {C : Type 0} (s : Session C) (staged : s.staged ≡ true) where
  reject_keeps : SameWaits s (reject_frame s response_error)
  unfolding reject_frame
  reject_keeps = ground arith

  deliver_speaks : (frame : List ℕ) → s.has_state_callback ≡ true → (deliver s frame).calls ≢ []
  unfolding deliver take_ack take_answer
  deliver_speaks frame heard silent = ground arith

  admit_keeps :
      (frame : List ℕ)
      → s.has_state_callback ≡ true
      → length frame ≡ 18
      → (admit s frame).calls ≡ []
      → SameWaits s (admit s frame).session
  unfolding admit
  admit_keeps frame heard len silent = elim (validate_response-cases frame len) [
    | inl valid ↦ absurd (deliver_speaks frame heard (rw (valid, admit) at silent))
    | inr invalid ↦ rw (invalid, admit) reject_keeps
  ]

module _ {C : Type 0} (update : C → List ℕ → List ℕ × C)
    (whole_blocks : (c : C) (block : List ℕ) → length (update c block).0 ≡ length block)
    (s : Session C) (now : ℕ) (payload : List ℕ) where
  -- With a cipher that returns as many bytes as it is given, every frame that a notification
  -- hands to the state callback or the result callback has 18 bytes, the right checksum and a
  -- response flag.
  pub notify_calls_frames : AllFrames (notify update s now payload).calls
  notify_calls_frames =
      notify-cases update whole_blocks s now payload (λ out. AllFrames out.calls) tt tt
        (λ frame c len. admit_calls _ frame len)

  -- With a cipher that returns as many bytes as it is given, a future that is resolved after a
  -- notification was resolved with the same frame before, or holds a valid frame that answers the wait that was armed on it: the answer
  -- wait with a matcher that admits the frame, or the acknowledgment wait of a staged operation
  -- with a matcher that matches it.
  pub notify-Answers :
      (j : ℕ) (v : List ℕ)
      → get_elem? (notify update s now payload).session.futures j ≡ some (resolved v)
      → (get_elem? s.futures j ≡ some (resolved v)) ⊎ (IsFrame v × Answers s j v)
  notify-Answers j v =
      notify-cases update whole_blocks s now payload
        (λ out.
          get_elem? out.session.futures j ≡ some (resolved v)
          → (get_elem? s.futures j ≡ some (resolved v)) ⊎ (IsFrame v × Answers s j v))
        (λ h. inl h)
        (λ h. inl (reject_resolves (record s { last_callback_time = now }) j v response_error h))
        (λ frame c len h. admit_resolves _ j v frame len h)

  -- While a staged operation of a session with a state callback waits, a notification that the
  -- state callback does not hear of (empty, of another length, or invalid) changes no future, no
  -- armed wait and no recorded progress.
  pub unheard_notify_keeps_waits :
      s.staged ≡ true
      → s.has_state_callback ≡ true
      → (notify update s now payload).calls ≡ []
      → let s' = (notify update s now payload).session in
        (s'.futures ≡ s.futures)
        × (s'.notify_future ≡ s.notify_future)
        × (s'.ack_future ≡ s.ack_future)
        × (s'.progress ≡ s.progress)
        × (s'.staged ≡ true)
  unheard_notify_keeps_waits staged heard =
      notify-cases update whole_blocks s now payload
        (λ out.
          out.calls ≡ []
          → (out.session.futures ≡ s.futures)
            × (out.session.notify_future ≡ s.notify_future)
            × (out.session.ack_future ≡ s.ack_future)
            × (out.session.progress ≡ s.progress)
            × (out.session.staged ≡ true))
        (λ _. (refl, refl, refl, refl, staged))
        (λ _. reject_keeps (record s { last_callback_time = now }) staged)
        (λ frame c len silent.
          admit_keeps (record s { last_callback_time = now; cipher_decrypt = c }) staged frame heard
            len silent)
