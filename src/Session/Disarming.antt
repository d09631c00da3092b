-- ===== src/Session/Disarming.antt =====
-- What a notification does to the armed waits: it keeps a wait as it is or disarms it.
use yalexs_ble.Prelude.{ℕ, ◌≡◌, refl, ◌⊎◌, inl, inr, none, List, length, arith, Bool-cases, Option}
use yalexs_ble.Errors.{Error, response_error}
use yalexs_ble.Session.State.{Session, Matcher}
use yalexs_ble.Session.Notify.{
  Call, reject_frame, answers_ack, announce, take_ack, take_answer, deliver, admit, notify,
}
use yalexs_ble.Session.Waits.{validate_response-cases, notify-cases}

-- A wait before and after: the same, or disarmed.
abbrev pub KeepsOrDisarms : Option ℕ → Option Matcher → Option ℕ → Option Matcher → Type 0
KeepsOrDisarms i m i' m' = ((i' ≡ i) × (m' ≡ m)) ⊎ (i' ≡ none)

abbrev pub Disarms : {C : Type 0} → Session C → Session C → Type 0
Disarms s s' =
    KeepsOrDisarms s.notify_future s.notify_matcher s'.notify_future s'.notify_matcher
    × KeepsOrDisarms s.ack_future s.ack_matcher s'.ack_future s'.ack_matcher
    × (s'.staged ≡ s.staged)

module _ {C : Type 0} (s : Session C) where
  take_ack-Disarms :
      (frame : List ℕ) (calls : List Call) → Disarms s (take_ack s frame calls).session
  unfolding take_ack
  take_ack-Disarms frame calls = ground arith

  take_answer-Disarms :
      (frame : List ℕ) (calls : List Call) → Disarms s (take_answer s frame calls).session
  unfolding take_answer
  take_answer-Disarms frame calls = ground arith

  reject_frame-Disarms : (e : Error) → Disarms s (reject_frame s e)
  unfolding reject_frame
  reject_frame-Disarms e = ground arith

  deliver-Disarms : (frame : List ℕ) → Disarms s (deliver s frame).session
  unfolding deliver
  deliver-Disarms frame = elim (Bool-cases (answers_ack s frame)) [
    | inl ack ↦ rw (ack, deliver) (take_ack-Disarms frame (announce s frame))
    | inr answer ↦ rw (answer, deliver) (take_answer-Disarms frame (announce s frame))
  ]

  admit-Disarms : (frame : List ℕ) → length frame ≡ 18 → Disarms s (admit s frame).session
  unfolding admit
  admit-Disarms frame len = elim (validate_response-cases frame len) [
    | inl valid ↦ rw (valid, admit) (deliver-Disarms frame)
    | inr invalid ↦ rw (invalid, admit) (reject_frame-Disarms response_error)
  ]

module _ {C : Type 0} (update : C → List ℕ → List ℕ × C)
    (whole_blocks : (c : C) (block : List ℕ) → length (update c block).0 ≡ length block)
    (s : Session C) (now : ℕ) (payload : List ℕ) where
  pub notify-Disarms : Disarms s (notify update s now payload).session
  notify-Disarms =
      notify-cases update whole_blocks s now payload (λ out. Disarms s out.session)
        (inl (refl, refl), inl (refl, refl), refl)
        (reject_frame-Disarms (record s { last_callback_time = now }) response_error)
        (λ frame c len.
          admit-Disarms (record s { last_callback_time = now; cipher_decrypt = c }) frame len)
