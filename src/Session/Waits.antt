-- ===== src/Session/Waits.antt =====
-- The waits of a session: what every notification keeps, and that none of its steps raises.
use yalexs_ble.Prelude.{
  ℕ, ◌≡◌, refl, ◌∙◌, ◌≢◌, ◌⊎◌, inl, inr, Option, none, some, List, length, get_elem?, get_or,
  get_elem?-get_or, get_elem?-set_ne, length-take, take, arith, Bool-cases, Option-cases, [],
  is_empty, ◌==◌,
}
use yalexs_ble.Errors.{Error, ok, err, response_error}
use yalexs_ble.Util.Bytes.{copy}
use yalexs_ble.Util.CopyLaws.{length-copy}
use yalexs_ble.Util.ChecksumLaws.{simple_checksum-balances}
use yalexs_ble.Util.Checksum.{simple_checksum}
use yalexs_ble.Session.Frame.{validate_response}
use yalexs_ble.Session.State.{Future, pending, resolved, failed, Session, finish_pending}
use yalexs_ble.Session.Notify.{
  Outcome, Call, announce, decrypt, reject_frame, answers_ack, take_ack, take_answer, deliver,
  admit, notify,
}

-- An armed acknowledgment wait has a pending future, which is not that of the answer.
abbrev pub AckPending : Option ℕ → Option ℕ → List Future → Type 0
AckPending none answer futures = Unit
AckPending (some i) none futures = get_elem? futures i ≡ some pending
AckPending (some i) (some j) futures = (get_elem? futures i ≡ some pending) × (i ≢ j)

pub record IsWaiting {C : Type 0} (s : Session C) : Type 0 where
  pub ack_pending : AckPending s.ack_future s.notify_future s.futures

-- A frame of the right length passes validation or fails it with a ResponseError.
pub validate_response-cases :
    (frame : List ℕ)
    → length frame ≡ 18
    → (validate_response frame ≡ ok tt) ⊎ (validate_response frame ≡ err response_error)
unfolding validate_response
validate_response-cases frame h =
    let (c, e, _, _) = simple_checksum-balances frame (omega arith) in
    go c (get_or frame 0 0) e (get_elem?-get_or frame 0 0 (omega arith))
  where
    go :
        (c f : ℕ)
        → simple_checksum frame ≡ ok c
        → get_elem? frame 0 ≡ some f
        → (validate_response frame ≡ ok tt) ⊎ (validate_response frame ≡ err response_error)
    go c f e first = ground arith

pub ack_is_pending :
    (ack answer : Option ℕ) (futures : List Future) (i : ℕ)
    → AckPending ack answer futures
    → ack ≡ some i
    → get_elem? futures i ≡ some pending
ack_is_pending none answer futures i h e = cc
ack_is_pending (some j) none futures i h e = ground arith
ack_is_pending (some j) (some k) futures i h e = ground arith

finish-AckPending :
    (ack answer : Option ℕ) (futures : List Future) (outcome : Future)
    → AckPending ack answer futures
    → AckPending ack none (finish_pending futures answer outcome)
finish-AckPending none answer futures outcome h = tt
finish-AckPending (some i) none futures outcome h = h
finish-AckPending (some i) (some j) futures outcome h =
    ground (arith, get_elem?-set_ne futures j i outcome)

abbrev Keeps : {C : Type 0} → Outcome C → Type 0
Keeps out = (out.raised ≡ none) × IsWaiting out.session

module _ {C : Type 0} (s : Session C) (waiting : IsWaiting s) where
  reject_frame-IsWaiting : (e : Error) → IsWaiting (reject_frame s e)
  unfolding reject_frame
  reject_frame-IsWaiting e =
      ground (arith, finish-AckPending s.ack_future s.notify_future s.futures (failed e))

  take_ack-Keeps : (frame : List ℕ) (calls : List Call) → Keeps (take_ack s frame calls)
  unfolding take_ack
  take_ack-Keeps frame calls = elim (Option-cases s.ack_future) [
    | inl unarmed ↦ ground arith
    | inr (i, e) ↦
        ground
          (arith, ack_is_pending s.ack_future s.notify_future s.futures i waiting.ack_pending e)
  ]

  take_answer-Keeps : (frame : List ℕ) (calls : List Call) → Keeps (take_answer s frame calls)
  unfolding take_answer
  take_answer-Keeps frame calls =
      ground (arith, finish-AckPending s.ack_future s.notify_future s.futures (resolved frame))

  deliver-Keeps : (frame : List ℕ) → Keeps (deliver s frame)
  unfolding deliver
  deliver-Keeps frame =
      let calls = announce s frame in
      elim (Bool-cases (answers_ack s frame)) [
        | inl ack ↦ rw ack (take_ack-Keeps frame calls)
        | inr answer ↦ rw answer (take_answer-Keeps frame calls)
      ]

  admit-Keeps : (frame : List ℕ) → length frame ≡ 18 → Keeps (admit s frame)
  unfolding admit
  admit-Keeps frame h = elim (validate_response-cases frame h) [
    | inl valid ↦ rw (valid, admit) (deliver-Keeps frame)
    | inr invalid ↦ rw (invalid, admit) (refl, reject_frame-IsWaiting response_error)
  ]

module _ {C : Type 0} (update : C → List ℕ → List ℕ × C)
    (whole_blocks : (c : C) (block : List ℕ) → length (update c block).0 ≡ length block)
    (s : Session C) (now : ℕ) (payload : List ℕ) where
  -- A payload is empty, of another length, or goes to `admit` after decryption.
  pub notify-cases :
      (P : Outcome C → Type 0)
      → P (record { session = record s { last_callback_time = now }; calls = []; raised = none })
      → P (record {
        session = reject_frame (record s { last_callback_time = now }) response_error;
        calls = [];
        raised = none;
      })
      → ((frame : List ℕ) (c : Option C)
          → length frame ≡ 18
          → P (admit (record s { last_callback_time = now; cipher_decrypt = c }) frame))
      → P (notify update s now payload)
  unfolding notify decrypt
  notify-cases P on_empty on_wrong on_frame = elim (Bool-cases (is_empty payload)) [
    | inl empty ↦ rw (empty, notify) on_empty
    | inr some_bytes ↦ elim (Bool-cases (length payload == 18)) [
      | inr wrong ↦ rw (some_bytes, wrong, notify) on_wrong
      | inl full ↦
          let len : length payload ≡ 18 = ground arith in
          elim (Option-cases s.cipher_decrypt) [
            | inl plain ↦
                rw (some_bytes, full, plain, notify, decrypt)
                  (on_frame payload s.cipher_decrypt len)
            | inr (c, e) ↦
                rw (some_bytes, full, e, notify, decrypt)
                  (on_frame (copy payload (update c (take 16 payload)).0 0)
                    (some (update c (take 16 payload)).1)
                    (length-copy payload (update c (take 16 payload)).0 0
                        (omega (arith, whole_blocks c (take 16 payload), length-take 16 payload))
                      ∙ len))
          ]
    ]
  ]

  -- With a cipher that returns as many bytes as it is given, handling any notification raises
  -- nothing, and keeps the property that an armed acknowledgment wait has a pending future, which
  -- is not that of the answer.
  pub notify_raises_nothing :
      IsWaiting s
      → ((notify update s now payload).raised ≡ none)
        × IsWaiting (notify update s now payload).session
  notify_raises_nothing waiting =
      let heard = record s { last_callback_time = now } in
      let waits : IsWaiting heard = ground arith in
      notify-cases (λ out. (out.raised ≡ none) × IsWaiting out.session) (refl, waits)
        (refl, reject_frame-IsWaiting heard waits response_error)
        (λ frame c len.
          admit-Keeps (record s { last_callback_time = now; cipher_decrypt = c }) (ground arith)
            frame len)
