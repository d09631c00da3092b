-- ===== src/Lock/KeycodeLaws.antt =====
-- The keypad commands: their frames, their order, and what stops them.
use yalexs_ble.Prelude.{
  ℕ, ◌≡◌, refl, ap, subst, ◌∙◌, Bool-cases, inl, inr, ◌/◌, ◌%◌, ◌≤◌, ◌<◌, true, false, ◌&&◌, none,
  some, List, [], ◌∷◌, ◌++◌, length, replicate, slice, leb, arith, Text, ◌==◌, get_or,
  if◌then◌else◌,
}
use yalexs_ble.Errors.{value_error, index_error, keycode_error, Result, ok, err}
use yalexs_ble.Util.BytesLaws.{index-get_or}
use yalexs_ble.Util.Pin.{is_pin, encode_keycode_pin, decode_keycode_pin}
use yalexs_ble.Util.PinLaws.{encode_keycode_pin-decode_keycode_pin}
use yalexs_ble.Session.Frame.{build_command}
use yalexs_ble.Lock.Wire.{Request, Link, Exchange, continue, ◌>>=◌, lift}
use yalexs_ble.Lock.KeycodeFrames.{
  validate_keycode_slot, keycode_result, keycode_slot_command, get_command, set_command,
  access_command, read_pin,
}
use yalexs_ble.Lock.Keycode.{send_keycode, get_keycode, clear_keycode, program_keycode, set_keycode}

-- The frame of a clear or a commit.
abbrev pub slot_frame : ℕ → List ℕ → ℕ → List ℕ
slot_frame opcode pin slot =
    0xEE ∷ opcode ∷ 0 ∷ 0 ∷ (pin ++ slot % 256 ∷ 0 ∷ slot / 256 ∷ 0 ∷ 0 ∷ 2 ∷ 0 ∷ [])

-- The frame that carries the PIN.
abbrev pub pin_frame : List ℕ → List ℕ
pin_frame pin = 0xEE ∷ 0x27 ∷ 0 ∷ 0 ∷ (pin ++ 0 ∷ 0 ∷ 0 ∷ 0 ∷ 0 ∷ 2 ∷ 0 ∷ [])

-- The frame that sets the always-valid schedule.
abbrev pub access_frame : List ℕ
access_frame = 0xEE ∷ 0x2B ∷ 0 ∷ 0 ∷ (replicate 8 0 ++ 0x80 ∷ 0 ∷ 0 ∷ 0 ∷ 2 ∷ 0 ∷ [])

keycode_slot_command-frame :
    (opcode slot : ℕ) (pin : List ℕ)
    → opcode < 256
    → slot ≤ 0xFFFF
    → length pin ≡ 7
    → keycode_slot_command opcode pin slot ≡ ok (slot_frame opcode pin slot)
unfolding keycode_slot_command build_command
keycode_slot_command-frame opcode slot (a ∷ b ∷ c ∷ d ∷ e ∷ f ∷ g ∷ []) h k len = ground arith
keycode_slot_command-frame opcode slot pin h k len = absurd (omega arith)

set_command-frame : (pin : List ℕ) → length pin ≡ 7 → set_command pin ≡ ok (pin_frame pin)
unfolding set_command build_command
set_command-frame (a ∷ b ∷ c ∷ d ∷ e ∷ f ∷ g ∷ []) len = refl
set_command-frame pin len = absurd (omega arith)

access_command-frame : access_command ≡ ok access_frame
unfolding access_command build_command
access_command-frame = refl

-- What a keycode command makes of an answer: the byte at index 15 is 0 in a good one, and what is
-- raised names any other.
abbrev pub checked : Result (List ℕ) → Result (List ℕ)
checked (err e) = err e
checked (ok response) =
    if leb (length response) 15
    then err index_error
    else if get_or response 15 0 == 0
    then ok response
    else err (keycode_error (get_or response 15 0))

keycode_result-checked : (response : List ℕ) → keycode_result response ≡ checked (ok response)
unfolding keycode_result
keycode_result-checked response = rw (keycode_result, index-get_or response 15) (ground arith)

abbrev pub with_request : List ℕ → List Request → List Request
with_request frame sent = sent ++ record { command = frame; slot = none } ∷ []

-- The independent description of a sequence of keycode commands: each is sent once the one before
-- it was answered with the result byte 0, and the first failure is the outcome of the sequence.
abbrev pub run_all : Link → List (List ℕ) → List ℕ → List Request → Result (List ℕ) × List Request
run_all link [] last sent = (ok last, sent)
run_all link (frame ∷ frames) last sent = elim (checked (link.answers (length sent))) [
  | err e ↦ (err e, with_request frame sent)
  | ok good ↦ run_all link frames good (with_request frame sent)
]

continue-checked :
    (answer : Result (List ℕ)) (sent : List Request)
    → continue (λ response. lift (keycode_result response)) answer sent ≡ (checked answer, sent)
continue-checked (err e) sent = refl
continue-checked (ok response) sent = ap (λ r. (r, sent)) (keycode_result-checked response)

continue-run_all :
    (link : Link) (frames : List (List ℕ)) (sent : List Request) (r : Result (List ℕ))
    → continue (run_all link frames) r sent
      ≡ elim r [ err e ↦ (err e, sent) | ok good ↦ run_all link frames good sent ]
continue-run_all link frames sent (err e) = refl
continue-run_all link frames sent (ok good) = refl

-- One command, then the rest.
send_then_run :
    (link : Link) (frame : List ℕ) (frames : List (List ℕ)) (last : List ℕ) (sent : List Request)
    → (rest : List ℕ → Exchange Request (List ℕ))
    → ((good : List ℕ) (sent' : List Request) → rest good sent' ≡ run_all link frames good sent')
    → (send_keycode link frame none >>= rest) sent ≡ run_all link (frame ∷ frames) last sent
unfolding send_keycode
send_then_run link frame frames last sent rest h =
    ap (λ k. (send_keycode link frame none >>= k) sent) (λ i good sent'. h good sent' i)
    ∙ rw (continue-checked (link.answers (length sent)) (with_request frame sent)) (
        continue-run_all link frames (with_request frame sent)
          (checked (link.answers (length sent))))

run_last :
    (link : Link) (sent : List Request) (r : Result (List ℕ))
    → ◌≡◌ {A = Result (List ℕ) × List Request}
        (r, sent)
        (elim r [ err e ↦ (err e, sent) | ok good ↦ run_all link [] good sent ])
run_last link sent (err e) = refl
run_last link sent (ok good) = refl

-- The last command.
send_last :
    (link : Link) (frame last : List ℕ) (sent : List Request)
    → send_keycode link frame none sent ≡ run_all link (frame ∷ []) last sent
unfolding send_keycode
send_last link frame last sent =
    rw (continue-checked (link.answers (length sent)) (with_request frame sent))
      (run_last link (with_request frame sent) (checked (link.answers (length sent))))

validate_keycode_slot-ok :
    (slot : ℕ) → 1 ≤ slot → slot ≤ 0xFFFF → validate_keycode_slot slot ≡ ok tt
unfolding validate_keycode_slot
validate_keycode_slot-ok slot low high = ground arith

-- The four commands that program a PIN.
abbrev pub program_frames : ℕ → List ℕ → List (List ℕ)
program_frames slot encoded =
    slot_frame 0x28 (replicate 7 0xFF) slot
    ∷ pin_frame encoded
    ∷ access_frame
    ∷ slot_frame 0x2C encoded slot
    ∷ []

-- On a connected lock, for a slot from 1 to 65535 and a PIN of 1 to 14 digits, `set_keycode` is the
-- clear, the PIN, the schedule and the commit in this order, each sent only once the one before it
-- was answered with the result byte 0; the first failure is what it raises, with the byte that was
-- reported.
pub set_keycode-run_all :
    (link : Link) (slot : ℕ) (pin : Text) (sent : List Request)
    → link.connected (length sent) ≡ true
    → 1 ≤ slot
    → slot ≤ 0xFFFF
    → is_pin pin ≡ true
    → (encoded : List ℕ) × (encode_keycode_pin pin ≡ ok encoded)
      × (set_keycode link slot pin sent ≡ run_all link (program_frames slot encoded) [] sent)
unfolding set_keycode program_keycode clear_keycode
set_keycode-run_all link slot pin sent connected low high valid =
    let (encoded, coded, len, read) = encode_keycode_pin-decode_keycode_pin pin valid in
    let commits = slot_frame 0x2C encoded slot ∷ [] in
    let grants = access_frame ∷ commits in
    let sets = pin_frame encoded ∷ grants in
    (
      encoded,
      coded,
      rw
          (
            connected,
            validate_keycode_slot-ok slot low high,
            coded,
            keycode_slot_command-frame 0x28 slot (replicate 7 0xFF) (omega arith) high refl,
            connected,
            set_command-frame encoded len,
            access_command-frame,
            keycode_slot_command-frame 0x2C slot encoded (omega arith) high len,
          )
          (send_then_run link (slot_frame 0x28 (replicate 7 0xFF) slot) sets [] sent _ λ a s.
            send_then_run link (pin_frame encoded) grants a s _ λ b t.
              send_then_run link access_frame commits b t _
                λ c u. send_last link (slot_frame 0x2C encoded slot) c u),
    )

-- On a connected lock, a slot out of 1 to 65535 or a text that is not 1 to 14 digits is refused
-- with ValueError before anything is sent.
pub set_keycode-refuses :
    (link : Link) (slot : ℕ) (pin : Text) (sent : List Request)
    → link.connected (length sent) ≡ true
    → (leb 1 slot && leb slot 0xFFFF) && is_pin pin ≡ false
    → set_keycode link slot pin sent ≡ (err value_error, sent)
unfolding set_keycode validate_keycode_slot encode_keycode_pin
set_keycode-refuses link slot pin sent connected bad =
    elim (Bool-cases (leb 1 slot && leb slot 0xFFFF)) [
      | inl fits ↦ rw (connected, fits, is_pin_false fits) refl
      | inr outside ↦ rw (connected, outside) refl
    ]
  where
    is_pin_false : leb 1 slot && leb slot 0xFFFF ≡ true → is_pin pin ≡ false
    is_pin_false fits = rw fits at bad

-- What `get_keycode` returns for a good result that carries an encoded PIN of 1 to 14 digits, on a
-- connected lock and for a slot from 1 to 65535, is that PIN.
pub get_keycode-set_keycode :
    (link : Link) (slot : ℕ) (pin : Text) (sent : List Request) (response encoded : List ℕ)
    → link.connected (length sent) ≡ true
    → 1 ≤ slot
    → slot ≤ 0xFFFF
    → is_pin pin ≡ true
    → encode_keycode_pin pin ≡ ok encoded
    → link.answers (length sent) ≡ ok response
    → keycode_result response ≡ ok response
    → slice 6 13 response ≡ encoded
    → (get_keycode link slot sent).0 ≡ ok (some pin)
unfolding get_keycode send_keycode get_command build_command read_pin
get_keycode-set_keycode link slot pin sent response encoded connected low high valid coded answer
      good carried =
    let (encoded', coded', len, read) = encode_keycode_pin-decode_keycode_pin pin valid in
    let same : encoded' ≡ encoded = cc in
    rw (connected, validate_keycode_slot-ok slot low high, answer, good, carried)
      (subst (λ bs. decode_keycode_pin bs ≡ ok (some pin)) same read)
