-- ===== src/Lock/MatcherLaws.antt =====
-- No frame answers two different waits.
use yalexs_ble.Prelude.{ℕ, ◌≡◌, true, false, Option, none, some, List, arith}
use yalexs_ble.Lock.Matchers.{
  settings_response_matcher, poll_response_matcher, operation_response_matcher,
  keycode_response_matcher, ack_matcher,
}

-- A frame that acknowledges an operation is neither the op-response of any opcode nor the answer
-- to any poll, setting or keycode command.
pub ack_answers_nothing_else :
    (opcode operation_byte : ℕ) (frame : List ℕ) (other : ℕ) (subtype slot : Option ℕ) (setting : ℕ)
    → ack_matcher opcode operation_byte frame ≡ true
    → (operation_response_matcher other frame ≡ false)
      × (poll_response_matcher other subtype frame ≡ false)
      × (settings_response_matcher other setting frame ≡ false)
      × (keycode_response_matcher other slot frame ≡ false)
unfolding ack_matcher operation_response_matcher poll_response_matcher settings_response_matcher
    keycode_response_matcher
ack_answers_nothing_else opcode operation_byte frame other subtype none setting h = ground arith
ack_answers_nothing_else opcode operation_byte frame other subtype (some slot) setting h =
    ground arith

-- A frame answers the polls of one opcode and status type only.
pub poll_answers_are_disjoint :
    (opcode subtype other_opcode other_subtype : ℕ) (frame : List ℕ)
    → poll_response_matcher opcode (some subtype) frame ≡ true
    → poll_response_matcher other_opcode (some other_subtype) frame ≡ true
    → (opcode ≡ other_opcode) × (subtype ≡ other_subtype)
unfolding poll_response_matcher
poll_answers_are_disjoint opcode subtype other_opcode other_subtype frame h k = ground arith
