-- ===== src/Lock/ParseLaws.antt =====
-- What `_parse_state` returns, on every kind of frame.
use yalexs_ble.Prelude.{
  ℕ, ◌≡◌, refl, ◌≢◌, ◌<◌, Bool, true, false, ◌||◌, if◌then◌else◌, some, List, [], length, arith,
  ◌==◌, get_elem?-get_or,
}
use yalexs_ble.Errors.{Error, Result, ok, err}
use yalexs_ble.Const.{Commands, command_value, getstatus, lock, unlock}
use yalexs_ble.Util.Bytes.{index}
use yalexs_ble.Lock.Matchers.{poll_response_matcher, ack_matcher, byte}
use yalexs_ble.Lock.Parse.{
  parse_status, parse_response, parse_flagged, parse_state, contains, no_state_opcodes,
  is_operation, is_setting, reports,
}

pub index-byte : (frame : List ℕ) (i : ℕ) → i < length frame → index frame i ≡ ok (byte frame i)
index-byte frame i h = rw (index, get_elem?-get_or frame i 0 h) refl

parse_status-returns :
    (frame : List ℕ) (kind : ℕ) (error : Error)
    → 9 < length frame
    → parse_status frame kind ≢ err error
unfolding parse_status
parse_status-returns frame kind error h =
    rw (index-byte frame 8 (omega arith), index-byte frame 9 h) (ground arith)

parse_response-returns :
    (frame : List ℕ) (opcode : ℕ) (error : Error)
    → 15 < length frame
    → parse_response frame opcode ≢ err error
unfolding parse_response
parse_response-returns frame opcode error h =
    rw (index-byte frame 15 h, index-byte frame 4 (omega arith))
      (ground (arith, parse_status-returns frame (byte frame 4) error (omega arith)))

module _ {ℓ} {A : Type ℓ} where
  if-returns :
      (b : Bool) {x y : Result A} {error : Error}
      → x ≢ err error
      → y ≢ err error
      → (if b then x else y) ≢ err error
  if-returns true h k = h
  if-returns false h k = k

  ok-returns : {x : A} {error : Error} → ok x ≢ err error
  ok-returns = λ e. cc

parse_flagged-returns :
    (frame : List ℕ) (flag opcode : ℕ) (error : Error)
    → 15 < length frame
    → parse_flagged frame flag opcode ≢ err error
unfolding parse_flagged
parse_flagged-returns frame flag opcode error h =
    if-returns (contains no_state_opcodes opcode) ok-returns (
      if-returns (flag == 0xBB) (parse_response-returns frame opcode error h) (
        if-returns (is_operation opcode) ok-returns
          (if-returns (is_setting opcode) ok-returns ok-returns)))

-- Decoding a frame of 18 bytes, the length that the session admits, never raises.
pub parse_state-returns :
    (frame : List ℕ) (error : Error) → length frame ≡ 18 → parse_state frame ≢ err error
unfolding parse_state
parse_state-returns frame error h =
    rw (index-byte frame 0 (omega arith), index-byte frame 1 (omega arith))
      (if-returns (byte frame 0 == 0xAA || byte frame 0 == 0xBB)
        (parse_flagged-returns frame (byte frame 0) (byte frame 1) error (omega arith)) ok-returns)

poll_answer-bytes :
    (opcode subtype : ℕ) (frame : List ℕ)
    → poll_response_matcher opcode (some subtype) frame ≡ true
    → (byte frame 0 ≡ 0xBB) × (byte frame 1 ≡ opcode) × (byte frame 4 ≡ subtype)
unfolding poll_response_matcher
poll_answer-bytes opcode subtype frame m = ground arith

ack-bytes :
    (opcode operation_byte : ℕ) (frame : List ℕ)
    → ack_matcher opcode operation_byte frame ≡ true
    → (byte frame 0 ≡ 0xAA) × (byte frame 1 ≡ opcode)
unfolding ack_matcher
ack-bytes opcode operation_byte frame m = ground arith

-- A frame of 18 bytes that answers a status poll is decoded by the status type polled for, so a
-- lock poll yields one lock status, a door poll one door status and a battery poll one reading.
pub poll_answer-parse_state :
    (frame : List ℕ) (subtype : ℕ)
    → length frame ≡ 18
    → poll_response_matcher (command_value getstatus) (some subtype) frame ≡ true
    → parse_state frame ≡ parse_status frame subtype
unfolding parse_state parse_flagged parse_response
poll_answer-parse_state frame subtype h m =
    let (flag, opcode, kind) = poll_answer-bytes 2 subtype frame m in
    rw
      (
        index-byte frame 0 (omega arith),
        index-byte frame 1 (omega arith),
        index-byte frame 4 (omega arith),
        flag,
        opcode,
        kind,
      )
      refl

-- A frame of 18 bytes that acknowledges a lock or an unlock carries no state, and does not reach
-- the op-response callback.
pub ack-parse_state :
    (frame : List ℕ) (operation_byte : ℕ) (op : Commands)
    → length frame ≡ 18
    → is_operation (command_value op) ≡ true
    → ack_matcher (command_value op) operation_byte frame ≡ true
    → parse_state frame ≡ ok (reports [])
unfolding parse_state parse_flagged
ack-parse_state frame operation_byte lock h is m =
    let (flag, opcode) = ack-bytes 11 operation_byte frame m in
    rw (index-byte frame 0 (omega arith), index-byte frame 1 (omega arith), flag, opcode) refl
ack-parse_state frame operation_byte unlock h is m =
    let (flag, opcode) = ack-bytes 10 operation_byte frame m in
    rw (index-byte frame 0 (omega arith), index-byte frame 1 (omega arith), flag, opcode) refl
ack-parse_state frame operation_byte op h is m = cc
