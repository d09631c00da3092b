-- ===== src/Lock/Matchers.antt =====
-- lock.py: the matchers, which tell the frame that answers a command from the other valid frames.
-- Each read stands behind a length test, so it is in range.
use yalexs_ble.Prelude.{
  ℕ, Bool, true, ◌&&◌, Option, none, some, List, length, get_or, slice, ltb, leb, ◌==◌,
}
use yalexs_ble.Util.Bytes.{bytes_to_int}
use yalexs_ble.Session.State.{Matcher}

-- `data[i]` where `i` is in range.
abbrev pub byte : List ℕ → ℕ → ℕ
byte frame i = get_or frame i 0

-- `RESULT_BYTE`
abbrev pub result_byte : ℕ
result_byte = 0x0F

-- `_settings_response_matcher`
unfoldable pub settings_response_matcher : ℕ → ℕ → Matcher
settings_response_matcher command_value setting_value frame =
    leb 0x0C (length frame)
    && (byte frame 0x00 == 0xBB
        && (byte frame 0x01 == command_value && byte frame 0x04 == setting_value))

abbrev pub subtype_matches : Option ℕ → ℕ → Bool
subtype_matches none b = true
subtype_matches (some subtype) b = b == subtype

-- `_poll_response_matcher`
unfoldable pub poll_response_matcher : ℕ → Option ℕ → Matcher
poll_response_matcher opcode subtype frame =
    ltb 0x04 (length frame)
    && (byte frame 0x00 == 0xBB
        && (byte frame 0x01 == opcode && subtype_matches subtype (byte frame 0x04)))

-- `_operation_response_matcher`
unfoldable pub operation_response_matcher : ℕ → Matcher
operation_response_matcher opcode frame =
    ltb result_byte (length frame) && (byte frame 0x00 == 0xBB && byte frame 0x01 == opcode)

-- `_keycode_response_matcher`
unfoldable pub keycode_response_matcher : ℕ → Option ℕ → Matcher
unfolding operation_response_matcher
keycode_response_matcher opcode none frame = operation_response_matcher opcode frame
keycode_response_matcher opcode (some slot) frame =
    operation_response_matcher opcode frame && bytes_to_int (slice 0x04 0x06 frame) == slot

-- `_ack_matcher`
unfoldable pub ack_matcher : ℕ → ℕ → Matcher
ack_matcher opcode operation_byte frame =
    ltb 0x04 (length frame)
    && (byte frame 0x00 == 0xAA && (byte frame 0x01 == opcode && byte frame 0x04 == operation_byte))
