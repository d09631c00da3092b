-- ===== src/Lock/KeycodeFrames.antt =====
-- lock.py: the frames of the keypad commands, before their checksums, and the reading of a result.
use yalexs_ble.Prelude.{ℕ, ◌/◌, ◌%◌, ◌^◌, not, ◌&&◌, Option, List, slice, leb, ◌==◌, Text}
use yalexs_ble.Errors.{Result, ok, value_error, keycode_error, raise_if, ◌>>=◌, ◌>>◌}
use yalexs_ble.Const.{command_value, keycode_set, keycode_access, keycode_get}
use yalexs_ble.Util.Bytes.{index, store, copy, to_bytes}
use yalexs_ble.Util.Pin.{decode_keycode_pin}
use yalexs_ble.Session.Frame.{build_command}
use yalexs_ble.Lock.Matchers.{result_byte}

-- `KEYCODE_ACCESS_ALWAYS`
abbrev pub keycode_access_always : ℕ
keycode_access_always = 0x80

-- `KEYCODE_CREDENTIAL_PIN`
abbrev pub keycode_credential_pin : ℕ
keycode_credential_pin = 0x00

-- `KEYCODE_MAX_SLOT`
abbrev pub keycode_max_slot : ℕ
keycode_max_slot = 0xFFFF

-- `_validate_keycode_slot`
unfoldable pub validate_keycode_slot : ℕ → Result (Unit {0})
validate_keycode_slot slot = raise_if (not (leb 1 slot && leb slot keycode_max_slot)) value_error

-- The test of the result byte in `_send_keycode`.
unfoldable pub keycode_result : List ℕ → Result (List ℕ)
keycode_result response = do
  result ← index response result_byte
  raise_if (not (result == 0x00)) (keycode_error result)
  ok response

-- `_keycode_slot_command`
unfoldable pub keycode_slot_command : ℕ → List ℕ → ℕ → Result (List ℕ)
keycode_slot_command opcode pin slot = do
  cmd ← build_command opcode
  low ← store (copy cmd pin 0x04) 0x0B (slot % 2 ^ 8)
  typed ← store low 0x0C keycode_credential_pin
  store typed 0x0D (slot / 2 ^ 8)

-- The command of `get_keycode`; the slot fits the two bytes, since it is validated first.
unfoldable pub get_command : ℕ → Result (List ℕ)
get_command slot = do
  cmd ← build_command (command_value keycode_get)
  ok (copy cmd (to_bytes slot 2) 0x04)

-- The KEYCODE_SET command of `set_keycode`.
unfoldable pub set_command : List ℕ → Result (List ℕ)
set_command encoded = do
  cmd ← build_command (command_value keycode_set)
  store (copy cmd encoded 0x04) 0x0C keycode_credential_pin

-- The KEYCODE_ACCESS command of `set_keycode`.
unfoldable pub access_command : Result (List ℕ)
access_command = do
  cmd ← build_command (command_value keycode_access)
  access ← store cmd 0x0C keycode_access_always
  store access 0x0D keycode_credential_pin

-- What `get_keycode` returns for a response.
unfoldable pub read_pin : List ℕ → Result (Option Text)
read_pin response = decode_keycode_pin (slice 0x06 0x0D response)
