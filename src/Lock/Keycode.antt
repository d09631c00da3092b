-- ===== src/Lock/Keycode.antt =====
-- lock.py: the keypad commands as exchanges with the lock.
use yalexs_ble.Prelude.{ℕ, Option, none, some, List, replicate, Text}
use yalexs_ble.Const.{command_value, keycode_clear, keycode_commit}
use yalexs_ble.Util.Pin.{keycode_pin_bytes, encode_keycode_pin}
use yalexs_ble.Lock.Wire.{
  Request, Link, Exchange, ◌>>=◌, ◌>>◌, lift, execute, raise_if_not_connected,
}
use yalexs_ble.Lock.KeycodeFrames.{
  validate_keycode_slot, keycode_result, keycode_slot_command, get_command, set_command,
  access_command, read_pin,
}

-- `_send_keycode`
unfoldable pub send_keycode : Link → List ℕ → Option ℕ → Exchange Request (List ℕ)
send_keycode link cmd slot = do
  response ← execute link (record { command = cmd; slot = slot })
  lift (keycode_result response)

unfoldable pub get_keycode : Link → ℕ → Exchange Request (Option Text)
get_keycode link slot = raise_if_not_connected link do
  lift (validate_keycode_slot slot)
  cmd ← lift (get_command slot)
  response ← send_keycode link cmd (some slot)
  lift (read_pin response)

-- Both `clear_keycode` and `set_keycode` return nothing: here the last response.
unfoldable pub clear_keycode : Link → ℕ → Exchange Request (List ℕ)
clear_keycode link slot = raise_if_not_connected link do
  lift (validate_keycode_slot slot)
  cmd ←
      lift
        (keycode_slot_command (command_value keycode_clear) (replicate keycode_pin_bytes 0xFF) slot)
  send_keycode link cmd none

-- The part of `set_keycode` after the validation.
unfoldable pub program_keycode : Link → ℕ → List ℕ → Exchange Request (List ℕ)
program_keycode link slot encoded = do
  clear_keycode link slot
  cmd ← lift (set_command encoded)
  send_keycode link cmd none
  access ← lift access_command
  send_keycode link access none
  commit ← lift (keycode_slot_command (command_value keycode_commit) encoded slot)
  send_keycode link commit none

unfoldable pub set_keycode : Link → ℕ → Text → Exchange Request (List ℕ)
set_keycode link slot pin = raise_if_not_connected link do
  lift (validate_keycode_slot slot)
  encoded ← lift (encode_keycode_pin pin)
  program_keycode link slot encoded
