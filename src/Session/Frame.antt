-- ===== src/Session/Frame.antt =====
-- session.py: `build_command`, `build_operation_command`, `_write_checksum`, `_validate_response`.
use yalexs_ble.Prelude.{ℕ, not, ◌&&◌, List, replicate, ◌==◌}
use yalexs_ble.Errors.{Result, response_error, ◌>>=◌, ◌>>◌, raise_if}
use yalexs_ble.Const.{response_frame_len}
use yalexs_ble.Util.Bytes.{index, store}
use yalexs_ble.Util.Checksum.{simple_checksum}

unfoldable pub build_command : ℕ → Result (List ℕ)
build_command opcode = do
  named ← store (replicate response_frame_len 0) 0x00 0xEE
  coded ← store named 0x01 opcode
  store coded 0x10 0x02

unfoldable pub build_operation_command : ℕ → ℕ → Result (List ℕ)
unfolding build_command
build_operation_command opcode cmd_byte = do cmd ← build_command opcode; store cmd 0x04 cmd_byte

-- `_write_checksum`, as a function from the command to the command with its checksum.
unfoldable pub write_checksum : List ℕ → Result (List ℕ)
write_checksum command = do
  cleared ← store command 0x03 0
  checksum ← simple_checksum cleared
  store cleared 0x03 checksum

-- `_validate_response`
unfoldable pub validate_response : List ℕ → Result (Unit {0})
validate_response response = do
  checksum ← simple_checksum response
  raise_if (not (checksum == 0)) response_error
  flag ← index response 0x00
  raise_if (not (flag == 0xBB) && not (flag == 0xAA)) response_error
