-- ===== src/SecureSession.antt =====
-- secure_session.py: the frames of the secure session. The rest of the class is `Session` with
-- other characteristics and an ECB cipher. The proofs stand in `Laws`.
pub mod Laws
use yalexs_ble.Prelude.{ℕ, not, ◌^◌, List, replicate, slice, ◌==◌}
use yalexs_ble.Errors.{Result, ok, response_error, ◌>>=◌, raise_if}
use yalexs_ble.Const.{response_frame_len}
use yalexs_ble.Util.Bytes.{store, copy, bytes_to_int, to_bytes}
use yalexs_ble.Util.Checksum.{security_checksum}

-- `SecureSession.build_command`
unfoldable pub build_command : ℕ → ℕ → Result (List ℕ)
build_command key_index opcode = do
  coded ← store (replicate response_frame_len 0) 0x00 opcode
  marked ← store coded 0x10 0x0F
  store marked 0x11 key_index

-- `SecureSession._write_checksum`; a checksum is below 2^32, so `to_bytes` with 4 does not raise.
unfoldable pub write_checksum : List ℕ → Result (List ℕ)
write_checksum command = do
  checksum ← security_checksum command
  ok (copy command (to_bytes checksum 4) 0x0C)

-- `SecureSession._validate_response`
unfoldable pub validate_response : List ℕ → Result (Unit {0})
validate_response response = do
  expected ← security_checksum response
  raise_if (not (expected == bytes_to_int (slice 0x0C 0x10 response))) response_error
