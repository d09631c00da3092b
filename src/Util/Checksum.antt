-- ===== src/Util/Checksum.antt =====
-- util.py: the two frame checksums. Python's `-n & (2 ** k - 1)` is `(2 ** k - n % 2 ** k) % 2 ** k`.
use yalexs_ble.Prelude.{ℕ, ◌+◌, ◌-◌, ◌%◌, ◌^◌, List, [], ◌∷◌, length, take, slice, ltb}
use yalexs_ble.Errors.{Result, ok, value_error, ◌>>◌, raise_if}
use yalexs_ble.Const.{response_frame_len}
use yalexs_ble.Util.Bytes.{bytes_to_int}

abbrev pub sum : List ℕ → ℕ
sum [] = 0
sum (b ∷ bs) = b + sum bs

-- `-n & (m - 1)` for a power of two `m`.
abbrev pub negate_mod : ℕ → ℕ → ℕ
negate_mod n m = (m - n % m) % m

-- `_require_frame_length`
unfoldable pub require_frame_length : List ℕ → Result (Unit {0})
require_frame_length buf = raise_if (ltb (length buf) response_frame_len) value_error

-- `_simple_checksum`
unfoldable pub simple_checksum : List ℕ → Result ℕ
unfolding require_frame_length
simple_checksum buf = do
  require_frame_length buf
  ok (negate_mod (sum (take response_frame_len buf)) 256)

-- `_security_checksum`
unfoldable pub security_checksum : List ℕ → Result ℕ
unfolding require_frame_length
security_checksum buffer = do
  require_frame_length buffer
  let val1 = bytes_to_int (slice 0x00 0x04 buffer)
  let val2 = bytes_to_int (slice 0x04 0x08 buffer)
  let val3 = bytes_to_int (slice 0x08 response_frame_len buffer)
  ok (negate_mod (val1 + val2 + val3) (2 ^ 32))
