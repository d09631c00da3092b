-- ===== src/SecureSession/Laws.antt =====
-- Secure frames: a sealed command validates, and what the checksum leaves open.
use yalexs_ble.Prelude.{ℕ, ◌^◌, ◌≤◌, ◌≡◌, ap, ◌∙◌, sym, ◌↔◌, List, length, slice, arith}
use yalexs_ble.Errors.{ok}
use yalexs_ble.Util.Bytes.{copy, bytes_to_int, to_bytes}
use yalexs_ble.Util.BytesLaws.{to_bytes-value, length-to_bytes}
use yalexs_ble.Util.CopyLaws.{length-copy, slice-copy_before, slice-copy_self}
use yalexs_ble.Util.Checksum.{negate_mod}
use yalexs_ble.Util.ChecksumLaws.{covered_words, security_checksum_words}
use yalexs_ble.SecureSession.{write_checksum, validate_response}

-- Exactly the frames whose bytes 12 to 15 hold minus the sum of the three words before them, modulo
-- 2^32, are valid: bytes 16 and 17 have no effect.
pub secure_validate_iff :
    (response : List ℕ)
    → 18 ≤ length response
    → (validate_response response ≡ ok tt)
      ↔ (bytes_to_int (slice 12 16 response) ≡ negate_mod (covered_words response) (2 ^ 32))
unfolding validate_response
secure_validate_iff response h =
    let e = security_checksum_words response h in (λ valid. ground arith, λ same. ground arith)

covered_words-copy :
    (command src : List ℕ)
    → 18 ≤ length command
    → covered_words (copy command src 12) ≡ covered_words command
covered_words-copy command src h = rw (
  slice-copy_before command src 12 0 4 (omega arith) (omega arith),
  slice-copy_before command src 12 4 8 (omega arith) (omega arith),
  slice-copy_before command src 12 8 12 (omega arith) (omega arith),
)

-- Sealing a command of frame length always succeeds, keeps its length, and gives a frame that the
-- secure session itself accepts as valid, whatever stood in the checksum field before.
pub secure_write_checksum-validates :
    (command : List ℕ)
    → length command ≡ 18
    → (sealed : List ℕ) × (write_checksum command ≡ ok sealed)
      × (length sealed ≡ 18)
      × (validate_response sealed ≡ ok tt)
unfolding write_checksum
secure_write_checksum-validates command h =
    let c : ℕ = negate_mod (covered_words command) (2 ^ 32) in
    let field = to_bytes c 4 in
    let h' : 18 ≤ length command = omega arith in
    let four : length field ≡ 4 = length-to_bytes 4 c in
    let sealed = copy command field 12 in
    let len : length sealed ≡ 18 = length-copy command field 12 (omega arith) ∙ h in
    (
      sealed,
      rw (security_checksum_words command (omega arith)),
      len,
      (secure_validate_iff sealed (omega arith)).1 (
          ap bytes_to_int (slice-copy_self command field 12 (omega arith))
          ∙ (to_bytes-value 4 c (omega arith)
              ∙ ap (λ (w : ℕ). negate_mod w (2 ^ 32)) (sym (covered_words-copy command field h')))),
    )
