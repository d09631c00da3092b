-- ===== src/Util/ChecksumLaws.antt =====
-- What the checksums depend on.
use yalexs_ble.Prelude.{
  ℕ, ◌+◌, ◌*◌, ◌%◌, ◌^◌, ◌≤◌, ◌<◌, ◌≡◌, sym, ap, ◌∙◌, List, [], ◌∷◌, ◌++◌, length, take, drop,
  slice, length-take, length-drop, take-append-drop, arith, ltb-false,
}
use native.Mathlib.Nat.{pow-suc}
use yalexs_ble.Errors.{ok}
use yalexs_ble.Util.Bytes.{bytes_to_int}
use yalexs_ble.Util.CopyLaws.{take-take}
use yalexs_ble.Util.Checksum.{sum, negate_mod, simple_checksum, security_checksum}

bytes_to_int-append :
    (xs ys : List ℕ) → bytes_to_int (xs ++ ys) ≡ bytes_to_int xs + 256 ^ length xs * bytes_to_int ys
bytes_to_int-append [] ys = omega arith
bytes_to_int-append (x ∷ xs) ys = ground (
  arith,
  bytes_to_int-append xs ys,
  ap (λ (t : ℕ). t * bytes_to_int ys) (pow-suc 256 (length xs)),
)

-- The sum of the three little-endian words that the security checksum covers.
abbrev pub covered_words : List ℕ → ℕ
covered_words buf =
    bytes_to_int (slice 0x00 0x04 buf)
    + bytes_to_int (slice 0x04 0x08 buf)
    + bytes_to_int (slice 0x08 0x0C buf)

-- The third slice runs to the end of the frame; what lies past byte 11 is a multiple of 2^32.
tail_word :
    (buf : List ℕ)
    → 18 ≤ length buf
    → (k : ℕ) × (bytes_to_int (slice 8 18 buf) ≡ bytes_to_int (slice 8 12 buf) + 2 ^ 32 * k)
tail_word buf h =
    let l = drop 8 buf in
    let four : length (take 4 l) ≡ 4 = omega (arith, length-take 4 l, length-drop 8 buf) in
    (
      bytes_to_int (drop 4 (take 10 l)),
      ap bytes_to_int (sym (take-append-drop 4 (take 10 l)))
          ∙ (ap (λ a. bytes_to_int (a ++ drop 4 (take 10 l))) (take-take 4 10 l (omega arith))
              ∙ (bytes_to_int-append (take 4 l) (drop 4 (take 10 l))
                  ∙ ap (λ n. bytes_to_int (take 4 l) + 256 ^ n * bytes_to_int (drop 4 (take 10 l)))
                      four)),
    )

-- The security checksum of a frame is minus the sum of its first three words, modulo 2^32: the
-- bytes from 12 on, which the third slice takes in, have no effect.
pub security_checksum_words :
    (buf : List ℕ)
    → 18 ≤ length buf
    → security_checksum buf ≡ ok (negate_mod (covered_words buf) (2 ^ 32))
unfolding security_checksum
security_checksum_words buf h =
    let (k, e) = tail_word buf h in rw (ltb-false (length buf) 18 h) (ap ok (omega arith))

-- The simple checksum fits a byte and makes the sum of the 18 frame bytes a multiple of 256.
pub simple_checksum-balances :
    (buf : List ℕ)
    → 18 ≤ length buf
    → (c : ℕ) × (simple_checksum buf ≡ ok c) × (c < 256) × ((sum (take 18 buf) + c) % 256 ≡ 0)
unfolding simple_checksum
simple_checksum-balances buf h =
    (negate_mod (sum (take 18 buf)) 256, rw (ltb-false (length buf) 18 h), omega arith, omega arith)
