-- ===== src/Util/PinLaws.antt =====
-- The PIN codec: packing and unpacking are inverse to each other.
use yalexs_ble.Prelude.{
  ℕ, ◌-◌, ◌≤◌, ◌≡◌, subst, true, false, some, List, [], ◌∷◌, Text, length, take, replicate, all,
  is_empty, arith, length-append, length-replicate, length-take, take_all,
}
use yalexs_ble.Errors.{ok}
use yalexs_ble.Util.Bytes.{AllBytes}
use yalexs_ble.Util.Pin.{
  is_digit, from_hex, to_hex, ljust, rstrip, is_pin, encode_keycode_pin, decode_keycode_pin,
}
use yalexs_ble.Util.PinHex.{
  from_hex-to_hex, from_hex-total, length-to_hex, to_hex-from_hex, rstrip-padded, padded_of_rstrip,
  all-append, digits_are_hex, padding_is_hex, length-rstrip,
}

padded_total :
    (pin : Text)
    → is_pin pin ≡ true
    → (bs : List ℕ) × (from_hex (ljust pin 14 b'f') ≡ some bs) × (length bs ≡ 7)
padded_total pin h =
    from_hex-total 7 (ljust pin 14 b'f')
      (ground (
        arith,
        length-append pin (replicate (14 - length pin) b'f'),
        length-replicate {A = ℕ} (14 - length pin) b'f',
      ))
      (all-append pin _ (digits_are_hex pin (ground arith)) (padding_is_hex (14 - length pin)))

decode_of_hex :
    (bs : List ℕ) (pin : Text)
    → length bs ≡ 7
    → is_pin pin ≡ true
    → to_hex bs ≡ ljust pin 14 b'f'
    → decode_keycode_pin bs ≡ ok (some pin)
unfolding decode_keycode_pin
decode_of_hex bs pin len valid e =
    ground (arith, take_all bs 7 (omega arith), rstrip-padded pin (14 - length pin) (ground arith))

-- A PIN of 1 to 14 digits packs into exactly 7 bytes, from which it is read back.
pub encode_keycode_pin-decode_keycode_pin :
    (pin : Text)
    → is_pin pin ≡ true
    → (bs : List ℕ) × (encode_keycode_pin pin ≡ ok bs)
      × (length bs ≡ 7)
      × (decode_keycode_pin bs ≡ ok (some pin))
unfolding encode_keycode_pin
encode_keycode_pin-decode_keycode_pin pin valid =
    let (bs, packed, len) = padded_total pin valid in
    (
      bs,
      ground arith,
      len,
      decode_of_hex bs pin len valid (from_hex-to_hex (ljust pin 14 b'f') packed),
    )

encode_of_padded :
    (pin : Text) (bs : List ℕ)
    → is_pin pin ≡ true
    → ljust pin 14 b'f' ≡ to_hex bs
    → AllBytes bs
    → encode_keycode_pin pin ≡ ok bs
unfolding encode_keycode_pin
encode_of_padded pin bs valid padded bytes = ground (arith, to_hex-from_hex bs bytes)

is_pin_of_parts :
    (pin : Text)
    → is_empty pin ≡ false
    → all is_digit pin ≡ true
    → length pin ≤ 14
    → is_pin pin ≡ true
is_pin_of_parts [] some_digit digits fits = cc
is_pin_of_parts (c ∷ pin) some_digit digits fits = ground arith

-- A field of at least 7 bytes that is read as a PIN holds in its first 7 bytes exactly what
-- packing that PIN gives.
pub decode_keycode_pin-encode_keycode_pin :
    (field_bytes : List ℕ) {pin : Text}
    → AllBytes (take 7 field_bytes)
    → 7 ≤ length field_bytes
    → decode_keycode_pin field_bytes ≡ ok (some pin)
    → encode_keycode_pin pin ≡ ok (take 7 field_bytes)
unfolding decode_keycode_pin encode_keycode_pin
decode_keycode_pin-encode_keycode_pin field_bytes {pin} bytes long read =
    let field = to_hex (take 7 field_bytes) in
    let len : length field ≡ 14 =
      omega (arith, length-to_hex (take 7 field_bytes), length-take 7 field_bytes) in
    let stripped : rstrip field b'f' ≡ pin = ground arith in
    let padded : ljust pin 14 b'f' ≡ field =
      subst (λ p. ljust p 14 b'f' ≡ field) stripped
        (subst (λ n. ljust (rstrip field b'f') n b'f' ≡ field) len (padded_of_rstrip field b'f')) in
    let fits : length pin ≤ 14 =
      subst (λ p. length p ≤ 14) stripped (omega (arith, length-rstrip field b'f')) in
    encode_of_padded pin (take 7 field_bytes)
      (is_pin_of_parts pin (ground arith) (ground arith) fits) padded bytes
