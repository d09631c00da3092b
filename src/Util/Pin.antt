-- ===== src/Util/Pin.antt =====
-- util.py: `encode_keycode_pin` and `decode_keycode_pin`. A PIN is the text of its digits.
use yalexs_ble.Prelude.{
  ℕ, ◌+◌, ◌-◌, ◌*◌, ◌/◌, ◌%◌, Bool, not, ◌&&◌, Option, none, some, List, [], ◌∷◌, ◌++◌, Text,
  length, take, replicate, all, is_empty, ltb, leb, ◌==◌, if◌then◌else◌,
}
use yalexs_ble.Errors.{Result, ok, err, value_error}

abbrev pub keycode_pin_bytes : ℕ
keycode_pin_bytes = 7

abbrev pub keycode_max_digits : ℕ
keycode_max_digits = keycode_pin_bytes * 2

-- `[0-9]`, and the `isdigit` of a hexadecimal character.
abbrev pub is_digit : ℕ → Bool
is_digit c = leb b'0' c && leb c b'9'

-- The value of a lower-case hexadecimal character.
abbrev pub hex_value : ℕ → Option ℕ
hex_value c =
    if is_digit c
    then some (c - b'0')
    else if leb b'a' c && leb c b'f'
    then some (c - b'a' + 10)
    else none

-- `bytes.fromhex` on a text of hexadecimal characters alone; `none` where Python raises.
abbrev pub from_hex : Text → Option (List ℕ)
from_hex [] = some []
from_hex (_ ∷ []) = none
from_hex (h ∷ l ∷ s) =
    let rest = from_hex s in
    elim (hex_value h) [
      | none ↦ none
      | some a ↦ elim (hex_value l) [
        | none ↦ none
        | some b ↦ elim rest [ none ↦ none | some bs ↦ some ((a * 16 + b) ∷ bs) ]
      ]
    ]

-- The character of a half byte in `bytes.hex`.
abbrev pub hex_digit : ℕ → ℕ
hex_digit v = if ltb v 10 then v + b'0' else v - 10 + b'a'

-- `bytes.hex`
abbrev pub to_hex : List ℕ → Text
to_hex [] = []
to_hex (b ∷ bs) = hex_digit (b / 16) ∷ hex_digit (b % 16) ∷ to_hex bs

-- `s.ljust(n, c)`
abbrev pub ljust : Text → ℕ → ℕ → Text
ljust s n c = s ++ replicate (n - length s) c

-- `s.rstrip(c)`
abbrev pub rstrip : Text → ℕ → Text
rstrip [] c = []
rstrip (x ∷ s) c = let r = rstrip s c in if is_empty r && x == c then [] else x ∷ r

-- `re.fullmatch("[0-9]{1,14}", pin)`
abbrev pub is_pin : Text → Bool
is_pin pin = all is_digit pin && (leb 1 (length pin) && leb (length pin) keycode_max_digits)

unfoldable pub encode_keycode_pin : Text → Result (List ℕ)
encode_keycode_pin pin =
    if not (is_pin pin)
    then err value_error
    else elim (from_hex (ljust pin keycode_max_digits b'f')) [
      | none ↦ err value_error
      | some bs ↦ ok bs
    ]

unfoldable pub decode_keycode_pin : List ℕ → Result (Option Text)
decode_keycode_pin field_bytes =
    let pin = rstrip (to_hex (take keycode_pin_bytes field_bytes)) b'f' in
    if not (is_empty pin) && not (all is_digit pin)
    then err value_error
    else if is_empty pin
    then ok none
    else ok (some pin)
