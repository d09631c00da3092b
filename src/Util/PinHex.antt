-- ===== src/Util/PinHex.antt =====
-- Hexadecimal text and padding, for the PIN codec.
use yalexs_ble.Prelude.{
  ℕ, zero, suc, ◌+◌, ◌-◌, ◌*◌, ◌/◌, ◌%◌, ◌≤◌, ◌<◌, ◌≡◌, refl, ap, ◌∙◌, Bool, true, ◌||◌, some, List,
  [], ◌∷◌, ◌++◌, Text, length, replicate, all, ◌==◌, arith, Bool-cases, Option-cases, inl, inr,
}
use yalexs_ble.Util.Bytes.{AllBytes}
use yalexs_ble.Util.Pin.{is_digit, hex_value, from_hex, hex_digit, to_hex, ljust, rstrip}

hex_value-hex_digit : (c : ℕ) {v : ℕ} → hex_value c ≡ some v → (hex_digit v ≡ c) × (v < 16)
hex_value-hex_digit c h = ground arith

-- What unpacks a pair of characters that was packed.
pub from_hex-to_hex : (s : Text) {bs : List ℕ} → from_hex s ≡ some bs → to_hex bs ≡ s
from_hex-to_hex [] h = ground arith
from_hex-to_hex (_ ∷ []) h = absurd (ground arith)
from_hex-to_hex (x ∷ y ∷ s) {bs} h = elim (Option-cases (hex_value x)) [
  | inl bad ↦ absurd (ground arith)
  | inr (a, ea) ↦ elim (Option-cases (hex_value y)) [
    | inl bad ↦ absurd (ground arith)
    | inr (b, eb) ↦ elim (Option-cases (from_hex s)) [
      | inl bad ↦ absurd (ground arith)
      | inr (r, er) ↦
          ground (arith, hex_value-hex_digit x ea, hex_value-hex_digit y eb, from_hex-to_hex s er)
    ]
  ]
]

unfoldable pub is_hex : ℕ → Bool
is_hex c = is_digit c || c == b'f'

hex_value-is_hex : (c : ℕ) → is_hex c ≡ true → (v : ℕ) × (hex_value c ≡ some v)
unfolding is_hex
hex_value-is_hex c h = elim (Bool-cases (is_digit c)) [
  | inl digit ↦ (c - b'0', rw digit)
  | inr other ↦ (15, ground arith)
]

pub from_hex-total :
    (n : ℕ) (s : Text)
    → length s ≡ n * 2
    → all is_hex s ≡ true
    → (bs : List ℕ) × (from_hex s ≡ some bs) × (length bs ≡ n)
from_hex-total zero [] e h = ([], refl, refl)
from_hex-total zero (x ∷ s) e h = absurd (omega arith)
from_hex-total (suc n) [] e h = absurd (omega arith)
from_hex-total (suc n) (x ∷ []) e h = absurd (omega arith)
from_hex-total (suc n) (x ∷ y ∷ s) e h =
    let (a, ea) = hex_value-is_hex x (ground arith) in
    let (b, eb) = hex_value-is_hex y (ground arith) in
    let (r, er, len) = from_hex-total n s (omega arith) (ground arith) in
    ((a * 16 + b) ∷ r, ground arith, omega arith)

pub length-to_hex : (bs : List ℕ) → length (to_hex bs) ≡ length bs * 2
length-to_hex [] = refl
length-to_hex (b ∷ bs) = omega (arith, length-to_hex bs)

hex_digit-hex_value : (v : ℕ) → v < 16 → hex_value (hex_digit v) ≡ some v
hex_digit-hex_value v h = ground arith

from_hex-cons :
    (x y : ℕ) (s : Text) {a b : ℕ} {bs : List ℕ}
    → hex_value x ≡ some a
    → hex_value y ≡ some b
    → from_hex s ≡ some bs
    → from_hex (x ∷ y ∷ s) ≡ some ((a * 16 + b) ∷ bs)
from_hex-cons x y s ea eb es = ground arith

pub to_hex-from_hex : (bs : List ℕ) → AllBytes bs → from_hex (to_hex bs) ≡ some bs
to_hex-from_hex [] h = refl
to_hex-from_hex (b ∷ bs) h =
    let high : b / 16 < 16 = omega arith in
    let low : b % 16 < 16 = omega arith in
    from_hex-cons (hex_digit (b / 16)) (hex_digit (b % 16)) (to_hex bs)
      (hex_digit-hex_value (b / 16) high) (hex_digit-hex_value (b % 16) low)
      (to_hex-from_hex bs h.1)
    ∙ ap (λ x. some (x ∷ bs)) (omega arith)

-- Padding is stripped, and nothing else.
rstrip-replicate : (n c : ℕ) → rstrip (replicate n c) c ≡ []
rstrip-replicate zero c = refl
rstrip-replicate (suc n) c = ground (arith, rstrip-replicate n c)

pub rstrip-padded :
    (s : Text) (n : ℕ) → all is_digit s ≡ true → rstrip (s ++ replicate n b'f') b'f' ≡ s
rstrip-padded [] n h = rstrip-replicate n b'f'
rstrip-padded (x ∷ s) n h = rw (rstrip-padded s n (ground arith)) (ground arith)

replicate-suc : (n m c : ℕ) → n ≡ suc m → replicate n c ≡ c ∷ replicate m c
replicate-suc zero m c e = absurd (omega arith)
replicate-suc (suc n) m c e = ap (λ k. c ∷ replicate k c) (omega arith)

pub length-rstrip : (s : Text) (c : ℕ) → length (rstrip s c) ≤ length s
length-rstrip [] c = omega arith
length-rstrip (x ∷ s) c = ground (arith, length-rstrip s c)

pub padded_of_rstrip : (s : Text) (c : ℕ) → ljust (rstrip s c) (length s) c ≡ s
padded_of_rstrip [] c = refl
padded_of_rstrip (x ∷ s) c = ground (
  arith,
  padded_of_rstrip s c,
  length-rstrip s c,
  replicate-suc (suc (length s) - 0) (length s - 0) c,
)

pub all-append :
    (s t : Text) → all is_hex s ≡ true → all is_hex t ≡ true → all is_hex (s ++ t) ≡ true
all-append [] t h k = k
all-append (x ∷ s) t h k = ground (arith, all-append s t)

pub digits_are_hex : (s : Text) → all is_digit s ≡ true → all is_hex s ≡ true
unfolding is_hex
digits_are_hex [] h = refl
digits_are_hex (x ∷ s) h = ground (arith, digits_are_hex s)

pub padding_is_hex : (n : ℕ) → all is_hex (replicate n b'f') ≡ true
unfolding is_hex
padding_is_hex zero = refl
padding_is_hex (suc n) = padding_is_hex n
