-- ===== src/Util/BytesLaws.antt =====
-- Integers and their little-endian bytes.
use native.Mathlib.Nat.{pow-suc}
use yalexs_ble.Prelude.{
  ℕ, zero, suc, ◌+◌, ◌*◌, ◌/◌, ◌%◌, ◌^◌, ◌≤◌, ◌<◌, ◌≡◌, refl, ap, List, [], ◌∷◌, length, arith, ltb,
  leb, ◌||◌, get_or, if◌then◌else◌, Bool-cases, inl, inr, subst,
}
use yalexs_ble.Errors.{index_error, ok, err}
use yalexs_ble.Util.Bytes.{AllBytes, index, bytes_to_int, to_bytes, int_to_bytes}

pub to_bytes-value : (n v : ℕ) → v < 256 ^ n → bytes_to_int (to_bytes v n) ≡ v
to_bytes-value zero v h = omega arith
to_bytes-value (suc n) v h =
    omega (arith, to_bytes-value n (v / 256) (omega (arith, pow-suc 256 n)))

pub length-to_bytes : (n v : ℕ) → length (to_bytes v n) ≡ n
length-to_bytes zero v = refl
length-to_bytes (suc n) v = ap suc (length-to_bytes n (v / 256))

to_bytes-AllBytes : (n v : ℕ) → AllBytes (to_bytes v n)
to_bytes-AllBytes zero v = tt
to_bytes-AllBytes (suc n) v = (omega arith, to_bytes-AllBytes n (v / 256))

-- Whenever the conversion to bytes succeeds, it gives as many bytes as asked, and reading them
-- back gives the number.
pub int_to_bytes-bytes_to_int :
    (v n : ℕ) {bs : List ℕ}
    → int_to_bytes v n ≡ ok bs
    → (bytes_to_int bs ≡ v) × (length bs ≡ n) × AllBytes bs
unfolding int_to_bytes
int_to_bytes-bytes_to_int v n {bs} h = elim (Bool-cases (ltb n 1 || ltb 8 n)) [
  | inl bad_length ↦ absurd (ground arith)
  | inr good_length ↦ elim (Bool-cases (leb (256 ^ n) v)) [
    | inl too_big ↦ absurd (ground arith)
    | inr fits ↦
        let e : to_bytes v n ≡ bs = ground arith in
        subst (λ l. (bytes_to_int l ≡ v) × (length l ≡ n) × AllBytes l) e
          (to_bytes-value n v (ground arith), length-to_bytes n v, to_bytes-AllBytes n v)
  ]
]

bytes_to_int-lt : (bs : List ℕ) → AllBytes bs → bytes_to_int bs < 256 ^ length bs
bytes_to_int-lt [] h = omega arith
bytes_to_int-lt (b ∷ bs) h = omega (arith, bytes_to_int-lt bs h.1, pow-suc 256 (length bs))

pub to_bytes-bytes_to_int :
    (bs : List ℕ) → AllBytes bs → to_bytes (bytes_to_int bs) (length bs) ≡ bs
to_bytes-bytes_to_int [] h = refl
to_bytes-bytes_to_int (b ∷ bs) h =
    let q : (b + 256 * bytes_to_int bs) / 256 ≡ bytes_to_int bs = omega arith in
    let r : (b + 256 * bytes_to_int bs) % 256 ≡ b = omega arith in
    rw (q, r, to_bytes-bytes_to_int bs h.1)

-- A buffer of one to eight bytes, read as an integer and written at its own length, is itself.
pub bytes_to_int-int_to_bytes :
    (bs : List ℕ)
    → AllBytes bs
    → 1 ≤ length bs
    → length bs ≤ 8
    → int_to_bytes (bytes_to_int bs) (length bs) ≡ ok bs
unfolding int_to_bytes
bytes_to_int-int_to_bytes bs h lo hi =
    ground (arith, bytes_to_int-lt bs h, to_bytes-bytes_to_int bs h)

pub index-get_or :
    (buf : List ℕ) (i : ℕ)
    → index buf i ≡ (if leb (length buf) i then err index_error else ok (get_or buf i 0))
index-get_or [] zero = refl
index-get_or [] (suc i) = ground arith
index-get_or (b ∷ bs) zero = ground arith
index-get_or (b ∷ bs) (suc i) = ground (arith, index-get_or bs i)
