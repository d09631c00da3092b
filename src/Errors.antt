-- ===== src/Errors.antt =====
-- The exceptions of the program as values: Python's, the classes of session.py and lock.py, and
-- those of bleak. A message is kept where the code reads it, for bleak's classes.
use yalexs_ble.Prelude.{ℕ, Bool, true, false, Text}

pub data Error : Type 0 where
  value_error index_error overflow_error runtime_error assertion_error timeout_error : Error
  eof_error cancelled_error invalid_state_error : Error
  yale_error auth_error response_error activity_log_overrun_error disconnected_error : Error
  no_advertisement_error bluetooth_error operation_incomplete_error : Error
  -- the result byte that the lock reported
  keycode_error operation_failed_error : ℕ → Error
  -- `str(error)`
  bleak_error bleak_dbus_error bleak_not_found_error : Text → Error
  -- any other class, which no handler names
  other_error : ℕ → Error

-- `isinstance(error, BleakError)`: `BleakDBusError` and `BleakNotFoundError` are subclasses.
abbrev pub is_bleak_error : Error → Bool
is_bleak_error (bleak_error _) = true
is_bleak_error (bleak_dbus_error _) = true
is_bleak_error (bleak_not_found_error _) = true
is_bleak_error _ = false

-- `isinstance(error, ResponseError)`
abbrev pub is_response_error : Error → Bool
is_response_error response_error = true
is_response_error activity_log_overrun_error = true
is_response_error _ = false

-- What a call ends with: an exception, or a value.
pub data Result {ℓ} (A : Type ℓ) : Type ℓ where
  err : Error → Result A
  ok : A → Result A

-- `if test: raise e`
abbrev pub raise_if : Bool → Error → Result (Unit {0})
raise_if test e = elim test [ true ↦ err e | false ↦ ok tt ]

infixl 5 ◌>>=◌ ◌>>◌
abbrev pub ◌>>=◌ {ℓ κ} : {A : Type ℓ} → {B : Type κ} → Result A → (A → Result B) → Result B
err raised >>= next = err raised
ok value >>= next = next value

abbrev pub ◌>>◌ {ℓ} : {B : Type ℓ} → Result (Unit {0}) → Result B → Result B
first >> second = first >>= λ done. second
