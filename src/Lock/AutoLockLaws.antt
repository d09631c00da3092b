-- ===== src/Lock/AutoLockLaws.antt =====
-- The auto lock value: what is written is read back.
use Prim.Native.Nat.{bit_or}
use yalexs_ble.Prelude.{
  ℕ, ◌*◌, ◌^◌, ◌≤◌, ◌<◌, ◌≡◌, refl, List, length, slice, ◌||◌, ◌==◌, if◌then◌else◌, arith, false,
  [], ◌∷◌, Bool-cases, inl, inr,
}
use yalexs_ble.Prelude.Bits.{bit_or_shifted}
use yalexs_ble.Errors.{ok, err, value_error}
use yalexs_ble.Const.{AutoLockMode, instant, timer, off, AutoLockState}
use yalexs_ble.Util.Bytes.{bytes_to_int, int_to_bytes, to_bytes, copy}
use yalexs_ble.Util.BytesLaws.{to_bytes-value}
use yalexs_ble.Session.FrameLaws.{build_operation_command-frame}
use yalexs_ble.Lock.AutoLock.{is_off, auto_lock_value, auto_lock_command, parse_auto_lock_state}

-- What a lock shows after a write: off for a zero duration too.
abbrev pub stored_setting : AutoLockMode → ℕ → AutoLockState
stored_setting mode duration =
    if is_off mode || duration == 0
    then record { mode = off; duration = 0 }
    else record { mode = mode; duration = duration }

-- The decoding of a value, apart from the frame that it stands in.
parse_of_value :
    (mode : AutoLockMode) (duration : ℕ) (response : List ℕ) {value : ℕ}
    → auto_lock_value mode duration ≡ ok value
    → bytes_to_int (slice 8 12 response) ≡ value
    → parse_auto_lock_state response ≡ stored_setting mode duration
unfolding auto_lock_value parse_auto_lock_state
parse_of_value off duration response h e = ground arith
parse_of_value timer duration response h e = ground (arith, bit_or_shifted 16 duration duration)
parse_of_value instant duration response h e = ground arith

auto_lock_value-total :
    (mode : AutoLockMode) (duration : ℕ)
    → duration ≤ 0xFFFE
    → (value : ℕ) × (auto_lock_value mode duration ≡ ok value) × (value < 256 ^ 4)
unfolding auto_lock_value
auto_lock_value-total off duration h = (0, refl, omega arith)
auto_lock_value-total timer duration h = elim (Bool-cases (duration == 0)) [
  | inl zero_seconds ↦ (0, ground arith, omega arith)
  | inr seconds ↦ (
    bit_or duration (duration * 2 ^ 16),
    ground arith,
    omega (arith, bit_or_shifted 16 duration duration (omega arith)),
  )
]
auto_lock_value-total instant duration h = elim (Bool-cases (duration == 0)) [
  | inl zero_seconds ↦ (0, ground arith, omega arith)
  | inr seconds ↦ (duration, ground arith, omega arith)
]

-- The duration cap: only a mode that is not off and a duration past 65534 s are refused.
pub auto_lock_command-refuses :
    (mode : AutoLockMode) (duration : ℕ)
    → is_off mode ≡ false
    → 0xFFFE < duration
    → auto_lock_command mode duration ≡ err value_error
unfolding auto_lock_command
auto_lock_command-refuses mode duration on long = ground arith

-- For every mode and every duration of at most 65534 s the write command can be built, and the
-- value that it carries decodes to the mode and duration asked for, or to off where the mode is off
-- or the duration zero.
pub auto_lock_command-parse_auto_lock_state :
    (mode : AutoLockMode) (duration : ℕ)
    → duration ≤ 0xFFFE
    → (cmd : List ℕ) × (auto_lock_command mode duration ≡ ok cmd)
      × (length cmd ≡ 18)
      × (parse_auto_lock_state cmd ≡ stored_setting mode duration)
unfolding auto_lock_command int_to_bytes
auto_lock_command-parse_auto_lock_state mode duration h =
    let (value, coded, fits) = auto_lock_value-total mode duration h in
    let field = to_bytes value 4 in
    let frame = build_operation_command-frame 3 0x28 (omega arith) (omega arith) in
    let carried : bytes_to_int field ≡ value = to_bytes-value 4 value fits in
    let cmd =
      copy (0xEE ∷ 3 ∷ 0 ∷ 0 ∷ 0x28 ∷ 0 ∷ 0 ∷ 0 ∷ 0 ∷ 0 ∷ 0 ∷ 0 ∷ 0 ∷ 0 ∷ 0 ∷ 0 ∷ 2 ∷ 0 ∷ []) field
        0x08 in
    (cmd, rw (coded, frame) (ground arith), refl, parse_of_value mode duration cmd coded carried)
