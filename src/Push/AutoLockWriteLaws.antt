-- ===== src/Push/AutoLockWriteLaws.antt =====
-- Setting the auto lock mode and writing it to the lock, together.
use yalexs_ble.Prelude.{
  ℕ, ◌≡◌, refl, ap, ◌∙◌, ◌≤◌, true, Option, none, some, List, ◌⊎◌, inl, inr, Bool-cases, arith,
}
use yalexs_ble.Errors.{ok}
use yalexs_ble.Const.{AutoLockMode, off, timer, instant, AutoLockState}
use yalexs_ble.Lock.AutoLock.{is_off, auto_lock_command, parse_auto_lock_state}
use yalexs_ble.Lock.AutoLockLaws.{stored_setting, auto_lock_command-parse_auto_lock_state}
use yalexs_ble.Push.Attempts.{is_duration}
use yalexs_ble.Push.AutoLockWrite.{
  known_off, known_on, kept_setting, duration_or, turn_off, set_auto_lock_mode,
}

-- A setting that is off or has one of the durations that are offered, but not 0.
abbrev pub Fits : Option AutoLockState → Type 0
Fits none = Unit
Fits (some s) = (1 ≤ s.duration) × (is_duration s.duration ≡ true) ⊎ (is_off s.mode ≡ true)

-- The setting passes the test of `_set_auto_lock`, and its write command decodes to a mode.
abbrev pub Writes : AutoLockMode → Option AutoLockState → Type 0
Writes mode none = ⊥
Writes mode (some s) =
    (is_duration s.duration ≡ true)
    × (cmd : List ℕ) × (auto_lock_command s.mode s.duration ≡ ok cmd)
    × ((parse_auto_lock_state cmd).mode ≡ mode)

fits_timers : (duration : ℕ) → is_duration duration ≡ true → duration ≤ 0xFFFE
fits_timers duration offered = ground arith

own_duration :
    (setting other : Option AutoLockState)
    → Fits setting
    → known_on setting ≡ true
    → (1 ≤ duration_or setting 90) × (is_duration (duration_or setting 90) ≡ true)
own_duration none other f on = cc
own_duration (some s) other (inl fits) on = fits
own_duration (some s) other (inr is_off') on = absurd (ground arith)

kept_duration :
    (current previous : Option AutoLockState)
    → Fits current
    → Fits previous
    → (1 ≤ duration_or (kept_setting current previous) 90)
      × (is_duration (duration_or (kept_setting current previous) 90) ≡ true)
kept_duration current previous f g = elim (Bool-cases (known_on current)) [
  | inl on ↦ rw on (own_duration current previous f on)
  | inr current_off ↦ elim (Bool-cases (known_on previous)) [
    | inl on ↦ rw (current_off, on) (own_duration previous current g on)
    | inr previous_off ↦ rw (current_off, previous_off) (omega arith, refl)
  ]
]

stored_mode :
    (mode : AutoLockMode) (duration : ℕ) → 1 ≤ duration → (stored_setting mode duration).mode ≡ mode
stored_mode off duration h = ground arith
stored_mode mode duration h = ground arith

written_mode :
    (mode : AutoLockMode) (current previous : Option AutoLockState)
    → Fits current
    → Fits previous
    → Writes mode
        (some (record { mode = mode; duration = duration_or (kept_setting current previous) 90 }))
written_mode mode current previous f g =
    let duration = duration_or (kept_setting current previous) 90 in
    let (low, offered) = kept_duration current previous f g in
    let (cmd, built, length', decoded) =
      auto_lock_command-parse_auto_lock_state mode duration (fits_timers duration offered) in
    (offered, cmd, built, ap (λ s. s.mode) decoded ∙ stored_mode mode duration low)

turns_off :
    (current : Option AutoLockState)
    → ((turn_off current ≡ none) × (known_off current ≡ true)) ⊎ Writes off (turn_off current)
turns_off current = elim (Bool-cases (known_off current)) [
  | inl already ↦ inl (rw already refl, already)
  | inr fresh ↦
      let (cmd, built, length', decoded) =
        auto_lock_command-parse_auto_lock_state off 0 (omega arith) in
      inr (rw fresh (refl, cmd, built, ap (λ s. s.mode) decoded))
]

-- Where each setting on display and before it is unknown, off or of an offered duration but 0, a
-- request for a mode either writes nothing, as the setting is known to be off and off is asked for,
-- or asks for a setting that passes the test of the durations and whose write command decodes to
-- the mode asked for.
pub set_auto_lock_mode-Writes :
    (mode : AutoLockMode) (current previous : Option AutoLockState)
    → Fits current
    → Fits previous
    → ((set_auto_lock_mode mode current previous ≡ none)
        × (mode ≡ off)
        × (known_off current ≡ true))
      ⊎ Writes mode (set_auto_lock_mode mode current previous)
unfolding set_auto_lock_mode
set_auto_lock_mode-Writes off current previous f g = elim (turns_off current) [
  | inl (nothing, already) ↦ inl (nothing, refl, already)
  | inr writes ↦ inr writes
]
set_auto_lock_mode-Writes timer current previous f g = inr (written_mode timer current previous f g)
set_auto_lock_mode-Writes instant current previous f g =
    inr (written_mode instant current previous f g)
