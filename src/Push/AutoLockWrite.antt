-- ===== src/Push/AutoLockWrite.antt =====
-- push.py: what `set_auto_lock_mode` and `set_auto_lock_duration` write, from the setting on display
-- and the one before it; `none` is the early return of a setting that is off already.
use yalexs_ble.Prelude.{ℕ, Bool, false, not, Option, none, some, ◌==◌, if◌then◌else◌}
use yalexs_ble.Const.{AutoLockMode, off, timer, AutoLockState}
use yalexs_ble.Lock.AutoLock.{is_off}

-- `AUTO_LOCK_DEFAULT_DURATION`
abbrev pub auto_lock_default_duration : ℕ
auto_lock_default_duration = 90

-- `AUTO_LOCK_WRITE_ATTEMPTS`
abbrev pub auto_lock_write_attempts : ℕ
auto_lock_write_attempts = 2

-- `s and s.mode == OFF`
abbrev pub known_off : Option AutoLockState → Bool
known_off none = false
known_off (some s) = is_off s.mode

-- `s and s.mode != OFF`
abbrev pub known_on : Option AutoLockState → Bool
known_on none = false
known_on (some s) = not (is_off s.mode)

abbrev pub mode_or : Option AutoLockState → AutoLockMode → AutoLockMode
mode_or none default = default
mode_or (some s) default = s.mode

abbrev pub duration_or : Option AutoLockState → ℕ → ℕ
duration_or none default = default
duration_or (some s) default = s.duration

-- The branch that turns the setting off.
abbrev pub turn_off : Option AutoLockState → Option AutoLockState
turn_off current = if known_off current then none else some (record { mode = off; duration = 0 })

-- The setting to take the other half from: the current one, else the one before.
abbrev pub kept_setting : Option AutoLockState → Option AutoLockState → Option AutoLockState
kept_setting current previous =
    if known_on current then current else if known_on previous then previous else none

-- `set_auto_lock_mode`
unfoldable pub set_auto_lock_mode :
    AutoLockMode → Option AutoLockState → Option AutoLockState → Option AutoLockState
set_auto_lock_mode mode current previous =
    if is_off mode
    then turn_off current
    else some (record {
      mode = mode;
      duration = duration_or (kept_setting current previous) auto_lock_default_duration;
    })

-- `set_auto_lock_duration`
unfoldable pub set_auto_lock_duration :
    ℕ → Option AutoLockState → Option AutoLockState → Option AutoLockState
set_auto_lock_duration duration current previous =
    if duration == 0
    then turn_off current
    else some (record { mode = mode_or (kept_setting current previous) timer; duration = duration })
