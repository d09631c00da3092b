-- ===== src/Push/AutoLockReadLaws.antt =====
-- The backoff of the auto lock read.
use yalexs_ble.Prelude.{ℕ, ◌≡◌, ◌+◌, ◌≤◌, ◌<◌, Bool, true, false, arith, ◌⊎◌, inl, inr}
use yalexs_ble.Push.AutoLockRead.{
  AutoLockRead, Asked, acknowledged, timed_out, bleak_failed, arm_backoff_if_exhausted,
  value_arrived, ask_setting, refresh_gate, setting_gate, setting_answered, read_auto_lock_setting,
}

-- The unanswered reads counted so far, of both kinds.
abbrev pub strikes : AutoLockRead → ℕ
strikes r = r.ack_failures + r.response_failures

ask_setting-strikes :
    (now : ℕ) (asked : Asked) (r : AutoLockRead)
    → strikes r < 3
    → strikes (ask_setting now asked r).state < 3
unfolding ask_setting setting_answered arm_backoff_if_exhausted value_arrived
ask_setting-strikes now (acknowledged true) r h = ground arith
ask_setting-strikes now (acknowledged false) r h = h
ask_setting-strikes now timed_out r h = ground arith
ask_setting-strikes now bleak_failed r h = h

setting_gate-strikes :
    (now : ℕ) (always_connected seen : Bool) (r : AutoLockRead)
    → strikes r < 3
    → strikes (setting_gate now always_connected seen r).state < 3
unfolding setting_gate refresh_gate arm_backoff_if_exhausted
setting_gate-strikes now always_connected seen r h = ground arith

-- Every cycle leaves fewer than three unanswered reads counted: the third arms the backoff and
-- starts the count again.
pub read_auto_lock_setting-strikes :
    (now : ℕ) (always_connected seen : Bool) (asked : Asked) (r : AutoLockRead)
    → strikes r < 3
    → strikes (read_auto_lock_setting now always_connected seen asked r).state < 3
unfolding read_auto_lock_setting
read_auto_lock_setting-strikes now always_connected seen asked r h =
    let gate = setting_gate now always_connected seen r in
    ground (
      arith,
      setting_gate-strikes now always_connected seen r h,
      ask_setting-strikes now asked gate.state,
    )

third_timeout :
    (now : ℕ) (always_connected : Bool) (r : AutoLockRead)
    → r.earliest_read_time ≤ now
    → r.awaiting_response ≡ false
    → strikes r ≡ 2
    → (read_auto_lock_setting now always_connected false timed_out r).state.earliest_read_time
      ≡ now + 86400000
unfolding read_auto_lock_setting setting_gate refresh_gate ask_setting setting_answered
    arm_backoff_if_exhausted
third_timeout now always_connected r due free two = ground arith

third_lapse :
    (now : ℕ) (always_connected seen : Bool) (asked : Asked) (r : AutoLockRead)
    → r.earliest_read_time ≤ now
    → r.awaiting_response ≡ true
    → r.response_deadline < now
    → strikes r ≡ 2
    → (read_auto_lock_setting now always_connected seen asked r).state.earliest_read_time
      ≡ now + 86400000
unfolding read_auto_lock_setting setting_gate arm_backoff_if_exhausted
third_lapse now always_connected seen asked r due pending late two = ground arith

held_read :
    (later : ℕ) (always_connected seen : Bool) (asked : Asked) (r : AutoLockRead)
    → later < r.earliest_read_time
    → (read_auto_lock_setting later always_connected seen asked r).sent ≡ false
unfolding read_auto_lock_setting setting_gate
held_read later always_connected seen asked r h = ground arith

-- After two unanswered reads in a row, a third read that times out, or an acknowledged one whose
-- value is still missing past its deadline, leaves the lock unasked for the next 24 hours.
pub third_strike-silences :
    (now later : ℕ) (always_connected seen seen' : Bool) (asked asked' : Asked) (r : AutoLockRead)
    → r.earliest_read_time ≤ now
    → strikes r ≡ 2
    → ((r.awaiting_response ≡ false) × (seen ≡ false) × (asked ≡ timed_out))
      ⊎ ((r.awaiting_response ≡ true) × (r.response_deadline < now))
    → later < now + 86400000
    → (read_auto_lock_setting later always_connected seen' asked'
        (read_auto_lock_setting now always_connected seen asked r).state).sent
      ≡ false
third_strike-silences now later always_connected seen seen' asked asked' r due two
      (inl (free, unseen, silent)) soon =
    held_read later always_connected seen' asked'
      (read_auto_lock_setting now always_connected seen asked r).state
      (rw (unseen, silent, third_timeout now always_connected r due free two) soon)
third_strike-silences now later always_connected seen seen' asked asked' r due two
      (inr (pending, late)) soon =
    held_read later always_connected seen' asked'
      (read_auto_lock_setting now always_connected seen asked r).state
      (rw (third_lapse now always_connected seen asked r due pending late two) soon)
