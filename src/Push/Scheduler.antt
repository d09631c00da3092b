-- ===== src/Push/Scheduler.antt =====
-- push.py: the one deferred update and the floor that every update is held to. A timer is the time
-- that it fires at; `NEVER_TIME` lies a day before the import of push.py, and is the clock's zero.
use yalexs_ble.Prelude.{
  ℕ, ◌+◌, ◌-◌, max, Bool, true, false, Option, none, some, ltb, leb, is_some, if◌then◌else◌,
}

abbrev pub never_time : ℕ
never_time = 0

-- `DISCONNECT_DELAY`
abbrev pub disconnect_delay : ℕ
disconnect_delay = 5100

-- `LOCK_STALE_STATE_DEBOUNCE_DELAY`
abbrev pub lock_stale_state_debounce_delay : ℕ
lock_stale_state_debounce_delay = 6100

-- `HK_UPDATE_COALESCE_SECONDS`
abbrev pub hk_update_coalesce : ℕ
hk_update_coalesce = 25

-- `OPERATION_IN_PROGRESS_DEFER_SECONDS`
abbrev pub operation_in_progress_defer : ℕ
operation_in_progress_defer = 1000

-- `UPDATE_IN_PROGRESS_DEFER_SECONDS`
abbrev pub update_in_progress_defer : ℕ
update_in_progress_defer = disconnect_delay - 1000

pub record Scheduler : Type 0 where
  -- `_cancel_deferred_update`
  pub deferred_update : Option ℕ
  pub earliest_update_time : ℕ

-- `_hold_update`
unfoldable pub hold_update : ℕ → Scheduler → Scheduler
hold_update now s = record s { earliest_update_time = now + lock_stale_state_debounce_delay }

-- `_cancel_future_update`
unfoldable pub cancel_future_update : Scheduler → Scheduler
cancel_future_update s = record s { deferred_update = none }

-- `_schedule_future_update`; a delay of `max(t, earliest - now)` ends at `max(now + t, earliest)`.
unfoldable pub schedule_future_update : ℕ → ℕ → Scheduler → Scheduler
schedule_future_update now delay s = record s {
  deferred_update = some (max (now + delay) s.earliest_update_time);
}

-- `_schedule_future_update_with_debounce`
unfoldable pub schedule_with_debounce : ℕ → ℕ → Scheduler → Scheduler
unfolding schedule_future_update
schedule_with_debounce now delay s = elim s.deferred_update [
  | none ↦ schedule_future_update now delay s
  | some standing ↦
      if ltb standing (now + hk_update_coalesce)
      then schedule_future_update now hk_update_coalesce s
      else if ltb standing (now + delay)
      then s
      else schedule_future_update now delay s
]

-- `_wait_for_the_floor`
unfoldable pub wait_for_the_floor : ℕ → Scheduler → Bool × Scheduler
unfolding schedule_future_update
wait_for_the_floor now s =
    if leb s.earliest_update_time now
    then (false, s)
    else if is_some s.deferred_update
    then (true, s)
    else (true, schedule_future_update now (s.earliest_update_time - now) s)

-- `_deferred_update`: whether an update starts.
unfoldable pub deferred_update : ℕ → Bool → Bool → Scheduler → Bool × Scheduler
unfolding cancel_future_update wait_for_the_floor schedule_with_debounce
deferred_update now update_in_flight operation_locked s =
    let s' = cancel_future_update s in
    if update_in_flight
    then (false, schedule_with_debounce now update_in_progress_defer s')
    else let (holds, s'') = wait_for_the_floor now s' in
      if holds
      then (false, s'')
      else if operation_locked
      then (false, schedule_with_debounce now operation_in_progress_defer s'')
      else (true, s'')
