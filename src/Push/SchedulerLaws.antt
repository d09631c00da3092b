-- ===== src/Push/SchedulerLaws.antt =====
-- When a deferred update runs.
use yalexs_ble.Prelude.{ℕ, ◌≡◌, ◌+◌, ◌≤◌, max, Option, none, some, arith}
use yalexs_ble.Push.Scheduler.{Scheduler, schedule_future_update, schedule_with_debounce}

-- A timer that stands and fires by a time.
abbrev pub DueBy : Option ℕ → ℕ → Type 0
DueBy none bound = ⊥
DueBy (some due) bound = due ≤ bound

-- Scheduling always leaves one update standing, never starting later than both the delay asked for
-- (or 25 ms, if that is longer) and the floor.
pub schedule_with_debounce-bounds :
    (now delay : ℕ) (s : Scheduler)
    → DueBy
        (schedule_with_debounce now delay s).deferred_update
        (max (max (now + delay) (now + 25)) s.earliest_update_time)
unfolding schedule_with_debounce schedule_future_update
schedule_with_debounce-bounds now delay s = ground arith

-- A standing update is never put off past the floor and the 25 ms that coalesce two requests.
pub schedule_with_debounce-keeps :
    (now delay standing : ℕ) (s : Scheduler)
    → s.deferred_update ≡ some standing
    → DueBy
        (schedule_with_debounce now delay s).deferred_update
        (max (max standing (now + 25)) s.earliest_update_time)
unfolding schedule_with_debounce schedule_future_update
schedule_with_debounce-keeps now delay standing s h = ground arith
