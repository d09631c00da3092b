-- ===== src/Push/Jam.antt =====
-- push.py: a reported jam or setup condition, how long it stays on display, and when it takes
-- precedence over a command.
use yalexs_ble.Prelude.{
  ℕ, ◌+◌, Bool, true, not, ◌&&◌, ◌||◌, Option, none, some, ltb, leb, is_some, if◌then◌else◌,
}
use yalexs_ble.Const.{LockStatus, status_in, manual_intervention_statuses}
use yalexs_ble.Push.Display.{transitional_readings}
use yalexs_ble.Push.Scheduler.{
  never_time, hold_update, schedule_with_debounce, operation_in_progress_defer,
}
use yalexs_ble.Push.State.{Watcher, displayed_status}

-- `JAMMED_PRECEDENCE_TIME`
abbrev pub jammed_precedence_time : ℕ
jammed_precedence_time = 5000

-- `JAMMED_HOLD_TIME`
abbrev pub jammed_hold_time : ℕ
jammed_hold_time = 30000

abbrev pub needs_attention : LockStatus → Bool
needs_attention status = status_in status manual_intervention_statuses

-- `_jam_takes_precedence`: `last >= issued - 5`, with the 5 s on the other side.
unfoldable pub jam_takes_precedence : Watcher → Bool
jam_takes_precedence w = leb w.operation.issued_at (w.jam.last_event_time + jammed_precedence_time)

-- `_end_a_retry_under_precedence`: whether it raises.
unfoldable pub ends_a_retry : Watcher → Bool
unfolding jam_takes_precedence
ends_a_retry w = is_some w.operation.failure && jam_takes_precedence w

-- `_jam_hold_live`
unfoldable pub jam_hold_live : ℕ → Watcher → Bool
jam_hold_live now w = ltb now w.jam.hold_deadline

-- `_attention_holds_display`
unfoldable pub attention_holds_display : Bool → Watcher → Bool
attention_holds_display window_live w = window_live && needs_attention (displayed_status w)

-- `_release_jam_hold`
unfoldable pub release_jam_hold : Watcher → Watcher
release_jam_hold w = record w {
  jam = record w.jam { hold_deadline = never_time; hold_timer = none };
}

-- `_reset_jam_state`
unfoldable pub reset_jam_state : Watcher → Watcher
unfolding release_jam_hold
reset_jam_state w =
    release_jam_hold (record w { jam = record w.jam { last_event_time = never_time } })

-- The report of a jam or setup condition in `_admit_lock_status`.
unfoldable pub note_attention : ℕ → Watcher → Watcher
note_attention now w =
    if not (needs_attention (displayed_status w)) || w.operation.in_flight
    then record w {
      jam = record {
        hold_deadline = now + jammed_hold_time;
        hold_timer = some (now + jammed_hold_time);
        last_event_time = now;
      };
    }
    else record w { jam = record w.jam { last_event_time = now } }

abbrev pub hold_if_transitional : ℕ → LockStatus → Watcher → Watcher
hold_if_transitional now incoming w = record w {
  scheduler =
      (if status_in incoming transitional_readings
        then hold_update now w.scheduler
        else w.scheduler);
}

-- `_admit_lock_status`
unfoldable pub admit_lock_status : ℕ → LockStatus → Watcher → Option LockStatus × Watcher
unfolding note_attention attention_holds_display jam_hold_live
admit_lock_status now incoming w =
    let w' = hold_if_transitional now incoming w in
    if needs_attention incoming
    then (some incoming, note_attention now w')
    else if w'.operation.window_open
    then (none, w')
    else if attention_holds_display (jam_hold_live now w') w'
    then (none, w')
    else (some incoming, w')

-- `_jam_hold_ended`
unfoldable pub jam_hold_ended : ℕ → Bool → Watcher → Watcher
jam_hold_ended now operation_locked w =
    if operation_locked
    then record w { jam = record w.jam { hold_timer = some (now + operation_in_progress_defer) } }
    else record w {
      jam = record w.jam { hold_timer = none };
      force_lock_status_poll = true;
      scheduler = schedule_with_debounce now 0 w.scheduler;
    }
