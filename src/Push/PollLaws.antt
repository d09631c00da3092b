-- ===== src/Push/PollLaws.antt =====
-- What an operation of the watcher shows, and the poll that follows it.
use yalexs_ble.Prelude.{
  ℕ, ◌≡◌, refl, ap, subst, ◌∙◌, ◌+◌, ◌≤◌, Bool, true, false, not, ◌&&◌, ◌||◌, Option, none, some,
  is_some, arith, Bool-cases, inl, inr, if◌then◌else◌,
}
use yalexs_ble.Errors.{ok}
use yalexs_ble.Const.{LockStatus}
use yalexs_ble.Push.Display.{Display, settled, project_lock_status}
use yalexs_ble.Push.Scheduler.{
  Scheduler, hold_update, cancel_future_update, schedule_with_debounce, schedule_future_update,
}
use yalexs_ble.Push.State.{Watcher, get_current_state, callback_state}
use yalexs_ble.Push.Jam.{
  jam_takes_precedence, jam_hold_live, attention_holds_display, reset_jam_state,
}
use yalexs_ble.Push.Update.{stage_display, apply_changes, apply_result, display, display_result}
use yalexs_ble.Push.Operation.{
  show_outcome, show_result, schedule_after_operation, end_operation, finalize_operation,
  finalize_result, unanswered_outcome, schedule_if,
}

-- Two watchers that differ at most in what they show and have seen.
abbrev pub SameControl : Watcher → Watcher → Type 0
SameControl w w' =
    (w'.running ≡ w.running)
    × (w'.always_connected ≡ w.always_connected)
    × (w'.jam ≡ w.jam)
    × (w'.operation ≡ w.operation)
    × (w'.scheduler ≡ w.scheduler)
    × (w'.force_lock_status_poll ≡ w.force_lock_status_poll)

pub display-SameControl : (d : Display) (w : Watcher) → SameControl w (display d w)
unfolding display stage_display apply_changes callback_state
display-SameControl d w = ground arith

pub show_outcome-SameControl :
    (now : ℕ) (outcome : Option LockStatus) (w : Watcher)
    → SameControl w (show_outcome now outcome w)
unfolding show_outcome
show_outcome-SameControl now none w = (refl, refl, refl, refl, refl, refl)
show_outcome-SameControl now (some status) w =
    elim (Bool-cases (attention_holds_display (jam_takes_precedence w || jam_hold_live now w) w)) [
      | inl held ↦ rw (held) (refl, refl, refl, refl, refl, refl)
      | inr free ↦
          rw (free) (display-SameControl (project_lock_status status (get_current_state w)) w)
    ]

-- A timer, if it stands, does not fire before a time.
abbrev pub NotBefore : Option ℕ → ℕ → Type 0
NotBefore none floor = Unit
NotBefore (some due) floor = floor ≤ due

schedule_with_debounce-floor :
    (now delay : ℕ) (s : Scheduler)
    → s.deferred_update ≡ none
    → NotBefore (schedule_with_debounce now delay s).deferred_update s.earliest_update_time
      × (is_some (schedule_with_debounce now delay s).deferred_update ≡ true)
unfolding schedule_with_debounce schedule_future_update
schedule_with_debounce-floor now delay s h = ground arith

-- Whether an operation's exit schedules a poll: not while a hold is live, which polls at its own end,
-- unless the poll is the reconnect of a dropped link.
abbrev pub polls_after : ℕ → Bool → Watcher → Bool
polls_after now is_connected w =
    (w.always_connected && not is_connected) || not (jam_hold_live now w)

schedule_after_operation-floor :
    (now : ℕ) (is_connected : Bool) (w : Watcher)
    → NotBefore
        (schedule_after_operation now is_connected w).scheduler.deferred_update
        w.scheduler.earliest_update_time
      × (is_some (schedule_after_operation now is_connected w).scheduler.deferred_update
          ≡ polls_after now is_connected w)
unfolding schedule_after_operation cancel_future_update
schedule_after_operation-floor now is_connected w =
    let cancelled : Scheduler = record w.scheduler { deferred_update = none } in
    let next = λ (delay : ℕ). schedule_with_debounce-floor now delay cancelled refl in
    elim (Bool-cases (w.always_connected && not is_connected)) [
      | inl dropped ↦ rw (dropped) (next 6100)
      | inr linked ↦ elim (Bool-cases (jam_hold_live now w)) [
        | inl held ↦ rw (linked, held) (tt, refl)
        | inr free ↦
            rw (linked, free)
              (next (
                if settled (record {
                  lock = (get_current_state w).lock;
                  secure = (get_current_state w).secure;
                })
                then 25000
                else 6100))
      ]
    ]

schedule_after_operation-keeps :
    (now : ℕ) (is_connected : Bool) (w : Watcher)
    → ((schedule_after_operation now is_connected w).operation ≡ w.operation)
      × ((schedule_after_operation now is_connected w).force_lock_status_poll
          ≡ w.force_lock_status_poll)
unfolding schedule_after_operation
schedule_after_operation-keeps now is_connected w = ground arith

finalize_result-ok : (now : ℕ) (w : Watcher) → finalize_result now (ok tt) w ≡ ok tt
unfolding finalize_result show_result display_result apply_result
finalize_result-ok now w = ground arith

-- The exit of an operation of a running watcher, where the consumers can be called, closes its window,
-- asks for a poll, and schedules the poll, exactly if no hold is live or the poll is a reconnect, for
-- no earlier than 6.1 s later.
pub finalize_operation-polls :
    (now : ℕ) (is_connected : Bool) (w : Watcher)
    → w.running ≡ true
    → ((finalize_operation now is_connected (ok tt) w).operation.in_flight ≡ false)
      × ((finalize_operation now is_connected (ok tt) w).operation.window_open ≡ false)
      × ((finalize_operation now is_connected (ok tt) w).force_lock_status_poll ≡ true)
      × NotBefore
          (finalize_operation now is_connected (ok tt) w).scheduler.deferred_update
          (now + 6100)
      × (is_some (finalize_operation now is_connected (ok tt) w).scheduler.deferred_update
          ≡ polls_after now is_connected w)
unfolding finalize_operation end_operation hold_update jam_hold_live
finalize_operation-polls now is_connected w running =
    let outcome = unanswered_outcome w in
    let ended = end_operation now w in
    let shown = show_outcome now outcome ended in
    let (runs, always, jam, operation, scheduler, forced) =
      show_outcome-SameControl now outcome ended in
    let (same, asked) = schedule_after_operation-keeps now is_connected shown in
    let (floored, polls) = schedule_after_operation-floor now is_connected shown in
    let next = schedule_after_operation now is_connected shown in
    let runs_on : finalize_operation now is_connected (ok tt) w ≡ next =
      ap
        (λ b.
          if not b
          then reset_jam_state ended
          else schedule_if (finalize_result now (ok tt) w) now is_connected shown)
        running
      ∙ ap (λ r. schedule_if r now is_connected shown) (finalize_result-ok now w) in
    let polls' : is_some next.scheduler.deferred_update ≡ polls_after now is_connected w =
      rw (polls, always, jam) refl in
    rw (runs_on) (
      ap (λ o. o.in_flight) (same ∙ operation),
      ap (λ o. o.window_open) (same ∙ operation),
      asked ∙ forced,
      subst (λ s. NotBefore next.scheduler.deferred_update s.earliest_update_time) scheduler
          floored,
      polls',
    )
