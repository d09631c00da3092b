-- ===== src/Push/AnswerLaws.antt =====
-- What the op-response of a command does to the display.
use yalexs_ble.Prelude.{◌≡◌, refl, ap, ◌∙◌, Bool, true, false, not, ◌&&◌, ◌||◌, if◌then◌else◌}
use yalexs_ble.Push.Display.{project_lock_status, LockOperation, pending_display, complete}
use yalexs_ble.Push.DisplayLaws.{project_lock_status-settled}
use yalexs_ble.Push.Scheduler.{never_time}
use yalexs_ble.Push.State.{Watcher, get_current_state, displayed_status}
use yalexs_ble.Push.Jam.{
  needs_attention, jam_takes_precedence, attention_holds_display, release_jam_hold,
}
use yalexs_ble.Push.Update.{display}
use yalexs_ble.Push.JamLaws.{apply_stage-lock}
use yalexs_ble.Push.PollLaws.{display-SameControl}
use yalexs_ble.Push.Operation.{close_operation_window, operation_result, operation_write_success}

-- The watcher once an op-response arrived, before its display.
abbrev pub answered_watcher : Watcher → Watcher
answered_watcher w = record w {
  operation = record w.operation { answered = true; window_open = false };
}

-- A watcher whose operation is answered and whose window is closed.
abbrev pub Answered : Watcher → Type 0
Answered w = (w.operation.answered ≡ true) × (w.operation.window_open ≡ false)

if-Answered :
    (b : Bool) (w w' : Watcher) → Answered w → Answered w' → Answered (if b then w else w')
if-Answered true w w' h k = h
if-Answered false w w' h k = k

operation_result-Answered :
    (operation : LockOperation) (succeeded : Bool) (w : Watcher)
    → Answered (operation_result operation succeeded w)
unfolding operation_result close_operation_window release_jam_hold
operation_result-Answered operation succeeded w =
    let closed = answered_watcher w in
    let shown = project_lock_status (complete operation) (get_current_state closed) in
    let (runs, always, jam, same, scheduler, forced) =
      display-SameControl shown (release_jam_hold closed) in
    if-Answered (not w.running || not succeeded) closed _ (refl, refl)
      (if-Answered (attention_holds_display (jam_takes_precedence closed) closed) closed
        (display shown (release_jam_hold closed)) (refl, refl)
        (ap (λ o. o.answered) same, ap (λ o. o.window_open) same))

-- A write callback that runs after the op-response changes nothing, whichever operation it belongs
-- to and whatever the op-response said.
pub operation_write_success-operation_result :
    (operation late : LockOperation) (succeeded : Bool) (w : Watcher)
    → operation_write_success late (operation_result operation succeeded w)
      ≡ operation_result operation succeeded w
unfolding operation_write_success
operation_write_success-operation_result operation late succeeded w =
    let answer = operation_result operation succeeded w in
    ap
      (λ b.
        if b
        then answer
        else if attention_holds_display (jam_takes_precedence answer) answer
        then answer
        else display (pending_display late (get_current_state answer)) (release_jam_hold answer))
      (operation_result-Answered operation succeeded w).0

-- A successful op-response of a running watcher, unless a displayed jam takes precedence over the
-- command, puts the operation's settled status on display and releases the hold.
pub operation_result-shows :
    (operation : LockOperation) (w : Watcher)
    → w.running ≡ true
    → (jam_takes_precedence w && needs_attention (displayed_status w)) ≡ false
    → (displayed_status (operation_result operation true w) ≡ complete operation)
      × ((operation_result operation true w).jam.hold_deadline ≡ never_time)
unfolding operation_result close_operation_window release_jam_hold attention_holds_display
    jam_takes_precedence get_current_state display
operation_result-shows operation w running free =
    let released = release_jam_hold (answered_watcher w) in
    let shown = project_lock_status (complete operation) (get_current_state released) in
    let runs_on : operation_result operation true w ≡ display shown released =
      ap
        (λ b.
          if not b || false
          then answered_watcher w
          else if jam_takes_precedence w && needs_attention (displayed_status w)
          then answered_watcher w
          else display shown released)
        running
      ∙ ap (λ b. if b then answered_watcher w else display shown released) free in
    let settles =
      (project_lock_status-settled (complete operation) (get_current_state released)).0 in
    (
      ap displayed_status runs_on ∙ apply_stage-lock released released shown refl ∙ settles,
      ap (λ v. v.jam.hold_deadline) runs_on
          ∙ ap (λ j. j.hold_deadline) (display-SameControl shown released).2,
    )
