-- ===== src/Push/JamLaws.antt =====
-- What a reported jam does to the display, and how long.
use yalexs_ble.Prelude.{
  ℕ, ◌≡◌, refl, sym, ◌∙◌, ◌+◌, Bool, true, false, not, ◌&&◌, ◌||◌, none, some, [], ◌∷◌, Bool-cases,
  inl, inr, arith, if◌then◌else◌,
}
use yalexs_ble.Const.Values.{value_tables_invert}
use yalexs_ble.Push.UpdateLaws.{admit_lock_status-keeps}
use yalexs_ble.Push.DisplayLaws.{project_lock_status-settled}
use yalexs_ble.Const.{
  DoorStatus, OperationError, lock_status_value, LockStatus, lock_status, lock_status_eq,
}
use yalexs_ble.Push.Display.{Display, project_lock_status}
use yalexs_ble.Push.State.{
  Watcher, get_current_state, displayed_status, mark_lock_seen, callback_state,
}
use yalexs_ble.Push.Jam.{
  admit_lock_status, needs_attention, jam_hold_live, attention_holds_display, note_attention,
}
use yalexs_ble.Push.Update.{
  no_changes, replace, stage_display, stage_admitted, apply_changes, update_lock_status,
  update_value, update_any_state,
}

-- The statuses that are kept off the display: any that needs no attention, inside an operation's
-- window or while a displayed jam is within its hold.
abbrev pub kept_off : ℕ → LockStatus → Watcher → Bool
kept_off now incoming w =
    not (needs_attention incoming)
    && (w.operation.window_open || (jam_hold_live now w && needs_attention (displayed_status w)))

admit_lock_status-refuses :
    (now : ℕ) (incoming : LockStatus) (w : Watcher)
    → kept_off now incoming w ≡ true
    → (admit_lock_status now incoming w).0 ≡ none
unfolding admit_lock_status attention_holds_display jam_hold_live
admit_lock_status-refuses now incoming w h = ground arith

admit_lock_status-admits :
    (now : ℕ) (incoming : LockStatus) (w : Watcher)
    → kept_off now incoming w ≡ false
    → (admit_lock_status now incoming w).0 ≡ some incoming
unfolding admit_lock_status attention_holds_display jam_hold_live
admit_lock_status-admits now incoming w h = ground arith

-- A jam or setup condition is recorded at once, and held for 30 s when it was not on display before
-- or when a command of ours is running; a repeat at any other time extends nothing.
pub admit_lock_status-hold :
    (now : ℕ) (incoming : LockStatus) (w : Watcher)
    → needs_attention incoming ≡ true
    → ((admit_lock_status now incoming w).0 ≡ some incoming)
      × ((admit_lock_status now incoming w).1.jam.last_event_time ≡ now)
      × ((admit_lock_status now incoming w).1.jam.hold_deadline ≡ (
          if needs_attention (displayed_status w) && not w.operation.in_flight
          then w.jam.hold_deadline
          else now + 30000))
unfolding admit_lock_status note_attention
admit_lock_status-hold now incoming w h = ground arith

-- A status that needs no attention, reported inside an operation's window or while a displayed jam
-- is within its hold, changes neither the display nor what is published, and does not count as
-- this session's reading.
pub update_any_state-kept_off :
    (now : ℕ) (incoming : LockStatus) (w : Watcher)
    → kept_off now incoming w ≡ true
    → ((update_any_state now (lock_status incoming ∷ []) w).lock_state ≡ w.lock_state)
      × ((update_any_state now (lock_status incoming ∷ []) w).published ≡ w.published)
      × ((update_any_state now (lock_status incoming ∷ []) w).seen.lock ≡ false)
unfolding update_any_state update_value update_lock_status stage_admitted apply_changes
    jam_hold_live
update_any_state-kept_off now incoming w h =
    rw (admit_lock_status-refuses now incoming (mark_lock_seen true w) h) (
      let (same, kept) = admit_lock_status-keeps now incoming (mark_lock_seen true w) in
      (same, kept, refl))

lock_status_eq_sound : (a b : LockStatus) → lock_status_eq a b ≡ true → a ≡ b
lock_status_eq_sound a b h =
    let same : lock_status_value a ≡ lock_status_value b = ground arith in
    let (there, back) =
      (value_tables_invert (lock_status_value b) a DoorStatus.closed OperationError.nack).0 in
    let (there', back') =
      (value_tables_invert (lock_status_value b) b DoorStatus.closed OperationError.nack).0 in
    let found : some a ≡ some b = sym (back same) ∙ back' refl in cc

-- A display put up from the current state is shown.
pub apply_stage-lock :
    (w w' : Watcher) (d : Display)
    → w'.lock_state ≡ w.lock_state
    → displayed_status (
        apply_changes
          (get_current_state w)
          (stage_display (get_current_state w) d (w', no_changes)))
      ≡ d.lock
unfolding apply_changes stage_display callback_state replace get_current_state
apply_stage-lock w w' d kept =
    let shown = get_current_state w in
    elim (Bool-cases (lock_status_eq shown.lock d.lock)) [
      | inr moved ↦ rw (moved) refl
      | inl still ↦ elim (Bool-cases (lock_status_eq shown.secure d.secure)) [
        | inl quiet ↦ rw (still, quiet, kept) (lock_status_eq_sound shown.lock d.lock still)
        | inr secured ↦ rw (still, secured) (lock_status_eq_sound shown.lock d.lock still)
      ]
    ]

-- A status that is not kept off is on display afterwards.
pub update_any_state-shows :
    (now : ℕ) (incoming : LockStatus) (w : Watcher)
    → kept_off now incoming w ≡ false
    → displayed_status (update_any_state now (lock_status incoming ∷ []) w) ≡ incoming
unfolding update_any_state update_value update_lock_status stage_admitted jam_hold_live
update_any_state-shows now incoming w h =
    let w' = mark_lock_seen true w in
    rw (admit_lock_status-admits now incoming w' h) (
      apply_stage-lock w (admit_lock_status now incoming w').1
        (project_lock_status incoming (get_current_state w))
        (admit_lock_status-keeps now incoming w').0
      ∙ (project_lock_status-settled incoming (get_current_state w)).0)
