-- ===== src/Push/UpdateLaws.antt =====
-- What the display shows after reports: the secure channel, the hold of a jam, refused readings.
use yalexs_ble.Prelude.{
  ℕ, ◌≡◌, ◌≢◌, refl, ap, ◌∙◌, true, not, Option, none, some, List, [], ◌∷◌, or_default, Bool-cases,
  Option-cases, ◌⊎◌, inl, inr, arith,
}
use yalexs_ble.Const.{
  LockStatus, securemode, lock_status_eq, LockState, StateValue, lock_status, door_status, battery,
  auto_lock, auth,
}
use yalexs_ble.Push.Display.{Display, project_lock_status}
use yalexs_ble.Push.DisplayLaws.{project_lock_status-settled}
use yalexs_ble.Push.State.{
  Watcher, unknown_state, get_current_state, callback_state, mark_lock_seen,
}
use yalexs_ble.Push.Jam.{admit_lock_status, note_attention}
use yalexs_ble.Push.Update.{
  Changes, no_changes, is_unchanged, replace, stage_display, apply_changes, display, stage_admitted,
  update_lock_status, update_value, update_values, update_any_state,
}

-- The secure channel of a watcher's display does not show SECUREMODE.
abbrev pub SecurePlain : Watcher → Type 0
SecurePlain w = (get_current_state w).secure ≢ securemode

-- A watcher whose display is still the given one, with changes that keep SECUREMODE off the secure
-- channel.
abbrev pub Staged : Option LockState → List LockState → Watcher × Changes → Type 0
Staged shown published (w, c) =
    (w.lock_state ≡ shown) × (w.published ≡ published) × (c.secure ≢ some securemode)

pub admit_lock_status-keeps :
    (now : ℕ) (incoming : LockStatus) (w : Watcher)
    → ((admit_lock_status now incoming w).1.lock_state ≡ w.lock_state)
      × ((admit_lock_status now incoming w).1.published ≡ w.published)
unfolding admit_lock_status note_attention
admit_lock_status-keeps now incoming w = ground arith

module _ (shown : Option LockState) (published : List LockState) where
  stage_display-Staged :
      (lock_state : LockState) (d : Display) (staged : Watcher × Changes)
      → d.secure ≢ securemode
      → Staged shown published staged
      → Staged shown published (stage_display lock_state d staged)
  unfolding stage_display
  stage_display-Staged lock_state d (w, c) plain (same, kept, h) =
      elim (Bool-cases (not (lock_status_eq lock_state.secure d.secure))) [
        | inl moved ↦ (same, kept, rw (moved) (λ e. plain cc))
        | inr still ↦ (same, kept, rw (still) h)
      ]

  stage_admitted-Staged :
      (lock_state : LockState) (admitted : Option LockStatus) (staged : Watcher × Changes)
      → Staged shown published staged
      → Staged shown published (stage_admitted lock_state admitted staged)
  unfolding stage_admitted
  stage_admitted-Staged lock_state none (w, c) h = h
  stage_admitted-Staged lock_state (some status) staged h =
      stage_display-Staged lock_state (project_lock_status status lock_state) staged
        (project_lock_status-settled status lock_state).1 h

  update_lock_status-Staged :
      (now : ℕ) (lock_state : LockState) (state : LockStatus) (staged : Watcher × Changes)
      → Staged shown published staged
      → Staged shown published (update_lock_status now lock_state state staged)
  unfolding update_lock_status
  update_lock_status-Staged now lock_state state (w, c) (same, kept, h) =
      let w' = mark_lock_seen true w in
      let (same', kept') = admit_lock_status-keeps now state w' in
      let (admitted, w'') = admit_lock_status now state w' in
      stage_admitted-Staged lock_state admitted (w'', c) (same' ∙ same, kept' ∙ kept, h)

  update_value-Staged :
      (now : ℕ) (lock_state : LockState) (v : StateValue) (staged : Watcher × Changes)
      → Staged shown published staged
      → Staged shown published (update_value now lock_state v staged)
  unfolding update_value
  update_value-Staged now lock_state (lock_status state) staged h =
      update_lock_status-Staged now lock_state state staged h
  update_value-Staged now lock_state (door_status state) (w, c) h = ground arith
  update_value-Staged now lock_state (battery state) (w, c) h = ground arith
  update_value-Staged now lock_state (auto_lock state) (w, c) h = ground arith
  update_value-Staged now lock_state (auth state) (w, c) h = ground arith

  update_values-Staged :
      (now : ℕ) (lock_state : LockState) (vs : List StateValue) (staged : Watcher × Changes)
      → Staged shown published staged
      → Staged shown published (update_values now lock_state vs staged)
  update_values-Staged now lock_state [] staged h = h
  update_values-Staged now lock_state (v ∷ vs) staged h =
      update_values-Staged now lock_state vs (update_value now lock_state v staged)
        (update_value-Staged now lock_state v staged h)

-- A watcher after a call: either its display and what it published are as before, or it published
-- one state, which is the one it shows.
abbrev pub PublishedOnce : Watcher → Watcher → Type 0
PublishedOnce w w' =
    ((w'.lock_state ≡ w.lock_state) × (w'.published ≡ w.published))
    ⊎ ((state : LockState) × (w'.lock_state ≡ some state) × (w'.published ≡ state ∷ w.published))

replace-secure :
    (s : LockState) (c : Changes)
    → s.secure ≢ securemode
    → c.secure ≢ some securemode
    → (replace s c).secure ≢ securemode
unfolding replace
replace-secure s c h k = elim (Option-cases c.secure) [
  | inl kept ↦ rw (kept) h
  | inr (status, changed) ↦ rw (changed) (λ e. k (changed ∙ ap some e))
]

apply_changes-lem :
    (w : Watcher) (staged : Watcher × Changes)
    → SecurePlain w
    → Staged w.lock_state w.published staged
    → SecurePlain (apply_changes (get_current_state w) staged)
      × PublishedOnce w (apply_changes (get_current_state w) staged)
unfolding apply_changes callback_state get_current_state
apply_changes-lem w (w', c) plain (same, kept, h) = elim (Bool-cases (is_unchanged c)) [
  | inl unchanged ↦ rw (unchanged) (rw (same) plain, inl (same, kept))
  | inr changed ↦
      let state = replace (or_default w.lock_state unknown_state) c in
      rw (changed) (
        replace-secure (or_default w.lock_state unknown_state) c plain h,
        inr (state, refl, ap (λ l. state ∷ l) kept),
      )
]

-- Reports of any kind in any order keep SECUREMODE off the secure channel, and are published
-- together as at most one state, which is the one then shown.
pub update_any_state-SecurePlain :
    (now : ℕ) (states : List StateValue) (w : Watcher)
    → SecurePlain w
    → SecurePlain (update_any_state now states w) × PublishedOnce w (update_any_state now states w)
unfolding update_any_state
update_any_state-SecurePlain now states w plain =
    apply_changes-lem w (update_values now (get_current_state w) states (w, no_changes)) plain (
      update_values-Staged w.lock_state w.published now (get_current_state w) states (w, no_changes)
        (refl, refl, λ e. cc))

pub display-SecurePlain :
    (d : Display) (w : Watcher)
    → d.secure ≢ securemode
    → SecurePlain w
    → SecurePlain (display d w) × PublishedOnce w (display d w)
unfolding display
display-SecurePlain d w h plain =
    apply_changes-lem w (stage_display (get_current_state w) d (w, no_changes)) plain (
      stage_display-Staged w.lock_state w.published (get_current_state w) d (w, no_changes) h
        (refl, refl, λ e. cc))
