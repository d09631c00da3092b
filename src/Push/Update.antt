-- ===== src/Push/Update.antt =====
-- push.py: how reported states reach the display, `_update_any_state` and what it calls. A warning
-- about a setup condition or an impossible voltage is left out.
use yalexs_ble.Prelude.{
  ℕ, ◌+◌, Bool, true, false, not, ◌&&◌, Option, none, some, List, [], ◌∷◌, leb, ◌==◌, or_default,
  is_some, if◌then◌else◌,
}
use yalexs_ble.Errors.{Result, ok}
use yalexs_ble.Const.{
  LockStatus, lock_status_eq, DoorStatus, door_status_value, BatteryState, AuthState, AutoLockState,
  auto_lock_mode_value, LockState, StateValue, lock_status, door_status, battery, auto_lock, auth,
}
use yalexs_ble.Push.Display.{Display, settled, project_lock_status}
use yalexs_ble.Push.AutoLockRead.{value_arrived}
use yalexs_ble.Push.State.{Watcher, get_current_state, callback_state, mark_lock_seen}
use yalexs_ble.Push.Jam.{admit_lock_status}

-- `BATTERY_TIMEOUT_COOLDOWN`
abbrev pub battery_timeout_cooldown : ℕ
battery_timeout_cooldown = 300000

-- `==` on the dataclasses.
abbrev pub door_status_eq : DoorStatus → DoorStatus → Bool
door_status_eq a b = door_status_value a == door_status_value b

abbrev pub battery_eq : BatteryState → BatteryState → Bool
battery_eq a b = a.voltage == b.voltage && a.percentage == b.percentage

abbrev pub bool_eq : Bool → Bool → Bool
bool_eq true b = b
bool_eq false b = not b

abbrev pub auth_eq : AuthState → AuthState → Bool
auth_eq a b = bool_eq a.successful b.successful

abbrev pub auto_lock_eq : AutoLockState → AutoLockState → Bool
auto_lock_eq a b =
    auto_lock_mode_value a.mode == auto_lock_mode_value b.mode && a.duration == b.duration

-- `a == b` where `a` may be None.
abbrev pub holds : {A : Type 0} → (A → A → Bool) → Option A → A → Bool
holds eq none b = false
holds eq (some a) b = eq a b

-- The dict of changes, by key; an absent key is `none`.
pub record Changes : Type 0 where
  pub lock : Option LockStatus
  pub door : Option DoorStatus
  pub battery : Option BatteryState
  pub auth : Option AuthState
  pub auto_lock : Option AutoLockState
  pub auto_lock_prev : Option (Option AutoLockState)
  pub secure : Option LockStatus

abbrev pub no_changes : Changes
no_changes = record {
  lock = none;
  door = none;
  battery = none;
  auth = none;
  auto_lock = none;
  auto_lock_prev = none;
  secure = none;
}

-- `not changes`; `auto_lock_prev` is only set with `auto_lock`.
abbrev pub is_unchanged : Changes → Bool
is_unchanged c =
    not (is_some c.lock)
    && (not (is_some c.door)
        && (not (is_some c.battery)
            && (not (is_some c.auth) && (not (is_some c.auto_lock) && not (is_some c.secure)))))

-- `some v` where a change replaces the field.
abbrev pub overrides : {A : Type 0} → Option A → Option A → Option A
overrides (some v) old = some v
overrides none old = old

-- `replace(lock_state, **changes)`
unfoldable pub replace : LockState → Changes → LockState
replace s c = record {
  lock = or_default c.lock s.lock;
  door = or_default c.door s.door;
  battery = overrides c.battery s.battery;
  auth = overrides c.auth s.auth;
  auto_lock = overrides c.auto_lock s.auto_lock;
  auto_lock_prev = or_default c.auto_lock_prev s.auto_lock_prev;
  secure = or_default c.secure s.secure;
}

-- `_stage_display`
unfoldable pub stage_display : LockState → Display → Watcher × Changes → Watcher × Changes
stage_display lock_state display (w, changes) =
    let moved = not (lock_status_eq lock_state.lock display.lock) in
    let secured = not (lock_status_eq lock_state.secure display.secure) in
    (
      record (mark_lock_seen (settled display) w) {
        activity_drain_pending = (if moved then true else w.activity_drain_pending);
      },
      record changes {
        lock = (if moved then some display.lock else changes.lock);
        secure = (if secured then some display.secure else changes.secure);
      },
    )

-- `_apply_changes`
unfoldable pub apply_changes : LockState → Watcher × Changes → Watcher
apply_changes lock_state (w, changes) =
    if is_unchanged changes then w else callback_state (replace lock_state changes) w

-- What `_apply_changes` ends with, where `_callback_state` would end so.
unfoldable pub apply_result : Result (Unit {0}) → Changes → Result (Unit {0})
apply_result called changes = if is_unchanged changes then ok tt else called

-- `_display`
unfoldable pub display : Display → Watcher → Watcher
display shown w =
    let lock_state = get_current_state w in
    apply_changes lock_state (stage_display lock_state shown (w, no_changes))

-- What `_display` ends with.
unfoldable pub display_result : Display → Result (Unit {0}) → Watcher → Result (Unit {0})
unfolding apply_result
display_result shown called w =
    apply_result called (stage_display (get_current_state w) shown (w, no_changes)).1

-- The branch of a lock status in the loop, once it is admitted or refused.
unfoldable pub stage_admitted :
    LockState → Option LockStatus → Watcher × Changes → Watcher × Changes
unfolding stage_display
stage_admitted lock_state none (w, changes) = (mark_lock_seen false w, changes)
stage_admitted lock_state (some status) staged =
    stage_display lock_state (project_lock_status status lock_state) staged

unfoldable pub update_lock_status :
    ℕ → LockState → LockStatus → Watcher × Changes → Watcher × Changes
unfolding stage_admitted
update_lock_status now lock_state state (w, changes) =
    let (admitted, w') = admit_lock_status now state (mark_lock_seen true w) in
    stage_admitted lock_state admitted (w', changes)

abbrev pub update_door : LockState → DoorStatus → Watcher × Changes → Watcher × Changes
update_door lock_state state (w, changes) =
    let w' : Watcher = record w { seen = record w.seen { door = true } } in
    if door_status_eq lock_state.door state
    then (w', changes)
    else (record w' { activity_drain_pending = true }, record changes { door = some state })

-- A voltage of at most 3.0 V is refused.
abbrev pub update_battery : ℕ → LockState → BatteryState → Watcher × Changes → Watcher × Changes
update_battery now lock_state state (w, changes) =
    if leb state.voltage 3000
    then (
      record w {
        seen = record w.seen { battery = false };
        earliest_battery_attempt_time = now + battery_timeout_cooldown;
      },
      changes,
    )
    else let w' : Watcher = record w { seen = record w.seen { battery = true } } in
      if holds battery_eq lock_state.battery state
      then (w', changes)
      else (w', record changes { battery = some state })

abbrev pub update_auth : LockState → AuthState → Watcher × Changes → Watcher × Changes
update_auth lock_state state (w, changes) =
    let w' : Watcher = record w { seen = record w.seen { auth = true } } in
    if holds auth_eq lock_state.auth state
    then (w', changes)
    else (w', record changes { auth = some state })

abbrev pub update_auto_lock : ℕ → LockState → AutoLockState → Watcher × Changes → Watcher × Changes
update_auto_lock now lock_state state (w, changes) =
    let w' : Watcher = record w {
      seen = record w.seen { auto_lock = true };
      auto_lock_read = value_arrived now w.auto_lock_read;
    } in
    if holds auto_lock_eq lock_state.auto_lock state
    then (w', changes)
    else (w', record changes { auto_lock = some state; auto_lock_prev = some lock_state.auto_lock })

-- One turn of the loop.
unfoldable pub update_value : ℕ → LockState → StateValue → Watcher × Changes → Watcher × Changes
unfolding update_lock_status
update_value now lock_state (lock_status state) = update_lock_status now lock_state state
update_value now lock_state (door_status state) = update_door lock_state state
update_value now lock_state (battery state) = update_battery now lock_state state
update_value now lock_state (auto_lock state) = update_auto_lock now lock_state state
update_value now lock_state (auth state) = update_auth lock_state state

abbrev pub update_values : ℕ → LockState → List StateValue → Watcher × Changes → Watcher × Changes
update_values now lock_state [] staged = staged
update_values now lock_state (v ∷ vs) staged =
    update_values now lock_state vs (update_value now lock_state v staged)

-- `_update_any_state`
unfoldable pub update_any_state : ℕ → List StateValue → Watcher → Watcher
update_any_state now states w =
    let lock_state = get_current_state w in
    apply_changes lock_state (update_values now lock_state states (w, no_changes))

-- What `_update_any_state` ends with.
unfoldable pub update_result : ℕ → List StateValue → Result (Unit {0}) → Watcher → Result (Unit {0})
unfolding apply_result
update_result now states called w =
    apply_result called (update_values now (get_current_state w) states (w, no_changes)).1
