-- ===== src/Push/State.antt =====
-- push.py: the state of a watcher that its display depends on. `published` is the states handed to
-- `_callback_state`, newest first; what its asserts raise is `callback_result`. An exception of a
-- consumer is caught there.
use yalexs_ble.Prelude.{
  ℕ, Bool, not, ◌&&◌, is_some, if◌then◌else◌, Option, none, some, List, ◌∷◌, or_default,
}
use yalexs_ble.Errors.{Error, assertion_error, Result, ok, raise_if}
use yalexs_ble.Const.{LockStatus, DoorStatus, LockState, LockInfo}
use yalexs_ble.Push.Scheduler.{Scheduler}
use yalexs_ble.Push.AutoLockRead.{AutoLockRead}

-- `_seen_this_session`: a set of types, by member.
pub record Seen : Type 0 where
  pub lock : Bool
  pub door : Bool
  pub battery : Bool
  pub auth : Bool
  pub auto_lock : Bool

-- `_init_jam_state`
pub record Jam : Type 0 where
  pub hold_deadline : ℕ
  pub hold_timer : Option ℕ
  pub last_event_time : ℕ

-- `_init_operation_state`
pub record OperationState : Type 0 where
  pub outcome : Option LockStatus
  pub window_open : Bool
  pub in_flight : Bool
  pub issued_at : ℕ
  pub answered : Bool
  pub failure : Option Error

pub record Watcher : Type 0 where
  pub running : Bool
  pub always_connected : Bool
  pub lock_state : Option LockState
  pub seen : Seen
  pub jam : Jam
  pub operation : OperationState
  pub scheduler : Scheduler
  pub auto_lock_read : AutoLockRead
  pub earliest_battery_attempt_time : ℕ
  pub force_lock_status_poll : Bool
  pub activity_drain_pending : Bool
  pub published : List LockState

-- What the properties return before the first state.
abbrev pub unknown_state : LockState
unknown_state = record {
  lock = LockStatus.unknown;
  door = DoorStatus.unknown;
  battery = none;
  auth = none;
  auto_lock = none;
  auto_lock_prev = none;
  secure = LockStatus.unknown;
}

-- `_get_current_state`
unfoldable pub get_current_state : Watcher → LockState
get_current_state w = or_default w.lock_state unknown_state

-- The property `lock_status`.
abbrev pub displayed_status : Watcher → LockStatus
displayed_status w = (or_default w.lock_state unknown_state).lock

-- What the asserts of `_callback_state` test: whether a consumer is registered, and whether there is
-- a `connection_info`.
pub record Consumers : Type 0 where
  pub registered : Bool
  pub has_connection_info : Bool

-- What `_callback_state` ends with, given the lock's info; the state is set before it can raise.
unfoldable pub callback_result : Consumers → Option LockInfo → Result (Unit {0})
callback_result c info =
    if not c.registered
    then ok tt
    else raise_if (not (is_some info && c.has_connection_info)) assertion_error

-- `_callback_state`, what it does to the watcher.
unfoldable pub callback_state : LockState → Watcher → Watcher
callback_state state w = record w { lock_state = some state; published = state ∷ w.published }

-- `self._seen_this_session.add(LockStatus)` and `discard(LockStatus)`
abbrev pub mark_lock_seen : Bool → Watcher → Watcher
mark_lock_seen b w = record w { seen = record w.seen { lock = b } }
