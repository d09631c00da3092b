-- ===== src/Push/Display.antt =====
-- push.py: `_Display`, `_project_lock_status`, `_securing_display` and the operations' displays.
use yalexs_ble.Prelude.{Bool, ◌&&◌, List, [], ◌∷◌, ◌++◌, if◌then◌else◌}
use yalexs_ble.Const.{
  LockStatus, unlocking, unlocked, locking, locked, unlatching, unlatched, securemode, status_in,
  manual_intervention_statuses, LockState,
}

-- `POSITION_READINGS`
abbrev pub position_readings : List LockStatus
position_readings = manual_intervention_statuses ++ locked ∷ unlocked ∷ unlatched ∷ securemode ∷ []

-- `TRANSITIONAL_READINGS`
abbrev pub transitional_readings : List LockStatus
transitional_readings = locking ∷ unlocking ∷ unlatching ∷ []

-- `_SECURE_FOR_STATUS.get(status, status)`
abbrev pub secure_for_status : LockStatus → LockStatus
secure_for_status securemode = locked
secure_for_status locking = unlocked
secure_for_status locked = unlocked
secure_for_status unlocked = unlocked
secure_for_status unlatched = unlocked
secure_for_status status = status

-- `_Display`
pub record Display : Type 0 where
  pub lock : LockStatus
  pub secure : LockStatus

-- `_Display.settled`
unfoldable pub settled : Display → Bool
settled display =
    status_in display.lock position_readings && status_in display.secure position_readings

-- `_project_lock_status`
unfoldable pub project_lock_status : LockStatus → LockState → Display
project_lock_status reported state =
    if status_in reported (unlocking ∷ unlatching ∷ [])
    then record {
      lock = reported;
      secure = (if status_in state.secure (locked ∷ unlocking ∷ []) then unlocking else unlocked);
    }
    else record { lock = reported; secure = secure_for_status reported }

-- `_securing_display`
unfoldable pub securing_display : LockState → Display
securing_display state =
    if status_in state.lock (locked ∷ securemode ∷ [])
    then record { lock = state.lock; secure = locking }
    else record { lock = locking; secure = locking }

-- `_LOCK_OPERATION`, `_UNLOCK_OPERATION`, `_SECUREMODE_OPERATION` and `_UNLATCH_OPERATION`
pub data LockOperation : Type 0 where
  lock_operation unlock_operation securemode_operation unlatch_operation : LockOperation

unfoldable pub pending_display : LockOperation → LockState → Display
unfolding project_lock_status securing_display
pending_display lock_operation state = project_lock_status locking state
pending_display unlock_operation state = project_lock_status unlocking state
pending_display securemode_operation state = securing_display state
pending_display unlatch_operation state = project_lock_status unlatching state

abbrev pub complete : LockOperation → LockStatus
complete lock_operation = locked
complete unlock_operation = unlocked
complete securemode_operation = securemode
complete unlatch_operation = unlatched
