-- ===== src/Push/DisplayLaws.antt =====
-- The projection of a status onto the two lock channels.
use yalexs_ble.Prelude.{◌≡◌, ◌≢◌, refl, true, false, arith, Bool-cases, inl, inr, [], ◌∷◌}
use yalexs_ble.Const.{LockStatus, securemode, locked, unlocking, unlatching, status_in, LockState}
use yalexs_ble.Push.Display.{
  settled, position_readings, project_lock_status, securing_display, LockOperation, lock_operation,
  unlock_operation, securemode_operation, unlatch_operation, pending_display, complete,
}

-- A reported status is shown as it is on the main lock, never puts SECUREMODE on the secure lock,
-- and settles the display exactly if it is a position that the lock holds.
pub project_lock_status-settled :
    (reported : LockStatus) (state : LockState)
    → ((project_lock_status reported state).lock ≡ reported)
      × ((project_lock_status reported state).secure ≢ securemode)
      × (settled (project_lock_status reported state) ≡ status_in reported position_readings)
unfolding project_lock_status settled
project_lock_status-settled unlocking state =
    elim (Bool-cases (status_in state.secure (locked ∷ unlocking ∷ []))) [
      | inl moving ↦ rw (moving) (refl, λ e. cc, refl)
      | inr still ↦ rw (still) (refl, λ e. cc, refl)
    ]
project_lock_status-settled unlatching state =
    elim (Bool-cases (status_in state.secure (locked ∷ unlocking ∷ []))) [
      | inl moving ↦ rw (moving) (refl, λ e. cc, refl)
      | inr still ↦ rw (still) (refl, λ e. cc, refl)
    ]
project_lock_status-settled reported state = (refl, λ e. cc, refl)

-- While an operation runs neither of the two displays it makes first is settled, none puts
-- SECUREMODE on the secure lock, and the status it completes with settles the display.
pub pending_display-complete :
    (operation : LockOperation) (state state' : LockState)
    → (settled (pending_display operation state) ≡ false)
      × ((pending_display operation state).secure ≢ securemode)
      × (settled (project_lock_status (complete operation) state') ≡ true)
unfolding pending_display project_lock_status settled securing_display
pending_display-complete lock_operation state state' = (refl, λ e. cc, refl)
pending_display-complete unlock_operation state state' =
    (refl, (project_lock_status-settled unlocking state).1, refl)
pending_display-complete unlatch_operation state state' =
    (refl, (project_lock_status-settled unlatching state).1, refl)
pending_display-complete securemode_operation state state' =
    elim (Bool-cases (status_in state.lock (locked ∷ securemode ∷ []))) [
      | inl secured ↦ rw (secured) (ground arith, λ e. cc, refl)
      | inr elsewhere ↦ rw (elsewhere) (refl, λ e. cc, refl)
    ]
