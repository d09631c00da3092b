-- ===== src/Const/Values.antt =====
-- The value tables of const.py invert the wire values of their enumerations.
use yalexs_ble.Prelude.{ℕ, ◌≡◌, refl, ◌↔◌, some, subst, arith}
use yalexs_ble.Const.Names.{
  OperationError, operation_error_value, value_to_operation_error, LockStatus, lock_status_value,
  value_to_lock_status, DoorStatus, door_status_value, value_to_door_status,
}

lock_status_of_value : (s : LockStatus) → value_to_lock_status (lock_status_value s) ≡ some s
unfolding value_to_lock_status
lock_status_of_value LockStatus.locked = refl
lock_status_of_value _ = refl

value_of_lock_status :
    (n : ℕ) (s : LockStatus) → value_to_lock_status n ≡ some s → lock_status_value s ≡ n
unfolding value_to_lock_status
value_of_lock_status n s h = ground arith

door_status_of_value : (s : DoorStatus) → value_to_door_status (door_status_value s) ≡ some s
unfolding value_to_door_status
door_status_of_value DoorStatus.closed = refl
door_status_of_value _ = refl

value_of_door_status :
    (n : ℕ) (s : DoorStatus) → value_to_door_status n ≡ some s → door_status_value s ≡ n
unfolding value_to_door_status
value_of_door_status n s h = ground arith

operation_error_of_value :
    (e : OperationError) → value_to_operation_error (operation_error_value e) ≡ some e
unfolding value_to_operation_error
operation_error_of_value OperationError.busy = refl
operation_error_of_value _ = refl

value_of_operation_error :
    (n : ℕ) (e : OperationError) → value_to_operation_error n ≡ some e → operation_error_value e ≡ n
unfolding value_to_operation_error
value_of_operation_error n e h = ground arith

-- A wire byte is looked up as a lock status, door status or operation error exactly when it is
-- the value of that member, for each of the three tables.
pub value_tables_invert :
    (n : ℕ) (s : LockStatus) (d : DoorStatus) (e : OperationError)
    → ((value_to_lock_status n ≡ some s) ↔ (lock_status_value s ≡ n))
      × ((value_to_door_status n ≡ some d) ↔ (door_status_value d ≡ n))
      × ((value_to_operation_error n ≡ some e) ↔ (operation_error_value e ≡ n))
value_tables_invert n s d e = (
  (
    value_of_lock_status n s,
    λ h. subst (λ v. value_to_lock_status v ≡ some s) h (lock_status_of_value s),
  ),
  (
    value_of_door_status n d,
    λ h. subst (λ v. value_to_door_status v ≡ some d) h (door_status_of_value d),
  ),
  (
    value_of_operation_error n e,
    λ h. subst (λ v. value_to_operation_error v ≡ some e) h (operation_error_of_value e),
  ),
)
