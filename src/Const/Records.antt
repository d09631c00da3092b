-- ===== src/Const/Records.antt =====
-- The dataclasses of const.py. A voltage is the whole number of millivolts on the wire, which
-- Python divides by 1000; a timestamp is the number of seconds that `datetime.fromtimestamp` reads.
use yalexs_ble.Prelude.{ℕ, Bool, Option, Text}
use yalexs_ble.Const.Names.{
  AutoLockMode, LockStatus, DoorStatus, LockOperationSource, LockOperationRemoteType,
}

pub record BatteryState : Type 0 where
  pub voltage : ℕ  -- millivolts
  pub percentage : ℕ

pub record AutoLockState : Type 0 where
  pub mode : AutoLockMode
  pub duration : ℕ

pub record AuthState : Type 0 where
  pub successful : Bool

pub record LockState : Type 0 where
  pub lock : LockStatus
  pub door : DoorStatus
  pub battery : Option BatteryState
  pub auth : Option AuthState
  pub auto_lock : Option AutoLockState
  pub auto_lock_prev : Option AutoLockState
  pub secure : LockStatus

-- `LockStateValue | AuthState`: what a state callback may deliver.
pub data StateValue : Type 0 where
  lock_status : LockStatus → StateValue
  door_status : DoorStatus → StateValue
  battery : BatteryState → StateValue
  auto_lock : AutoLockState → StateValue
  auth : AuthState → StateValue

pub record LockActivity : Type 0 where
  pub timestamp : ℕ
  pub status : LockStatus
  pub source : LockOperationSource
  pub remote_type : Option LockOperationRemoteType
  pub slot : Option ℕ

pub record DoorActivity : Type 0 where
  pub timestamp : ℕ
  pub status : DoorStatus

-- `DoorActivity | LockActivity`
pub data Activity : Type 0 where
  door_activity : DoorActivity → Activity
  lock_activity : LockActivity → Activity

pub record LockInfo : Type 0 where
  pub manufacturer : Text
  pub model : Text
  pub serial : Text
  pub firmware : Text
