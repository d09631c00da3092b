-- ===== src/Tests/Connections.antt =====
-- Runs of the lock's commands, of its probe and of its connection.
use yalexs_ble.Prelude.{ℕ, zero, suc, ◌≡◌, refl, true, false, none, some, [], codes, arith}
use yalexs_ble.Errors.{ok, err, timeout_error}
use yalexs_ble.Const.{LockInfo}
use yalexs_ble.Session.Notifications.{Starting, start_notify}
use yalexs_ble.Lock.Wire.{Link}
use yalexs_ble.Lock.OperationLaws.{Conditionally, to_unlocked, conditional_command-Conditionally}
use yalexs_ble.Lock.Info.{Read, text, unreadable, lock_info}
use yalexs_ble.Lock.InfoLaws.{is_handled, ReadModel, lock_info-model}
use yalexs_ble.Lock.Connection.{
  LockObject, Connecting, Disconnecting, connect, open_sessions, disconnect,
}
use yalexs_ble.Lock.ConnectionLaws.{Opened, Closed, connect-Opened, disconnect-Closed}
use yalexs_ble.Tests.Data.{status_frame, result_frame}

-- The poll's answer reports a locked lock, the motion's a success.
abbrev answering_link : Link
answering_link = record {
  answers = λ n. elim n [ zero ↦ ok status_frame | suc m ↦ ok result_frame ];
  connected = λ n. true;
}

conditional_command-Conditionally_example : Conditionally to_unlocked answering_link [] status_frame
conditional_command-Conditionally_example =
    conditional_command-Conditionally to_unlocked answering_link [] status_frame refl refl refl
      (omega arith)

-- The model is read in the second pass only.
abbrev late_model : ℕ → ℕ → Read
late_model zero place = unreadable
late_model (suc attempt) place = text (codes "ASL-03")

late_model-handled : (i j : ℕ) → is_handled (late_model i j) ≡ true
late_model-handled zero j = refl
late_model-handled (suc i) j = refl

lock_info-model_example :
    (info : LockInfo) × (lock_info true (codes "AA:BB") late_model ≡ ok info)
    × ReadModel (late_model 0 0) (late_model 1 0) info.model
lock_info-model_example = lock_info-model late_model late_model-handled (codes "AA:BB")

abbrev new_object : LockObject
new_object = record {
  client = none;
  session = false;
  secure_session = false;
  is_secure = false;
  disconnected = false;
}

abbrev starting : Starting
starting = record {
  connected = true;
  started = ok tt;
  connected_to_stop = true;
  stopped = ok tt;
  connected_again = true;
  restarted = ok tt;
}

-- Everything succeeds.
abbrev smooth : Connecting
smooth = record {
  established = ok tt;
  missing_characteristic = none;
  clear_cache = ok tt;
  secure_notify = starting;
  handshake = ok tt;
  secured = true;
  dropped = false;
  notify = starting;
}

connect-Opened_example : Opened smooth new_object (connect smooth new_object)
connect-Opened_example = connect-Opened smooth new_object

abbrev unanswered : Disconnecting
unanswered = record {
  stop_notify = ok tt;
  dropped = false;
  shutdown = err timeout_error;
  secure_stop_notify = ok tt;
  client_disconnect = ok tt;
}

connected_again : (connect smooth new_object).object.client ≡ some true
unfolding connect open_sessions start_notify
connected_again = refl

disconnect-Closed_example :
    Closed unanswered
      (connect smooth new_object).object
      (disconnect unanswered (connect smooth new_object).object)
disconnect-Closed_example =
    disconnect-Closed unanswered (connect smooth new_object).object connected_again
