-- ===== src/Tests/Data.antt =====
-- Frames, a session and a watcher that the runs share.
use yalexs_ble.Prelude.{ℕ, suc, true, false, none, some, List, [], ◌∷◌}
use yalexs_ble.Const.{LockStatus, LockState, DoorStatus, jammed, locked}
use yalexs_ble.Session.State.{Session, fresh_progress}
use yalexs_ble.Session.Write.{Attempt}
use yalexs_ble.Session.Operation.{Staging}
use yalexs_ble.Push.State.{Watcher}
use yalexs_ble.Push.AutoLockRead.{AutoLockRead}

-- A poll's answer: the lock is locked.
abbrev pub status_frame : List ℕ
status_frame = 0xBB ∷ 0x02 ∷ 0 ∷ 60 ∷ 0x02 ∷ 0 ∷ 0 ∷ 0 ∷ 5 ∷ 0 ∷ 0 ∷ 0 ∷ 0 ∷ 0 ∷ 0 ∷ 0 ∷ 0 ∷ 0 ∷ []

abbrev pub ack_frame : List ℕ
ack_frame = 0xAA ∷ 0x0B ∷ 0 ∷ 75 ∷ 0 ∷ 0 ∷ 0 ∷ 0 ∷ 0 ∷ 0 ∷ 0 ∷ 0 ∷ 0 ∷ 0 ∷ 0 ∷ 0 ∷ 0 ∷ 0 ∷ []

abbrev pub result_frame : List ℕ
result_frame = 0xBB ∷ 0x0B ∷ 0 ∷ 58 ∷ 0 ∷ 0 ∷ 0 ∷ 0 ∷ 0 ∷ 0 ∷ 0 ∷ 0 ∷ 0 ∷ 0 ∷ 0 ∷ 0 ∷ 0 ∷ 0 ∷ []

-- A cipher that counts its blocks and changes none.
abbrev pub counting_cipher : ℕ → List ℕ → List ℕ × ℕ
counting_cipher c block = (block, suc c)

abbrev pub idle_session : Session ℕ
idle_session = record {
  cipher_decrypt = some 0;
  notify_future = none;
  notify_matcher = none;
  ack_future = none;
  ack_matcher = none;
  staged = false;
  progress = fresh_progress;
  has_result_callback = false;
  has_state_callback = true;
  futures = [];
  last_callback_time = 0;
}

-- Every attempt hears the poll's answer.
abbrev pub answering : ℕ → Attempt
answering n = record { write_error = none; heard = (7, status_frame) ∷ []; interrupted = none }

abbrev pub operating : Staging
operating = record {
  during_write = [];
  write_error = none;
  during_ack = (7, ack_frame) ∷ [];
  ack_interrupted = none;
  during_result = (9, result_frame) ∷ [];
  result_interrupted = none;
}

abbrev pub jammed_state : LockState
jammed_state = record {
  lock = jammed;
  door = DoorStatus.closed;
  battery = none;
  auth = none;
  auto_lock = none;
  auto_lock_prev = none;
  secure = jammed;
}

-- No read of the setting failed so far.
abbrev pub quiet_read : AutoLockRead
quiet_read = record {
  earliest_read_time = 0;
  next_read_time = 0;
  ack_failures = 0;
  response_failures = 0;
  awaiting_response = false;
  response_deadline = 0;
}

-- A running watcher that shows a jam held until 90030000.
abbrev pub jammed_watcher : Watcher
jammed_watcher = record {
  running = true;
  always_connected = false;
  lock_state = some jammed_state;
  seen = record { lock = true; door = true; battery = true; auth = true; auto_lock = true };
  jam = record { hold_deadline = 90030000; hold_timer = some 90030000; last_event_time = 90000000 };
  operation = record {
    outcome = none;
    window_open = false;
    in_flight = false;
    issued_at = 0;
    answered = false;
    failure = none;
  };
  scheduler = record { deferred_update = some 90000500; earliest_update_time = 90006100 };
  auto_lock_read = quiet_read;
  earliest_battery_attempt_time = 0;
  force_lock_status_poll = false;
  activity_drain_pending = false;
  published = jammed_state ∷ [];
}

-- The same watcher showing a locked lock, no jam reported since the clock's zero, with a command
-- running.
abbrev pub locked_watcher : Watcher
locked_watcher = record jammed_watcher {
  lock_state = some (record jammed_state { lock = locked; secure = LockStatus.unlocked });
  jam = record { hold_deadline = 0; hold_timer = none; last_event_time = 0 };
  operation = record jammed_watcher.operation { in_flight = true; issued_at = 90000000 };
}
