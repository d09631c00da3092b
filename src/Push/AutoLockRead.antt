-- ===== src/Push/AutoLockRead.antt =====
-- push.py: when the auto lock setting is read, and when it is left alone. Whether the setting was
-- seen this session is passed in, since the set of what was seen is the watcher's.
use yalexs_ble.Prelude.{ℕ, ◌+◌, Bool, true, false, not, ◌&&◌, ltb, leb, if◌then◌else◌}
use yalexs_ble.Push.Scheduler.{never_time}

-- `AUTO_LOCK_READ_REFRESH_INTERVAL`
abbrev pub auto_lock_read_refresh_interval : ℕ
auto_lock_read_refresh_interval = 3600000

-- `AUTO_LOCK_READ_FAILURE_BACKOFF`
abbrev pub auto_lock_read_failure_backoff : ℕ
auto_lock_read_failure_backoff = 86400000

-- `AUTO_LOCK_READ_FAILURE_THRESHOLD`
abbrev pub auto_lock_read_failure_threshold : ℕ
auto_lock_read_failure_threshold = 3

-- `AUTO_LOCK_READ_RESPONSE_TIMEOUT`
abbrev pub auto_lock_read_response_timeout : ℕ
auto_lock_read_response_timeout = 10000

pub record AutoLockRead : Type 0 where
  pub earliest_read_time : ℕ
  pub next_read_time : ℕ
  pub ack_failures : ℕ
  pub response_failures : ℕ
  pub awaiting_response : Bool
  pub response_deadline : ℕ

-- What `lock.auto_lock_status()` does: it returns, and the setting may have arrived meanwhile; or
-- it raises TimeoutError; or a bleak error.
pub data Asked : Type 0 where
  acknowledged : Bool → Asked
  timed_out bleak_failed : Asked

-- `_arm_auto_lock_read_backoff_if_exhausted`
unfoldable pub arm_backoff_if_exhausted : ℕ → AutoLockRead → Bool × AutoLockRead
arm_backoff_if_exhausted now r =
    if ltb (r.ack_failures + r.response_failures) auto_lock_read_failure_threshold
    then (false, r)
    else (
      true,
      record r {
        earliest_read_time = now + auto_lock_read_failure_backoff;
        ack_failures = 0;
        response_failures = 0;
      },
    )

-- What a cycle does about the setting: whether the lock was asked and answered, whether a
-- `READSETTING` command was sent, whether the setting now counts as seen, and the state.
pub record Cycle : Type 0 where
  pub issued : Bool
  pub sent : Bool
  pub seen : Bool
  pub state : AutoLockRead

abbrev pub skips : Bool → AutoLockRead → Cycle
skips seen r = record { issued = false; sent = false; seen = seen; state = r }

-- The value arrives on the notify path, in `_update_any_state`.
unfoldable pub value_arrived : ℕ → AutoLockRead → AutoLockRead
value_arrived now r = record r {
  ack_failures = 0;
  response_failures = 0;
  awaiting_response = false;
  earliest_read_time = never_time;
  next_read_time = now + auto_lock_read_refresh_interval;
}

-- The end of `_set_auto_lock`: a confirmed write clears the backoff and both deadlines.
unfoldable pub write_confirmed : AutoLockRead → AutoLockRead
write_confirmed r = record r {
  ack_failures = 0;
  response_failures = 0;
  awaiting_response = false;
  earliest_read_time = never_time;
  next_read_time = never_time;
}

-- What the end of the read does, once the lock's answer or its absence is known: whether the lock
-- was asked and answered. A value that arrived meanwhile leaves nothing to wait for.
unfoldable pub setting_answered : ℕ → Asked → AutoLockRead → Bool × AutoLockRead
unfolding arm_backoff_if_exhausted
setting_answered now (acknowledged true) r = (true, r)
setting_answered now (acknowledged false) r = (
  true,
  record r { awaiting_response = true; response_deadline = now + auto_lock_read_response_timeout },
)
setting_answered now timed_out r =
    (false, (arm_backoff_if_exhausted now (record r { ack_failures = r.ack_failures + 1 })).1)
setting_answered now bleak_failed r = (false, r)

-- Whether the setting is asked for, with the set of what was seen and the state before the read.
pub record Gate : Type 0 where
  pub asks : Bool
  pub seen : Bool
  pub state : AutoLockRead

abbrev pub stays_shut : Bool → AutoLockRead → Gate
stays_shut seen r = record { asks = false; seen = seen; state = r }

-- The refresh, once no earlier read is pending.
unfoldable pub refresh_gate : ℕ → Bool → Bool → AutoLockRead → Gate
refresh_gate now always_connected seen r =
    let seen' = seen && not (always_connected && ltb r.next_read_time now) in
    record { asks = not seen'; seen = seen'; state = r }

-- `_read_auto_lock_setting` up to its `try`.
unfoldable pub setting_gate : ℕ → Bool → Bool → AutoLockRead → Gate
unfolding arm_backoff_if_exhausted refresh_gate
setting_gate now always_connected seen r =
    if ltb now r.earliest_read_time
    then stays_shut seen r
    else if not r.awaiting_response
    then refresh_gate now always_connected seen r
    else if leb now r.response_deadline
    then stays_shut seen r
    else let struck = record r {
      awaiting_response = false;
      response_failures = r.response_failures + 1;
    } in
      let (exhausted, r') = arm_backoff_if_exhausted now struck in
      if exhausted then stays_shut seen r' else refresh_gate now always_connected seen r'

-- The value may arrive during the read.
abbrev pub value_heard : ℕ → Asked → AutoLockRead → AutoLockRead
value_heard now (acknowledged true) r = value_arrived now r
value_heard now _ r = r

-- Whether the setting counts as seen after the read.
abbrev pub seen_after : Asked → Bool
seen_after (acknowledged b) = b
seen_after _ = false

-- The read, with the times of its start and end taken as one.
unfoldable pub ask_setting : ℕ → Asked → AutoLockRead → Cycle
unfolding setting_answered value_arrived
ask_setting now asked r =
    let (issued, r') = setting_answered now asked (value_heard now asked r) in
    record { issued = issued; sent = true; seen = seen_after asked; state = r' }

-- `_read_auto_lock_setting`
unfoldable pub read_auto_lock_setting : ℕ → Bool → Bool → Asked → AutoLockRead → Cycle
unfolding setting_gate ask_setting
read_auto_lock_setting now always_connected seen asked r =
    let gate = setting_gate now always_connected seen r in
    if gate.asks then ask_setting now asked gate.state else skips gate.seen gate.state
