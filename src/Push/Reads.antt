-- ===== src/Push/Reads.antt =====
-- push.py: the reads of a cycle, `_probe_lock_info`, `_poll_battery`, the door's,
-- `_read_auto_lock_setting` and the position's.
use yalexs_ble.Prelude.{
  ℕ, ◌+◌, [], ◌∷◌, Bool, true, false, not, ◌&&◌, ◌||◌, Option, none, some, ltb, is_some,
  if◌then◌else◌, Text, codes,
}
use yalexs_ble.Errors.{Error, timeout_error, assertion_error, is_bleak_error, Result, ok, err}
use yalexs_ble.Const.{auth, LockInfo, door_sense, battery_reporting}
use yalexs_ble.Push.Update.{battery_timeout_cooldown, update_result}
use yalexs_ble.Push.AutoLockRead.{
  Asked, acknowledged, timed_out, bleak_failed, setting_gate, setting_answered,
}
use yalexs_ble.Push.ActivityDrain.{activity_drain_due}
use yalexs_ble.Push.PushLock.{PushLock}
use yalexs_ble.Push.Connect.{record_auth_success}
use yalexs_ble.Push.Run.{
  Ask, lock_info, battery, door_status, auto_lock_status, lock_status, World, Progress, Run, ◌>>=◌,
  ◌>>◌, return, modify, ask, called,
}

-- `BATTERY_REFRESH_INTERVAL`
abbrev pub battery_refresh_interval : ℕ
battery_refresh_interval = 600000

-- The defaults of `_probe_lock_info`.
abbrev pub default_info : Text → LockInfo
default_info address = record {
  manufacturer = codes "Unknown";
  model = codes "";
  serial = address;
  firmware = codes "Unknown";
}

abbrev pub set_info : LockInfo → PushLock → PushLock
set_info info p = record p { lock_info = some info }

abbrev pub is_missing_answer : Error → Bool
is_missing_answer timeout_error = true
is_missing_answer e = is_bleak_error e

-- The handler of `_probe_lock_info`, and the assignment.
unfoldable pub info_probed : World → Result (Unit {0}) → Run (Unit {0})
info_probed world (ok _) s = (ok tt, record s { lock = set_info world.info s.lock })
info_probed world (err e) s =
    if is_missing_answer e
    then (ok tt, record s { lock = set_info (default_info world.address) s.lock })
    else (err e, s)

-- `if not self._lock_info: self._lock_info = await self._probe_lock_info(lock)`
unfoldable pub learn_info : World → Run (Unit {0})
unfolding info_probed ask
learn_info world s =
    if is_some s.lock.lock_info
    then (ok tt, s)
    else info_probed world (ask world lock_info s).0 (ask world lock_info s).1

-- The eviction of a battery reading past its refresh time.
unfoldable pub evict_battery : ℕ → PushLock → PushLock
evict_battery now p =
    if p.watcher.always_connected && (p.watcher.seen.battery && ltb p.next_battery_refresh_time now)
    then record p {
      watcher = record p.watcher { seen = record p.watcher.seen { battery = false } };
    }
    else p

-- `_record_auth_success`, with what the consumers' call raises.
unfoldable pub record_auth : World → Run (Unit {0})
unfolding record_auth_success update_result
record_auth world s = (
  update_result s.now (auth (record { successful = true }) ∷ []) (called world s) s.lock.watcher,
  record s { lock = record_auth_success s.now s.lock },
)

-- The `try` of `_poll_battery`, begun at `start`, on how the read ended.
unfoldable pub battery_answered : World → ℕ → Result (Unit {0}) → Run Bool
unfolding record_auth
battery_answered world start (ok _) s =
    (do
      record_auth world
      modify (λ now p. record p { next_battery_refresh_time = start + battery_refresh_interval })
      return true)
      s
battery_answered world start (err timeout_error) s = (
  ok true,
  record s {
    lock = record s.lock {
      watcher = record s.lock.watcher {
        earliest_battery_attempt_time = start + battery_timeout_cooldown;
      };
    };
  },
)
battery_answered world start (err e) s = if is_bleak_error e then (ok true, s) else (err e, s)

-- The read itself.
unfoldable pub ask_battery : World → Run Bool
unfolding battery_answered ask
ask_battery world s = battery_answered world s.now (ask world battery s).0 (ask world battery s).1

-- `_poll_battery`, past its test of the model.
unfoldable pub poll_reporting_battery : World → Bool → Run Bool
unfolding ask_battery evict_battery
poll_reporting_battery world force s =
    if ltb s.now s.lock.watcher.earliest_battery_attempt_time
    then (ok false, s)
    else let evicted : Progress = record s { lock = evict_battery s.now s.lock } in
      if not force && evicted.lock.watcher.seen.battery
      then (ok false, evicted)
      else ask_battery world evicted

-- `_poll_battery`
unfoldable pub poll_battery : World → Bool → Run Bool
unfolding poll_reporting_battery
poll_battery world force s = elim s.lock.lock_info [
  | none ↦ (err assertion_error, s)
  | some info ↦
      if battery_reporting info then poll_reporting_battery world force s else (ok false, s)
]

abbrev pub senses_door : Option LockInfo → Bool
senses_door none = false
senses_door (some info) = door_sense info

-- A read whose answer counts as a success of the key.
abbrev pub ask_and_record : World → Ask → Run Bool
ask_and_record world request = do ask world request; record_auth world; return true

-- The read of the door.
unfoldable pub poll_door : World → Bool → Run Bool
unfolding ask
poll_door world made s =
    if not s.lock.watcher.seen.door && senses_door s.lock.lock_info
    then ask_and_record world door_status s
    else (ok made, s)

-- How the read of the setting ended, for the part of `_read_auto_lock_setting` after it. An
-- exception that it does not handle is raised.
abbrev pub asked_of : Result (Unit {0}) → Bool → Result Asked
asked_of (ok _) seen = ok (acknowledged seen)
asked_of (err timeout_error) seen = ok timed_out
asked_of (err e) seen = if is_bleak_error e then ok bleak_failed else err e

-- The end of the read begun at `start`; an answered one records the success of the key.
unfoldable pub setting_read : World → ℕ → Result Asked → Bool → Run Bool
setting_read world start (err e) made s = (err e, s)
setting_read world start (ok asked) made s =
    let (issued, r) = setting_answered start asked s.lock.watcher.auto_lock_read in
    let read : PushLock = record s.lock {
      watcher = record s.lock.watcher { auto_lock_read = r };
    } in
    if issued
    then (do record_auth world; return true) (record s { lock = read })
    else (ok made, record s { lock = read })

-- The read itself.
unfoldable pub ask_setting : World → Bool → Run Bool
unfolding setting_read ask
ask_setting world made s =
    let (outcome, after) = ask world auto_lock_status s in
    setting_read world s.now (asked_of outcome after.lock.watcher.seen.auto_lock) made after

-- `_read_auto_lock_setting` and what the cycle makes of it.
unfoldable pub poll_setting : World → Bool → Run Bool
unfolding ask_setting
poll_setting world made s =
    let w = s.lock.watcher in
    let gate = setting_gate s.now w.always_connected w.seen.auto_lock w.auto_lock_read in
    let gated : Progress = record s {
      lock = record s.lock {
        watcher = record w {
          seen = record w.seen { auto_lock = gate.seen };
          auto_lock_read = gate.state;
        };
      };
    } in
    if gate.asks then ask_setting world made gated else (ok made, gated)

-- `_activity_drain_due`
abbrev pub drain_due : ℕ → PushLock → Bool
drain_due now p =
    activity_drain_due now p.has_activity_callbacks
      (record p.drain { pending = p.watcher.activity_drain_pending })

-- The test for the read of the position.
unfoldable pub wants_status : ℕ → Bool → PushLock → Bool
wants_status now made p =
    p.watcher.force_lock_status_poll
    || (not p.watcher.seen.lock
        || (not made && (p.watcher.always_connected && not (drain_due now p))))

abbrev pub clear_force : PushLock → PushLock
clear_force p = record p { watcher = record p.watcher { force_lock_status_poll = false } }

-- The read of the position.
unfoldable pub poll_status : World → Bool → Run Bool
unfolding ask wants_status
poll_status world made s =
    if wants_status s.now made s.lock
    then (do ask world lock_status; modify (λ now. clear_force); record_auth world; return true) s
    else (ok made, s)

-- The reads, in their order.
unfoldable pub make_reads : World → Run Bool
unfolding poll_battery poll_door poll_setting poll_status
make_reads world = do
  asked ← poll_battery world false
  asked' ← poll_door world asked
  asked'' ← poll_setting world asked'
  poll_status world asked''
