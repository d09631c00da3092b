-- ===== src/Push/Connect.antt =====
-- push.py: `_ensure_connected`, `_record_auth_success` and `_set_slow_connection_params`.
use yalexs_ble.Prelude.{ℕ, Bool, true, false, Option, some, List, [], ◌∷◌, if◌then◌else◌}
use yalexs_ble.Errors.{Result, ok, err}
use yalexs_ble.Const.{auth}
use yalexs_ble.Push.Update.{update_any_state}
use yalexs_ble.Push.State.{Seen}
use yalexs_ble.Push.PushLock.{
  no_future, pending, resolved, PushLock, is_connected, reset_disconnect_timer,
}
use yalexs_ble.Push.Events.{Event, handle_events}

-- What `_ensure_connected` meets: whether the connect lock is held, and then what its holder does to
-- the watcher and when it lets go; what is reported during the connect, how it ends, and when the
-- call returns. The disconnect after a failed connect is not told apart: what it raises is logged.
pub record Joining : Type 0 where
  pub connect_locked : Bool
  pub others : PushLock → PushLock
  pub free_at : ℕ
  pub heard : List Event
  pub at : ℕ
  pub outcome : Result (Unit {0})

-- `max_attempts`, with MAX_CONNECT_ATTEMPTS of bleak_retry_connector.
unfoldable pub connect_attempts : ℕ → PushLock → ℕ
connect_attempts max_connect_attempts p = elim p.link.first_update [
  | no_future ↦ max_connect_attempts
  | pending ↦ 1
  | resolved _ ↦ 1
]

abbrev pub nothing_seen : Seen
nothing_seen = record {
  lock = false;
  door = false;
  battery = false;
  auth = false;
  auto_lock = false;
}

abbrev pub set_client : Option Bool → PushLock → PushLock
set_client client p = record p { link = record p.link { client = client } }

-- The end of a connect that succeeded.
unfoldable pub session_opened : ℕ → PushLock → PushLock
unfolding reset_disconnect_timer
session_opened now p =
    let timed = reset_disconnect_timer now (record p {
      link = record p.link { next_disconnect_delay = p.link.idle_disconnect_delay };
    }) in
    record timed {
      link = record timed.link { slow_params_set = false };
      watcher = record timed.watcher { seen = nothing_seen };
    }

-- A new `Lock` is made and connected.
unfoldable pub open_session : Joining → PushLock → Result (Unit {0}) × PushLock
unfolding session_opened
open_session j p = elim j.outcome [
  | err e ↦ (err e, set_client (some false) (handle_events j.heard (set_client (some false) p)))
  | ok _ ↦ (ok tt, session_opened j.at (handle_events j.heard (set_client (some true) p)))
]

-- Once the connect lock is held.
unfoldable pub join_session : ℕ → Joining → PushLock → Result (Unit {0}) × PushLock
unfolding open_session
join_session now j p =
    if is_connected p then (ok tt, reset_disconnect_timer now p) else open_session j p

-- `_ensure_connected`
unfoldable pub ensure_connected : ℕ → Joining → PushLock → Result (Unit {0}) × PushLock
unfolding reset_disconnect_timer join_session
ensure_connected now j p =
    let noted = if j.connect_locked then reset_disconnect_timer now p else p in
    if is_connected noted
    then (ok tt, reset_disconnect_timer now noted)
    else if j.connect_locked
    then join_session j.free_at j (j.others noted)
    else join_session now j noted

-- `_record_auth_success`
unfoldable pub record_auth_success : ℕ → PushLock → PushLock
record_auth_success now p = record p {
  auth_failures = 0;
  watcher = update_any_state now (auth (record { successful = true }) ∷ []) p.watcher;
}
