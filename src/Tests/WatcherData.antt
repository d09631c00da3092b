-- ===== src/Tests/WatcherData.antt =====
-- A watcher whose link is up, and what a cycle of it meets.
use yalexs_ble.Prelude.{ℕ, true, false, none, some, [], codes}
use yalexs_ble.Errors.{ok}
use yalexs_ble.Const.{LockInfo}
use yalexs_ble.Push.State.{Watcher, Consumers}
use yalexs_ble.Push.PushLock.{PushLock, no_future}
use yalexs_ble.Push.Run.{Wait, World, Progress}
use yalexs_ble.Tests.Data.{jammed_watcher}

abbrev pub door_lock : LockInfo
door_lock = record {
  manufacturer = codes "Yale/August";
  model = codes "ASL-03";
  serial = codes "L1";
  firmware = codes "2";
}

-- Always connected, with nothing scheduled and no jam.
abbrev pub connected_watcher : Watcher
connected_watcher = record jammed_watcher {
  always_connected = true;
  jam = record { hold_deadline = 0; hold_timer = none; last_event_time = 0 };
  scheduler = record { deferred_update = none; earliest_update_time = 90006100 };
  force_lock_status_poll = true;
}

abbrev pub linked_lock : PushLock
linked_lock = record {
  watcher = connected_watcher;
  link = record {
    client = some true;
    disconnect_timer = none;
    keep_alive_timer = some 90020000;
    next_disconnect_delay = 5100;
    idle_disconnect_delay = 5100;
    idle_disconnect_delay_pending_update = 12500;
    last_operation_complete_time = 89995000;
    reconnect_backoff = 0;
    slow_params_set = true;
    update_in_flight = false;
    first_update = no_future;
  };
  drain = record { primed = true; pending = false; failures = 0; overruns = 0; earliest_time = 0 };
  lock_info = some door_lock;
  has_activity_callbacks = false;
  next_battery_refresh_time = 90600000;
  auth_failures = 0;
  identity = record {
    local_name = none;
    name = none;
    address = some (codes "AA:BB");
    device = some (codes "AA:BB");
  };
  advertised = record { last_adv_value = some 0; last_hk_state = none };
}

-- A consumer is registered, and can be called.
abbrev pub served : Consumers
served = record { registered = true; has_connection_info = true }

-- The lock answers at once, and nothing else is reported.
abbrev pub prompt : ℕ → Wait
prompt n = record { heard = []; at = 90010000; outcome = ok tt }

abbrev pub prompt_world : World
prompt_world = record {
  joining = record {
    connect_locked = false;
    others = λ p. p;
    free_at = 90010000;
    heard = [];
    at = 90010000;
    outcome = ok tt;
  };
  waits = prompt;
  info = door_lock;
  drained = record { yielded = []; reads = 1; outcome = ok tt };
  address = codes "AA:BB";
  consumers = λ n. served;
}

abbrev pub begun : Progress
begun = record { lock = linked_lock; now = 90010000; asked = []; delivered = [] }
