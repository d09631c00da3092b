-- ===== src/Session/Notifications.antt =====
-- session.py: `start_notify`, `_start_notify` and `stop_notify`. What bleak does, and whether the
-- client is connected at each test of it, is an argument; what is asked of bleak is a list, in order.
use yalexs_ble.Prelude.{
  Bool, true, false, not, ◌&&◌, ◌||◌, List, [], ◌∷◌, ◌++◌, codes, occurs_in, if◌then◌else◌,
}
use yalexs_ble.Errors.{Error, value_error, eof_error, auth_error, is_bleak_error, Result, ok, err}
use yalexs_ble.Util.ErrorTests.{bleak_message}

-- `client.start_notify` and `client.stop_notify`
pub data Request : Type 0 where
  start stop : Request

-- The first start, the stop of the workaround and the start after it: the ends of each, and whether
-- the client is connected before each.
pub record Starting : Type 0 where
  pub connected : Bool
  pub started : Result (Unit {0})
  pub connected_to_stop : Bool
  pub stopped : Result (Unit {0})
  pub connected_again : Bool
  pub restarted : Result (Unit {0})

-- The exceptions that `stop_notify` contains.
abbrev pub stop_result : Result (Unit {0}) → Result (Unit {0})
stop_result (ok _) = ok tt
stop_result (err eof_error) = ok tt
stop_result (err e) = if is_bleak_error e then ok tt else err e

-- `stop_notify`, on `_notifications_started`, which it leaves as it is.
unfoldable pub stop_notify : Bool → Bool → Result (Unit {0}) → List Request × Result (Unit {0})
stop_notify is_connected notifications_started stopped =
    if not is_connected || not notifications_started
    then ([], ok tt)
    else (stop ∷ [], stop_result stopped)

abbrev pub is_value_error : Error → Bool
is_value_error value_error = true
is_value_error _ = false

-- The handler of `_start_notify`.
unfoldable pub restart_notify : Starting → Bool → List Request × Result (Unit {0})
unfolding stop_notify
restart_notify c notifications_started =
    let (asked, result) = stop_notify c.connected_to_stop notifications_started c.stopped in
    elim result [
      | err e ↦ (start ∷ asked, err e)
      | ok _ ↦
          if not c.connected_again
          then (start ∷ asked, ok tt)
          else (start ∷ (asked ++ start ∷ []), c.restarted)
    ]

-- `_start_notify`
unfoldable pub start_on_client : Starting → Bool → List Request × Result (Unit {0})
unfolding restart_notify
start_on_client c notifications_started = if not c.connected then ([], ok tt) else elim c.started [
  | ok _ ↦ (start ∷ [], ok tt)
  | err e ↦ if is_value_error e then restart_notify c notifications_started else (start ∷ [], err e)
]

-- The handler of `start_notify`.
abbrev pub start_error : Error → Error
start_error e =
    if is_bleak_error e && occurs_in (codes "not found") (bleak_message e) then auth_error else e

abbrev pub start_result : Result (Unit {0}) → Result (Unit {0})
start_result (ok _) = ok tt
start_result (err e) = err (start_error e)

abbrev pub has_started : Result (Unit {0}) → Bool
has_started (ok _) = true
has_started (err e) = false

-- `start_notify`: what was asked, the result and `_notifications_started` after it.
unfoldable pub start_notify : Starting → Bool → List Request × (Result (Unit {0}) × Bool)
unfolding start_on_client
start_notify c true = ([], (ok tt, true))
start_notify c false =
    let (asked, result) = start_on_client c false in
    (asked, (start_result result, has_started result))
