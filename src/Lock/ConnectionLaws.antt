-- ===== src/Lock/ConnectionLaws.antt =====
-- In which order a connection is opened and closed, and how each can end.
use yalexs_ble.Prelude.{
  ◌≡◌, ap, ◌∙◌, map, [], ◌∷◌, ◌++◌, any-append, Bool, true, false, not, ◌&&◌, ◌||◌, some, List, any,
  is_some, arith,
}
use yalexs_ble.Errors.{Result, ok, err}
use yalexs_ble.Session.Notifications.{Starting, is_value_error}
use yalexs_ble.Session.NotificationLaws.{start_notify-starts}
use yalexs_ble.Lock.Connection.{
  start_session, shook_hands, cleared_cache, started_secure_notify, LockObject, Action,
  started_notify, sent_shutdown, closed_client, Connecting, Done, handle_missing_characteristic,
  handshake_failed, open_sessions, connect, Disconnecting, send_shutdown, shutdown_connection,
  disconnect, is_connected,
}

abbrev succeeded : Result (Unit {0}) → Bool
succeeded (ok _) = true
succeeded (err _) = false

-- Whether a `start_notify` returns: the client is down, or the start succeeds, or it ends with
-- ValueError and the client is then down or the second start succeeds.
abbrev pub can_start : Starting → Bool
can_start c = not c.connected || elim c.started [
  | ok _ ↦ true
  | err e ↦ is_value_error e && (not c.connected_again || succeeded c.restarted)
]

-- Whether every step of a connect up to the handshake succeeds.
abbrev pub shakes_hands : Connecting → Bool
shakes_hands c =
    succeeded c.established
    && (not (is_some c.missing_characteristic)
        && (can_start c.secure_notify && succeeded c.handshake))

abbrev is_notify : Action → Bool
is_notify started_notify = true
is_notify _ = false

abbrev is_shutdown : Action → Bool
is_shutdown sent_shutdown = true
is_shutdown _ = false

abbrev is_close : Action → Bool
is_close closed_client = true
is_close _ = false

-- What a connect leaves.
abbrev pub Opened : Connecting → LockObject → Done → Type 0
Opened c l end =
    (any is_notify end.actions ≡ (shakes_hands c && c.notify.connected))
    × (succeeded end.result ≡ (shakes_hands c && can_start c.notify))
    × ((succeeded end.result && is_connected end.object)
        ≡ (shakes_hands c && (can_start c.notify && not (l.disconnected || c.dropped))))

start_session-can_start :
    (c : Starting) (action : Action)
    → (succeeded (start_session c action).1 ≡ can_start c)
      × (any is_notify (start_session c action).0 ≡ (is_notify action && c.connected))
start_session-can_start c action =
    let e = start_notify-starts c in
    (
      ap (λ r. succeeded r.1.0) e ∙ ground arith,
      ap (λ r. any is_notify (map (λ q. action) r.0)) e ∙ ground arith,
    )

-- The client is asked to start the plain notifications exactly if the link was established, no
-- characteristic is missing, the secure notifications and the handshake succeeded and the client is
-- still connected. A connect returns exactly if all those succeeded and the plain notifications
-- start or find the client down; and a lock that it returned on is connected unless the link
-- dropped meanwhile or the object was marked as disconnected before, which a connect never resets.
pub connect-Opened : (c : Connecting) (l : LockObject) → Opened c l (connect c l)
unfolding connect open_sessions handshake_failed handle_missing_characteristic is_connected
connect-Opened c l =
    let secure = (start_session c.secure_notify started_secure_notify).0 in
    let shaken = secure ++ shook_hands ∷ [] in
    ground (
      arith,
      any-append is_notify secure (shook_hands ∷ []),
      any-append is_notify shaken (cleared_cache ∷ []),
      any-append is_notify shaken (start_session c.notify started_notify).0,
      start_session-can_start c.secure_notify started_secure_notify,
      start_session-can_start c.notify started_notify,
    )

-- What a disconnect of a connected client does.
abbrev pub Closed : Disconnecting → LockObject → List Action × Result (Unit {0}) → Type 0
Closed d l (actions, result) =
    (any is_close actions ≡ true)
    × (any is_shutdown actions ≡ (
        (not l.session || succeeded d.stop_notify)
        && (l.is_secure && (l.secure_session && not (l.disconnected || l.session && d.dropped)))))

-- A disconnect of a connected client closes the client, whatever fails before; and it sends the
-- shutdown command exactly if the plain notifications could be stopped, the lock is secure with its
-- session open, and the link has not dropped.
pub disconnect-Closed :
    (d : Disconnecting) (l : LockObject) → l.client ≡ some true → Closed d l (disconnect d l)
unfolding disconnect shutdown_connection send_shutdown
disconnect-Closed d l h = ground arith
