-- ===== src/Lock/Connection.antt =====
-- lock.py: `connect`, `disconnect` and what they call, on the fields of a `Lock` that say whether it
-- is connected. What bleak and the two sessions do is an argument. `str.lower` is used for a search
-- for ASCII letters alone, so it is given for those.
use yalexs_ble.Prelude.{
  ℕ, ◌+◌, Bool, true, false, not, ◌&&◌, ◌||◌, Option, none, some, List, [], ◌∷◌, ◌++◌, map, leb,
  or_default, if◌then◌else◌, Text, codes, occurs_in,
}
use yalexs_ble.Errors.{
  Error, bleak_error, is_bleak_error, auth_error, disconnected_error, timeout_error, eof_error,
  yale_error, response_error, activity_log_overrun_error, no_advertisement_error, bluetooth_error,
  operation_incomplete_error, keycode_error, operation_failed_error, Result, ok, err, ◌>>◌,
}
use yalexs_ble.Util.ErrorTests.{bleak_message}
use yalexs_ble.Session.Notifications.{Starting, start_notify}

-- The client is the one that `connect` made, with its own `is_connected`.
pub record LockObject : Type 0 where
  pub client : Option Bool
  pub session : Bool
  pub secure_session : Bool
  pub is_secure : Bool
  pub disconnected : Bool

-- What the radio is made to do, in order.
pub data Action : Type 0 where
  cleared_cache started_secure_notify shook_hands started_notify : Action
  stopped_notify sent_shutdown stopped_secure_notify closed_client : Action

-- `is_connected`
unfoldable pub is_connected : LockObject → Bool
is_connected l =
    or_default l.client false && (l.session && (l.secure_session && not l.disconnected))

-- `disconnected`, the client's callback: whether each waiting future is done afterwards, from whether
-- it was before. The object holds none of them from then on, and `_disconnected_callback` of push.py
-- is called last.
unfoldable pub disconnected : List Bool → LockObject → List Bool × LockObject
disconnected futures l = (map (λ done. true) futures, record l { disconnected = true })

-- What `connect` meets: the end of `establish_connection`; the first characteristic that a session
-- does not find; the end of `clear_cache`; what the secure `start_notify` meets; the end of the
-- handshake; what the plain `start_notify` meets. `secured` is `is_secure` after the handshake, `dropped` whether the client's
-- callback came meanwhile.
pub record Connecting : Type 0 where
  pub established : Result (Unit {0})
  pub missing_characteristic : Option Text
  pub clear_cache : Result (Unit {0})
  pub secure_notify : Starting
  pub handshake : Result (Unit {0})
  pub secured : Bool
  pub dropped : Bool
  pub notify : Starting

-- A method's end: the object, what was done, and the result.
pub record Done : Type 0 where
  pub object : LockObject
  pub actions : List Action
  pub result : Result (Unit {0})

abbrev pub done : LockObject → List Action → Result (Unit {0}) → Done
done l actions result = record { object = l; actions = actions; result = result }

-- `_handle_missing_characteristic`
unfoldable pub handle_missing_characteristic :
    Text → Result (Unit {0}) → List Action → LockObject → Done
handle_missing_characteristic char_uuid cleared actions l =
    done (record l { session = false; secure_session = false }) (actions ++ cleared_cache ∷ [])
      do cleared; err (bleak_error (codes "Missing characteristic " ++ char_uuid))

-- `str.lower` on the letters A to Z.
abbrev pub lower : Text → Text
lower s = map (λ c. if leb 65 c && leb c 90 then c + 32 else c) s

-- The handler around `_setup_session`.
unfoldable pub handshake_failed : Connecting → Error → List Action → LockObject → Done
unfolding handle_missing_characteristic
handshake_failed c e actions l =
    if is_bleak_error e && occurs_in (codes "invalid handle") (lower (bleak_message e))
    then handle_missing_characteristic (lower (bleak_message e)) c.clear_cache actions l
    else done l actions (err e)

-- A new session's `start_notify`: each start that is asked of the client, and the result.
abbrev pub start_session : Starting → Action → List Action × Result (Unit {0})
start_session c action =
    let (asked, (result, started)) = start_notify c false in (map (λ r. action) asked, result)

-- From the secure `start_notify` on.
unfoldable pub open_sessions : Connecting → LockObject → Done
unfolding handshake_failed
open_sessions c l = elim (start_session c.secure_notify started_secure_notify).1 [
  | err e ↦ done l (start_session c.secure_notify started_secure_notify).0 (err e)
  | ok _ ↦
      let actions : List Action =
        (start_session c.secure_notify started_secure_notify).0 ++ shook_hands ∷ [] in
      let secured : LockObject = record l { is_secure = c.secured } in
      elim c.handshake [
        | err e ↦ handshake_failed c e actions secured
        | ok _ ↦
            done secured (actions ++ (start_session c.notify started_notify).0)
              (start_session c.notify started_notify).1
      ]
]

-- `connect`
unfoldable pub connect : Connecting → LockObject → Done
unfolding handle_missing_characteristic open_sessions
connect c l = elim c.established [
  | err e ↦ done l [] (err e)
  | ok _ ↦
      let made : LockObject = record l {
        client = some (not c.dropped);
        session = true;
        secure_session = true;
        disconnected = l.disconnected || c.dropped;
      } in
      elim c.missing_characteristic [
        | some char_uuid ↦ handle_missing_characteristic char_uuid c.clear_cache [] made
        | none ↦ open_sessions c made
      ]
]

-- `isinstance(err, YaleXSBLEError)`
abbrev pub is_yale_error : Error → Bool
is_yale_error yale_error = true
is_yale_error auth_error = true
is_yale_error response_error = true
is_yale_error activity_log_overrun_error = true
is_yale_error disconnected_error = true
is_yale_error no_advertisement_error = true
is_yale_error bluetooth_error = true
is_yale_error operation_incomplete_error = true
is_yale_error (keycode_error _) = true
is_yale_error (operation_failed_error _) = true
is_yale_error _ = false

-- The exceptions that `_shutdown_connection` returns on.
abbrev pub ends_shutdown : Error → Bool
ends_shutdown timeout_error = true
ends_shutdown eof_error = true
ends_shutdown e = is_bleak_error e || is_yale_error e

abbrev pub swallow : (Error → Bool) → Result (Unit {0}) → Result (Unit {0})
swallow expected (ok _) = ok tt
swallow expected (err e) = if expected e then ok tt else err e

-- What a disconnect meets: the ends of the plain `stop_notify`, of the shutdown command, of the secure
-- `stop_notify` and of the client's `disconnect`; `dropped` is whether the client's callback came
-- during the first.
pub record Disconnecting : Type 0 where
  pub stop_notify : Result (Unit {0})
  pub dropped : Bool
  pub shutdown : Result (List ℕ)
  pub secure_stop_notify : Result (Unit {0})
  pub client_disconnect : Result (Unit {0})

-- The end of `_shutdown_connection`, on a secure session.
unfoldable pub send_shutdown : Disconnecting → List Action → List Action × Result (Unit {0})
send_shutdown d actions = elim d.shutdown [
  | err e ↦ (actions ++ sent_shutdown ∷ [], swallow ends_shutdown (err e))
  | ok _ ↦ (
    actions ++ sent_shutdown ∷ stopped_secure_notify ∷ [],
    swallow ends_shutdown d.secure_stop_notify,
  )
]

-- `_shutdown_connection`
unfoldable pub shutdown_connection : Disconnecting → LockObject → List Action × Result (Unit {0})
unfolding send_shutdown
shutdown_connection d l =
    let actions : List Action = if l.session then stopped_notify ∷ [] else [] in
    let stopped : Result (Unit {0}) = if l.session then d.stop_notify else ok tt in
    elim stopped [
      | err e ↦ (actions, err e)
      | ok _ ↦
          if not l.is_secure || (not l.secure_session || (l.disconnected || l.session && d.dropped))
          then (actions, ok tt)
          else send_shutdown d actions
    ]

-- A `finally` that raises replaces what was raised before it.
abbrev pub finally : Result (Unit {0}) → Result (Unit {0}) → Result (Unit {0})
finally before (err e) = err e
finally before (ok _) = before

-- `disconnect`
unfoldable pub disconnect : Disconnecting → LockObject → List Action × Result (Unit {0})
unfolding shutdown_connection
disconnect d l =
    if not (or_default l.client false)
    then ([], ok tt)
    else let (actions, result) = shutdown_connection d l in
      (
        actions ++ closed_client ∷ [],
        finally (swallow is_bleak_error result) (swallow is_bleak_error d.client_disconnect),
      )
