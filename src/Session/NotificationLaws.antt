-- ===== src/Session/NotificationLaws.antt =====
-- What starting the notifications asks of bleak, and when it counts as done.
use yalexs_ble.Prelude.{
  ◌≡◌, refl, ap, ◌∙◌, codes, occurs_in, Bool, true, false, not, ◌&&◌, List, [], ◌∷◌, arith,
  if◌then◌else◌,
}
use yalexs_ble.Errors.{
  auth_error, bleak_error, bleak_dbus_error, bleak_not_found_error, Result, ok, err,
}
use yalexs_ble.Session.Notifications.{
  Request, start, Starting, is_value_error, stop_notify, restart_notify, start_on_client,
  start_result, has_started, start_notify,
}

-- The error of the first start, if it has one.
abbrev fails_with_value : Result (Unit {0}) → Bool
fails_with_value (ok _) = false
fails_with_value (err e) = is_value_error e

-- How the last start that is made ends; no start at all on a client that is down.
abbrev pub last_start : Starting → Result (Unit {0})
last_start c =
    if not c.connected
    then ok tt
    else if not (fails_with_value c.started)
    then c.started
    else if c.connected_again
    then c.restarted
    else ok tt

abbrev pub starts : Starting → List Request
starts c =
    if not c.connected
    then []
    else if fails_with_value c.started && c.connected_again
    then start ∷ start ∷ []
    else start ∷ []

-- What the caller gets for the end of the last start: AuthError where bleak says "not found".
abbrev pub outcome : Result (Unit {0}) → Result (Unit {0})
outcome (ok _) = ok tt
outcome (err (bleak_error s)) =
    err (if occurs_in (codes "not found") s then auth_error else bleak_error s)
outcome (err (bleak_dbus_error s)) =
    err (if occurs_in (codes "not found") s then auth_error else bleak_dbus_error s)
outcome (err (bleak_not_found_error s)) =
    err (if occurs_in (codes "not found") s then auth_error else bleak_not_found_error s)
outcome (err e) = err e

abbrev pub counts_as_started : Result (Unit {0}) → Bool
counts_as_started (ok _) = true
counts_as_started (err e) = false

start_result-outcome : (r : Result (Unit {0})) → start_result r ≡ outcome r
start_result-outcome (ok _) = refl
start_result-outcome (err e) = ground arith

has_started-counts : (r : Result (Unit {0})) → has_started r ≡ counts_as_started r
has_started-counts (ok _) = refl
has_started-counts (err e) = refl

asked_starts :
    (c : Starting)
    → start_notify c false ≡ (starts c, (start_result (last_start c), has_started (last_start c)))
unfolding start_notify start_on_client restart_notify stop_notify
asked_starts c = ground arith

pub start_notify-starts :
    (c : Starting)
    → start_notify c false ≡ (starts c, (outcome (last_start c), counts_as_started (last_start c)))
start_notify-starts c =
    asked_starts c
    ∙ ap (λ r. (starts c, (r, has_started (last_start c)))) (start_result-outcome (last_start c))
    ∙ ap (λ b. (starts c, (outcome (last_start c), b))) (has_started-counts (last_start c))
