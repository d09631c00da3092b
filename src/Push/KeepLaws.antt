-- ===== src/Push/KeepLaws.antt =====
-- What the steps of a cycle leave alone, and when a sequence of them returns.
use yalexs_ble.Prelude.{
  ℕ, ◌≡◌, refl, ◌∙◌, Bool, true, false, not, ◌&&◌, some, length, [], ◌∷◌, arith, if◌then◌else◌,
  Bool-cases, inl, inr,
}
use yalexs_ble.Errors.{Result, ok, err}
use yalexs_ble.Const.{auth}
use yalexs_ble.Push.State.{callback_state}
use yalexs_ble.Push.PushLock.{PushLock, reset_disconnect_timer}
use yalexs_ble.Push.Connect.{
  Joining, set_client, ensure_connected, join_session, open_session, session_opened,
  record_auth_success,
}
use yalexs_ble.Push.AutoLockRead.{Asked, setting_gate, setting_answered}
use yalexs_ble.Push.ActivityDrain.{DrainEffect, drain_activity}
use yalexs_ble.Push.Run.{
  Ask, World, Progress, Run, then_run, ◌>>=◌, ◌>>◌, return, ask, connect, battery, lock_info,
  door_status, auto_lock_status, drain, slow_params,
}
use yalexs_ble.Push.Reads.{
  info_probed, learn_info, evict_battery, battery_answered, ask_battery, poll_reporting_battery,
  poll_battery, senses_door, record_auth, ask_and_record, poll_door, asked_of, setting_read,
  ask_setting, poll_setting,
}
use yalexs_ble.Push.Cycle.{
  publish, set_pending, drain_ended, run_drain, poll_activity, slow_params_answered, slow_down,
}
use yalexs_ble.Push.ModeLaws.{lock_mode, update_any_state-mode, handle_events-mode}

-- A step after which the watcher runs, stays connected and owes a poll exactly if it did before.
abbrev pub Keeps : {A : Type 0} → Run A → Type 0
Keeps run = (s : Progress) → lock_mode (run s).1.lock ≡ lock_mode s.lock

module _ {A B : Type 0} where
  pub >>=-Keeps :
      (run : Run A) (next : A → Run B)
      → Keeps run
      → ((a : A) → Keeps (next a))
      → Keeps (run >>= next)
  >>=-Keeps run next first later s = after (run s).0 (run s).1 ∙ first s
    where
      after :
          (r : Result A) (t : Progress) → lock_mode (then_run next r t).1.lock ≡ lock_mode t.lock
      after (ok a) t = later a t
      after (err e) t = refl

  -- A sequence returns only if its first part does, and then as the rest does.
  pub >>=-ok :
      (run : Run A) (next : A → Run B) (s : Progress) (b : B)
      → ((run >>= next) s).0 ≡ ok b
      → (a : A) × ((run s).0 ≡ ok a) × ((run >>= next) s ≡ next a (run s).1)
  >>=-ok run next s b h = after (run s).0 (run s).1 h
    where
      after :
          (r : Result A) (t : Progress)
          → (then_run next r t).0 ≡ ok b
          → (a : A) × (r ≡ ok a) × (then_run next r t ≡ next a t)
      after (ok a) t e = (a, refl, refl)
      after (err x) t e = cc

pub ok-eq : {A : Type 0} {a b : A} → ◌≡◌ {A = Result A} (ok a) (ok b) → a ≡ b
ok-eq e = cc

pub record_auth_success-mode :
    (now : ℕ) (p : PushLock) → lock_mode (record_auth_success now p) ≡ lock_mode p
unfolding record_auth_success
record_auth_success-mode now p =
    update_any_state-mode now (auth (record { successful = true }) ∷ []) p.watcher

pub open_session-mode : (j : Joining) (p : PushLock) → lock_mode (open_session j p).1 ≡ lock_mode p
unfolding open_session session_opened reset_disconnect_timer
open_session-mode j p = ground (
  arith,
  handle_events-mode j.heard (set_client (some false) p),
  handle_events-mode j.heard (set_client (some true) p),
)

module _ (world : World) where
  pub ask-Keeps : (request : Ask) → Keeps (ask world request)
  unfolding ask
  ask-Keeps request s = handle_events-mode (world.waits (length s.asked)).heard s.lock

  pub learn_info-Keeps : Keeps (learn_info world)
  unfolding learn_info info_probed
  learn_info-Keeps s = ground (arith, ask-Keeps lock_info s)

  pub record_auth-Keeps : Keeps (record_auth world)
  unfolding record_auth
  record_auth-Keeps s = record_auth_success-mode s.now s.lock

  pub recorded-Keeps : Keeps (record_auth world >> return true)
  recorded-Keeps = >>=-Keeps (record_auth world) (λ _. return true) record_auth-Keeps λ _ s. refl

  pub battery_answered-mode :
      (start : ℕ) (r : Result (Unit {0})) (s : Progress)
      → lock_mode (battery_answered world start r s).1.lock ≡ lock_mode s.lock
  unfolding battery_answered
  battery_answered-mode start (ok _) s =
      >>=-Keeps (record_auth world) _ record_auth-Keeps (λ _ t. refl) s
  battery_answered-mode start (err e) s = ground arith

  pub ask_battery-Keeps : Keeps (ask_battery world)
  unfolding ask_battery
  ask_battery-Keeps s =
      battery_answered-mode s.now (ask world battery s).0 (ask world battery s).1
      ∙ ask-Keeps battery s

  pub poll_reporting_battery-Keeps : (force : Bool) → Keeps (poll_reporting_battery world force)
  unfolding poll_reporting_battery evict_battery
  poll_reporting_battery-Keeps force s =
      ground (arith, ask_battery-Keeps (record s { lock = evict_battery s.now s.lock }))

  pub poll_battery-Keeps : (force : Bool) → Keeps (poll_battery world force)
  unfolding poll_battery
  poll_battery-Keeps force s = ground (arith, poll_reporting_battery-Keeps force s)

  pub ask_and_record-Keeps : (request : Ask) → Keeps (ask_and_record world request)
  ask_and_record-Keeps request =
      >>=-Keeps (ask world request) (λ _. record_auth world >> return true) (ask-Keeps request)
        λ _. recorded-Keeps

  pub poll_door-Keeps : (made : Bool) → Keeps (poll_door world made)
  unfolding poll_door
  poll_door-Keeps made s =
      elim (Bool-cases (not s.lock.watcher.seen.door && senses_door s.lock.lock_info)) [
        | inl unseen ↦ rw unseen (ask_and_record-Keeps door_status s)
        | inr seen ↦ rw seen refl
      ]

  pub setting_read-mode :
      (start : ℕ) (r : Result Asked) (made : Bool) (s : Progress)
      → lock_mode (setting_read world start r made s).1.lock ≡ lock_mode s.lock
  unfolding setting_read
  setting_read-mode start (err e) made s = refl
  setting_read-mode start (ok asked) made s =
      let (issued, r) = setting_answered start asked s.lock.watcher.auto_lock_read in
      let read : PushLock = record s.lock {
        watcher = record s.lock.watcher { auto_lock_read = r };
      } in
      elim (Bool-cases issued) [
        | inl answered ↦ rw answered (recorded-Keeps (record s { lock = read }))
        | inr not_answered ↦ rw not_answered refl
      ]

  pub publish-Keeps : Keeps (publish world)
  unfolding callback_state
  publish-Keeps s = refl

  pub drain_ended-mode :
      (effect : DrainEffect) (s : Progress)
      → lock_mode (drain_ended effect s).1.lock ≡ lock_mode s.lock
  unfolding drain_ended
  drain_ended-mode effect s = ground arith

  pub run_drain-Keeps : Keeps (run_drain world)
  unfolding run_drain
  run_drain-Keeps s =
      let begun : Progress = record s { lock = set_pending false s.lock } in
      let after = (ask world drain begun).1 in
      drain_ended-mode
        (drain_activity after.now after.lock.watcher.activity_drain_pending world.drained
          after.lock.drain)
        after
      ∙ ask-Keeps drain begun

  pub poll_activity-Keeps :
      (first_update made : Bool) → Keeps (poll_activity world first_update made)
  unfolding poll_activity
  poll_activity-Keeps first_update made s = ground (arith, run_drain-Keeps s)

  pub slow_down-Keeps : (made : Bool) → Keeps (slow_down world made)
  unfolding slow_down slow_params_answered
  slow_down-Keeps made s = ground (arith, ask-Keeps slow_params s)

  pub ask_setting-Keeps : (made : Bool) → Keeps (ask_setting world made)
  unfolding ask_setting
  ask_setting-Keeps made s =
      let after = (ask world auto_lock_status s).1 in
      setting_read-mode s.now
        (asked_of (ask world auto_lock_status s).0 after.lock.watcher.seen.auto_lock) made after
      ∙ ask-Keeps auto_lock_status s

  pub poll_setting-Keeps : (made : Bool) → Keeps (poll_setting world made)
  unfolding poll_setting
  poll_setting-Keeps made s =
      let w = s.lock.watcher in
      let gate = setting_gate s.now w.always_connected w.seen.auto_lock w.auto_lock_read in
      let gated : Progress = record s {
        lock = record s.lock {
          watcher = record w {
            seen = record w.seen { auto_lock = gate.seen };
            auto_lock_read = gate.state;
          };
        };
      } in
      either gate.asks (ask_setting world made gated) (ok made, gated)
        (ask_setting-Keeps made gated) refl
    where
      either :
          (t : Bool) (x y : Result Bool × Progress)
          → lock_mode x.1.lock ≡ lock_mode s.lock
          → lock_mode y.1.lock ≡ lock_mode s.lock
          → lock_mode (if t then x else y).1.lock ≡ lock_mode s.lock
      either true x y f g = f
      either false x y f g = g

  module _ (steady : (p : PushLock) → lock_mode (world.joining.others p) ≡ lock_mode p) where
    join_session-mode :
        (now : ℕ) (p : PushLock) → lock_mode (join_session now world.joining p).1 ≡ lock_mode p
    unfolding join_session reset_disconnect_timer
    join_session-mode now p = ground (arith, open_session-mode world.joining p)

    pub connect-Keeps : Keeps (connect world)
    unfolding connect ensure_connected reset_disconnect_timer
    connect-Keeps s =
        let j = world.joining in
        let noted = if j.connect_locked then reset_disconnect_timer s.now s.lock else s.lock in
        ground (
          arith,
          join_session-mode j.free_at (j.others noted),
          join_session-mode s.now noted,
          steady noted,
        )
