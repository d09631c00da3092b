-- ===== src/Push/ReturnLaws.antt =====
-- An update cycle returns if the lock answers.
use yalexs_ble.Prelude.{
  ℕ, ◌≡◌, refl, sym, subst, ap, ◌∙◌, List, [], ◌∷◌, Bool, true, false, not, ◌&&◌, ◌||◌, some, none,
  is_some, ltb, Option, length, arith, if◌then◌else◌,
}
use yalexs_ble.Errors.{assertion_error, Result, ok, err}
use yalexs_ble.Const.{LockInfo, StateValue, auth, battery_reporting}
use yalexs_ble.Push.State.{Watcher, callback_result}
use yalexs_ble.Push.Update.{update_result, apply_result}
use yalexs_ble.Push.InfoLaws.{ask-lock_info}
use yalexs_ble.Push.PushLock.{
  reset_disconnect_timer, reschedule_next_keep_alive, schedule_next_keep_alive,
}
use yalexs_ble.Push.AutoLockRead.{Asked, acknowledged, setting_gate, setting_answered}
use yalexs_ble.Push.ActivityDrain.{drain_activity, end_drain}
use yalexs_ble.Push.Connect.{ensure_connected, join_session, open_session, record_auth_success}
use yalexs_ble.Push.Run.{
  Ask, lock_info, battery, door_status, auto_lock_status, lock_status, drain, slow_params, World,
  Progress, Run, then_run, ◌>>=◌, ◌>>◌, return, modify, called, ask, connect,
}
use yalexs_ble.Push.Reads.{
  info_probed, record_auth, clear_force, learn_info, evict_battery, battery_answered, ask_battery,
  poll_reporting_battery, poll_battery, senses_door, ask_and_record, asked_of, poll_door,
  setting_read, ask_setting, poll_setting, wants_status, poll_status, make_reads, drain_due,
}
use yalexs_ble.Push.Cycle.{
  publish, set_pending, free_connection, count_request, drain_ended, run_drain, poll_activity,
  slow_params_answered, slow_down, free_if, count_if, settle_link, end_cycle, locked_update,
}

-- The lock's info is known.
abbrev pub Known : Progress → Type 0
Known s = is_some s.lock.lock_info ≡ true

abbrev pub Returned : {A : Type 0} → Result A × Progress → Type 0
Returned {A} r = (a : A) × (r.0 ≡ ok a) × Known r.1

abbrev pub Returns : {A : Type 0} → Run A → Type 0
Returns run = (s : Progress) → Known s → Returned (run s)

module _ {A B : Type 0} where
  then-Returned :
      (r : Result A × Progress) (next : A → Run B)
      → Returned r
      → ((a : A) → Returns (next a))
      → Returned (then_run next r.0 r.1)
  then-Returned (ok a, s) next (a', h, known) later = later a s known
  then-Returned (err e, s) next (a, h, known) later = absurd (cc)

  >>=-Returns :
      (run : Run A) (next : A → Run B)
      → Returns run
      → ((a : A) → Returns (next a))
      → Returns (run >>= next)
  >>=-Returns run next first later s known = then-Returned (run s) next (first s known) later

module _ {A : Type 0} where
  if-Returned :
      (b : Bool) (x y : Result A × Progress)
      → Returned x
      → Returned y
      → Returned (if b then x else y)
  if-Returned true x y l m = l
  if-Returned false x y l m = m

-- The lock answers every request, the link comes up, the log is read to its end, and a consumer that
-- is registered finds the data of an advertisement.
abbrev pub AnswersAll : World → Type 0
AnswersAll world =
    ((n : ℕ) → (world.waits n).outcome ≡ ok tt)
    × (world.joining.outcome ≡ ok tt)
    × (world.drained.outcome ≡ ok tt)
    × ((n : ℕ)
        → (world.consumers n).registered ≡ true
        → (world.consumers n).has_connection_info ≡ true)

update_result-ok :
    (now : ℕ) (states : List StateValue) (w : Watcher) → update_result now states (ok tt) w ≡ ok tt
unfolding update_result apply_result
update_result-ok now states w = ground arith

module _ (world : World) (answers : AnswersAll world) where
  ask-ok : (r : Ask) (s : Progress) → (ask world r s).0 ≡ ok tt
  unfolding ask
  ask-ok r s = answers.0 (length s.asked)

  ask-Known : (r : Ask) (s : Progress) → Known s → Known (ask world r s).1
  ask-Known r s known = ap is_some (ask-lock_info world r s) ∙ known

  ask-Returns : (r : Ask) → Returns (ask world r)
  ask-Returns r s known = (tt, ask-ok r s, ask-Known r s known)

  called-ok : (s : Progress) → Known s → called world s ≡ ok tt
  unfolding callback_result
  called-ok s known = ground (arith, answers.3 (length s.asked), known)

  record_auth-Returns : Returns (record_auth world)
  unfolding record_auth record_auth_success
  record_auth-Returns s known = (
    tt,
    ap (λ r. update_result s.now (auth (record { successful = true }) ∷ []) r s.lock.watcher)
          (called-ok s known)
        ∙ update_result-ok s.now (auth (record { successful = true }) ∷ []) s.lock.watcher,
    known,
  )

  recorded-Returns : Returns (record_auth world >> return true)
  recorded-Returns =
      >>=-Returns (record_auth world) (λ _. return true) record_auth-Returns
        λ _ s known. (true, refl, known)

  connect-ok : (s : Progress) → (connect world s).0 ≡ ok tt
  unfolding connect ensure_connected join_session open_session
  connect-ok s = ground (arith, answers.1)

  learn_info-Returned : (s : Progress) → Returned (learn_info world s)
  unfolding learn_info info_probed
  learn_info-Returned s =
      (tt, ground (arith, ask-ok lock_info s), ground (arith, ask-ok lock_info s))

  ask_battery-Returns : Returns (ask_battery world)
  unfolding ask_battery battery_answered
  ask_battery-Returns s known =
      subst (λ r. Returned (battery_answered world s.now r (ask world battery s).1))
        (sym (ask-ok battery s))
        (>>=-Returns (record_auth world) _ record_auth-Returns (λ _ t known'. (true, refl, known'))
          (ask world battery s).1 (ask-Known battery s known))

  poll_reporting_battery-Returns : Returns (poll_reporting_battery world false)
  unfolding poll_reporting_battery evict_battery
  poll_reporting_battery-Returns s known =
      let evicted : Progress = record s { lock = evict_battery s.now s.lock } in
      let still : Known evicted = ground (arith, known) in
      if-Returned (ltb s.now s.lock.watcher.earliest_battery_attempt_time) _ _ (false, refl, known)
        (if-Returned (not false && evicted.lock.watcher.seen.battery) _ _ (false, refl, still)
          (ask_battery-Returns evicted still))

  poll_battery-Returns : Returns (poll_battery world false)
  unfolding poll_battery
  poll_battery-Returns s known = by_info s.lock.lock_info known
    where
      by_info :
          (l : Option LockInfo)
          → is_some l ≡ true
          → Returned {A = Bool} (elim l [
            | none ↦ (err assertion_error, s)
            | some info ↦
                if battery_reporting info
                then poll_reporting_battery world false s
                else (ok false, s)
          ])
      by_info none h = absurd (cc)
      by_info (some info) h =
          if-Returned (battery_reporting info) _ _ (poll_reporting_battery-Returns s known)
            (false, refl, known)

  poll_door-Returns : (made : Bool) → Returns (poll_door world made)
  unfolding poll_door
  poll_door-Returns made s known =
      if-Returned (not s.lock.watcher.seen.door && senses_door s.lock.lock_info)
        (ask_and_record world door_status s) (ok made, s)
        (>>=-Returns (ask world door_status) (λ _. record_auth world >> return true)
          (ask-Returns door_status) (λ _. recorded-Returns) s known)
        (made, refl, known)

  setting_read-Returned :
      (start : ℕ) (asked : Asked) (made : Bool) → Returns (setting_read world start (ok asked) made)
  unfolding setting_read
  setting_read-Returned start asked made s known =
      if-Returned (setting_answered start asked s.lock.watcher.auto_lock_read).0 _ _
        (recorded-Returns _ known) (made, refl, known)

  ask_setting-Returns : (made : Bool) → Returns (ask_setting world made)
  unfolding ask_setting
  ask_setting-Returns made s known =
      let after = (ask world auto_lock_status s).1 in
      let seen = after.lock.watcher.seen.auto_lock in
      subst (λ r. Returned (setting_read world s.now (asked_of r seen) made after))
        (sym (ask-ok auto_lock_status s))
        (setting_read-Returned s.now (acknowledged seen) made after
          (ask-Known auto_lock_status s known))

  poll_setting-Returns : (made : Bool) → Returns (poll_setting world made)
  unfolding poll_setting
  poll_setting-Returns made s known =
      if-Returned
        (setting_gate s.now s.lock.watcher.always_connected s.lock.watcher.seen.auto_lock
          s.lock.watcher.auto_lock_read).asks
        _ _ (ask_setting-Returns made _ known) (made, refl, known)

  poll_status-Returns : (made : Bool) → Returns (poll_status world made)
  unfolding poll_status
  poll_status-Returns made s known =
      if-Returned (wants_status s.now made s.lock) _ (ok made, s)
        (>>=-Returns (ask world lock_status)
          (λ _. modify (λ now. clear_force) >> (record_auth world >> return true))
          (ask-Returns lock_status)
          (λ _.
            >>=-Returns (modify λ now. clear_force) (λ _. record_auth world >> return true)
              (λ t known'. (tt, refl, known')) λ _. recorded-Returns)
          s known)
        (made, refl, known)

  make_reads-Returns : Returns (make_reads world)
  unfolding make_reads
  make_reads-Returns = >>=-Returns (poll_battery world false) _ poll_battery-Returns λ asked.
      >>=-Returns (poll_door world asked) _ (poll_door-Returns asked) λ asked'.
        >>=-Returns (poll_setting world asked') (poll_status world) (poll_setting-Returns asked')
          poll_status-Returns

  run_drain-Returns : Returns (run_drain world)
  unfolding run_drain drain_ended drain_activity end_drain
  run_drain-Returns s known = (
    true,
    ground (arith, answers.2),
    ground (arith, answers.2, ask-Known drain (record s { lock = set_pending false s.lock }) known),
  )

  poll_activity-Returns : (first made : Bool) → Returns (poll_activity world first made)
  unfolding poll_activity
  poll_activity-Returns first made s known =
      if-Returned (not (drain_due s.now s.lock)) _ _ (made, refl, known)
        (if-Returned first _ _ (made, refl, known) (run_drain-Returns s known))

  slow_down-Returns : (made : Bool) → Returns (slow_down world made)
  unfolding slow_down slow_params_answered
  slow_down-Returns made s known =
      if-Returned (not (s.lock.watcher.always_connected && made) || s.lock.link.slow_params_set) _ _
        (tt, refl, known)
        (subst (λ r. Returned (slow_params_answered r (ask world slow_params s).1))
          (sym (ask-ok slow_params s)) (tt, refl, ask-Known slow_params s known))

  free_if-Returns : (first : Bool) → Returns (free_if first)
  unfolding free_connection reset_disconnect_timer
  free_if-Returns first s known = (tt, refl, ground (arith, known))

  count_if-Returns : (made : Bool) → Returns (count_if made)
  unfolding count_request reschedule_next_keep_alive schedule_next_keep_alive
  count_if-Returns made s known = (tt, refl, ground (arith, known))

  settle_link-Returns : (first made : Bool) → Returns (settle_link world first made)
  unfolding settle_link
  settle_link-Returns first made =
      >>=-Returns (free_if first) (λ _. slow_down world made >> count_if made)
        (free_if-Returns first)
        λ _.
          >>=-Returns (slow_down world made) (λ _. count_if made) (slow_down-Returns made)
            λ _. count_if-Returns made

  publish-Returns : Returns (publish world)
  publish-Returns s known = (tt, called-ok s known, known)

  end_cycle-Returns : (first read : Bool) → Returns (end_cycle world first read)
  unfolding end_cycle
  end_cycle-Returns first read =
      >>=-Returns (publish world) (λ _. poll_activity world first read >>= settle_link world first)
        publish-Returns
        λ _.
          >>=-Returns (poll_activity world first read) (settle_link world first)
            (poll_activity-Returns first read) (settle_link-Returns first)

  -- If the link comes up, the lock answers each request, its log ends, and the data of an
  -- advertisement are there whenever a consumer is registered, an update cycle returns, whatever
  -- state the watcher is in and whatever else is reported meanwhile.
  pub locked_update-returns : (s : Progress) → (locked_update world s).0 ≡ ok tt
  unfolding locked_update
  locked_update-returns s =
      let first = not (is_some s.lock.lock_info) in
      let t = (connect world s).1 in
      let rest = λ (_ : Unit {0}). make_reads world >>= end_cycle world first in
      let (a, returned, known) =
        then-Returned (learn_info world t) rest (learn_info-Returned t) λ _.
          >>=-Returns (make_reads world) (end_cycle world first) make_reads-Returns
            (end_cycle-Returns first) in
      ap (λ r. (then_run (λ _. learn_info world >>= rest) r t).0) (connect-ok s) ∙ returned
