-- ===== src/Push/CycleLaws.antt =====
-- The order of a cycle's requests.
use yalexs_ble.Prelude.{
  ℕ, ◌≡◌, subst, sym, Bool, true, false, not, ◌&&◌, ◌||◌, [], is_some, arith, Bool-cases, inl, inr,
}
use yalexs_ble.Errors.{ok}
use yalexs_ble.Push.AutoLockRead.{setting_gate}
use yalexs_ble.Push.ActivityDrain.{drain_activity}
use yalexs_ble.Push.Run.{
  lock_info, battery, door_status, auto_lock_status, lock_status, drain, slow_params, World,
  Progress, ◌>>=◌, ◌>>◌, return, modify, ask, connect,
}
use yalexs_ble.Push.Reads.{
  learn_info, evict_battery, ask_battery, poll_reporting_battery, poll_battery, senses_door,
  record_auth, ask_and_record, clear_force, asked_of, poll_door, ask_setting, poll_setting,
  wants_status, poll_status, make_reads,
}
use yalexs_ble.Push.Cycle.{
  publish, set_pending, drain_ended, run_drain, poll_activity, slow_down, free_if, count_if,
  settle_link, end_cycle, locked_update,
}
use yalexs_ble.Push.AskOrder.{
  Descends, KeepsOrder, ask-KeepsOrder, info_probed-asked, setting_read-asked, drain_ended-asked,
  battery_answered-asked, slow_params_answered-asked, Descends-le, >>=-KeepsOrder, if-Descends,
}

module _ (world : World) where
  connect-KeepsOrder : KeepsOrder 0 0 (connect world)
  unfolding connect
  connect-KeepsOrder s d = d

  learn_info-KeepsOrder : KeepsOrder 0 1 (learn_info world)
  unfolding learn_info ask
  learn_info-KeepsOrder s d = elim (Bool-cases (is_some s.lock.lock_info)) [
    | inl known ↦ rw known (Descends-le 0 1 s.asked (omega arith) d)
    | inr unknown ↦ rw unknown (
        subst (Descends 1)
          (sym (info_probed-asked world (ask world lock_info s).0 (ask world lock_info s).1))
          (omega arith, d))
  ]

  ask_battery-KeepsOrder : KeepsOrder 1 2 (ask_battery world)
  unfolding ask_battery ask
  ask_battery-KeepsOrder s d =
      subst (Descends 2)
        (sym (battery_answered-asked world s.now (ask world battery s).0 (ask world battery s).1))
        (omega arith, d)

  poll_battery-KeepsOrder : (force : Bool) → KeepsOrder 1 2 (poll_battery world force)
  unfolding poll_battery poll_reporting_battery
  poll_battery-KeepsOrder force s d = ground (
    arith,
    Descends-le 1 2 s.asked (omega arith) d,
    ask_battery-KeepsOrder (record s { lock = evict_battery s.now s.lock }) d,
  )

  recorded-KeepsOrder : (n : ℕ) → KeepsOrder n n (record_auth world >> return true)
  unfolding record_auth
  recorded-KeepsOrder n s d =
      >>=-KeepsOrder n n n (record_auth world) (λ _. return true) (omega arith) (λ t e. e)
        (λ _ t e. e) s d

  cleared-KeepsOrder :
      KeepsOrder 5 5 (modify (λ now. clear_force) >> (record_auth world >> return true))
  cleared-KeepsOrder =
      >>=-KeepsOrder 5 5 5 (modify λ now. clear_force) (λ _. record_auth world >> return true)
        (omega arith) (λ t e. e) (λ _. recorded-KeepsOrder 5)

  poll_door-KeepsOrder : (made : Bool) → KeepsOrder 2 3 (poll_door world made)
  unfolding poll_door
  poll_door-KeepsOrder made s d =
      let asks =
        >>=-KeepsOrder 2 3 3 (ask world door_status) (λ _. record_auth world >> return true)
          (omega arith) (ask-KeepsOrder world door_status) (λ _. recorded-KeepsOrder 3) s d in
      if-Descends 3 (not s.lock.watcher.seen.door && senses_door s.lock.lock_info)
        (ask_and_record world door_status s) (ok made, s) asks
        (Descends-le 2 3 s.asked (omega arith) d)

  ask_setting-KeepsOrder : (made : Bool) → KeepsOrder 3 4 (ask_setting world made)
  unfolding ask_setting
  ask_setting-KeepsOrder made s d =
      let asks = ask-KeepsOrder world auto_lock_status s d in
      let seen = (ask world auto_lock_status s).1.lock.watcher.seen.auto_lock in
      subst (Descends 4)
        (sym (
          setting_read-asked world s.now (asked_of (ask world auto_lock_status s).0 seen) made
            (ask world auto_lock_status s).1))
        asks

  poll_setting-KeepsOrder : (made : Bool) → KeepsOrder 3 4 (poll_setting world made)
  unfolding poll_setting
  poll_setting-KeepsOrder made s d =
      if-Descends 4
        (setting_gate s.now s.lock.watcher.always_connected s.lock.watcher.seen.auto_lock
          s.lock.watcher.auto_lock_read).asks
        _ _ (ask_setting-KeepsOrder made _ d) (Descends-le 3 4 s.asked (omega arith) d)

  poll_status-KeepsOrder : (made : Bool) → KeepsOrder 4 5 (poll_status world made)
  unfolding poll_status
  poll_status-KeepsOrder made s d =
      let next =
        λ (_ : Unit {0}). modify (λ now. clear_force) >> (record_auth world >> return true) in
      let asks =
        >>=-KeepsOrder 4 5 5 (ask world lock_status) next (omega arith)
          (ask-KeepsOrder world lock_status) (λ _. cleared-KeepsOrder) s d in
      if-Descends 5 (wants_status s.now made s.lock) _ (ok made, s) asks
        (Descends-le 4 5 s.asked (omega arith) d)

  make_reads-KeepsOrder : KeepsOrder 1 5 (make_reads world)
  unfolding make_reads
  make_reads-KeepsOrder =
      >>=-KeepsOrder 1 2 5 (poll_battery world false) _ (omega arith)
        (poll_battery-KeepsOrder false)
        λ asked.
          >>=-KeepsOrder 2 3 5 (poll_door world asked) _ (omega arith) (poll_door-KeepsOrder asked)
            λ asked'.
              >>=-KeepsOrder 3 4 5 (poll_setting world asked') _ (omega arith)
                (poll_setting-KeepsOrder asked') poll_status-KeepsOrder

  run_drain-KeepsOrder : KeepsOrder 5 6 (run_drain world)
  unfolding run_drain drain_ended
  run_drain-KeepsOrder s d =
      let after = (ask world drain (record s { lock = set_pending false s.lock })).1 in
      let effect =
        drain_activity after.now after.lock.watcher.activity_drain_pending world.drained
          after.lock.drain in
      subst (Descends 6) (sym (drain_ended-asked effect after)) (ask-KeepsOrder world drain s d)

  poll_activity-KeepsOrder :
      (first_update made : Bool) → KeepsOrder 5 6 (poll_activity world first_update made)
  unfolding poll_activity
  poll_activity-KeepsOrder first_update made s d =
      ground (arith, Descends-le 5 6 s.asked (omega arith) d, run_drain-KeepsOrder s d)

  slow_down-KeepsOrder : (made : Bool) → KeepsOrder 6 7 (slow_down world made)
  unfolding slow_down
  slow_down-KeepsOrder made s d =
      let asks =
        subst (Descends 7)
          (sym (slow_params_answered-asked (ask world slow_params s).0 (ask world slow_params s).1))
          (ask-KeepsOrder world slow_params s d) in
      if-Descends 7 (not (s.lock.watcher.always_connected && made) || s.lock.link.slow_params_set)
        (ok tt, s) _ (Descends-le 6 7 s.asked (omega arith) d) asks

  settle_link-KeepsOrder :
      (first_update made : Bool) → KeepsOrder 6 7 (settle_link world first_update made)
  unfolding settle_link
  settle_link-KeepsOrder first_update made =
      >>=-KeepsOrder 6 6 7 (free_if first_update) (λ _. slow_down world made >> count_if made)
        (omega arith) (λ s d. d)
        λ _.
          >>=-KeepsOrder 6 7 7 (slow_down world made) (λ _. count_if made) (omega arith)
            (slow_down-KeepsOrder made) λ _ s d. d

  end_cycle-KeepsOrder :
      (first_update read : Bool) → KeepsOrder 5 7 (end_cycle world first_update read)
  unfolding end_cycle
  end_cycle-KeepsOrder first_update read =
      >>=-KeepsOrder 5 5 7 (publish world)
        (λ _. poll_activity world first_update read >>= settle_link world first_update)
        (omega arith) (λ s d. d)
        λ _.
          >>=-KeepsOrder 5 6 7 (poll_activity world first_update read)
            (settle_link world first_update) (omega arith)
            (poll_activity-KeepsOrder first_update read) (settle_link-KeepsOrder first_update)

  -- However it ends, a cycle makes each of its requests at most once, and in this order: the lock's
  -- info, the battery, the door, the auto lock setting, the position, the activity log and the slow
  -- connection parameters.
  pub locked_update-Descends :
      (s : Progress) → s.asked ≡ [] → Descends 7 (locked_update world s).1.asked
  unfolding locked_update
  locked_update-Descends s fresh =
      >>=-KeepsOrder 0 0 7 (connect world) _ (omega arith) connect-KeepsOrder
        (λ _. >>=-KeepsOrder 0 1 7 (learn_info world) _ (omega arith) learn_info-KeepsOrder λ _.
          >>=-KeepsOrder 1 5 7 (make_reads world) _ (omega arith) make_reads-KeepsOrder
            (end_cycle-KeepsOrder (not (is_some s.lock.lock_info))))
        s (subst (Descends 0) (sym fresh) tt)
