-- ===== src/Push/RequestLaws.antt =====
-- A cycle of an always-connected watcher makes a request, and leaves no poll owed.
use yalexs_ble.Prelude.{
  ◌≡◌, refl, ap, sym, subst, ◌∙◌, ◌+◌, Bool, true, false, not, some, is_some, arith, if◌then◌else◌,
  Bool-cases, ◌⊎◌, inl, inr,
}
use yalexs_ble.Errors.{Result, ok}
use yalexs_ble.Push.State.{callback_state}
use yalexs_ble.Push.PushLock.{PushLock, reschedule_next_keep_alive, schedule_next_keep_alive}
use yalexs_ble.Push.Run.{
  World, Progress, Run, ◌>>=◌, ◌>>◌, return, modify, ask, connect, lock_status,
}
use yalexs_ble.Push.Reads.{
  learn_info, record_auth, poll_battery, poll_door, poll_setting, drain_due, wants_status,
  clear_force, poll_status, make_reads,
}
use yalexs_ble.Push.Cycle.{
  publish, drain_ended, run_drain, poll_activity, slow_down, count_request, count_if, settle_link,
  end_cycle, locked_update,
}
use yalexs_ble.Push.ModeLaws.{Mode, lock_mode}
use yalexs_ble.Push.KeepLaws.{
  >>=-ok, ok-eq, recorded-Keeps, ask-Keeps, learn_info-Keeps, poll_battery-Keeps, poll_door-Keeps,
  poll_setting-Keeps, poll_activity-Keeps, slow_down-Keeps, connect-Keeps,
}

-- A request counted: the keep-alive is set from it.
abbrev pub Counted : Progress → Type 0
Counted s =
    (s.lock.link.last_operation_complete_time ≡ s.now)
    × (s.lock.link.keep_alive_timer ≡ some (s.now + 25000))
    × (s.lock.watcher.force_lock_status_poll ≡ false)

module _ (world : World) where
  -- The mode once no poll is owed.
  abbrev owes_nothing : Mode → Mode
  owes_nothing m = record m { force_lock_status_poll = false }

  status_answered : Unit {0} → Run Bool
  status_answered _ = modify (λ now. clear_force) >> (record_auth world >> return true)

  recorded-ok :
      (s : Progress) (b : Bool) → ((record_auth world >> return true) s).0 ≡ ok b → b ≡ true
  recorded-ok s b h =
      let (a, got, runs) = >>=-ok (record_auth world) (λ _. return true) s b h in
      ok-eq (sym h ∙ ap (λ r. r.0) runs)

  ask_status-ok :
      (s : Progress) (b : Bool)
      → ((ask world lock_status >>= status_answered) s).0 ≡ ok b
      → (lock_mode ((ask world lock_status >>= status_answered) s).1.lock
          ≡ owes_nothing (lock_mode s.lock))
        × (b ≡ true)
  unfolding status_answered
  ask_status-ok s b h =
      let (a, asked, runs) = >>=-ok (ask world lock_status) status_answered s b h in
      let t = (ask world lock_status s).1 in
      let cleared : Progress = record t { lock = clear_force t.lock } in
      (
        ap (λ r. lock_mode r.1.lock) runs
            ∙ recorded-Keeps world cleared
            ∙ ap owes_nothing (ask-Keeps world lock_status s),
        recorded-ok cleared b (sym (ap (λ r. r.0) runs) ∙ h),
      )

  -- After the reads of a cycle that began in `s`: no poll is owed, and a request was made unless the
  -- log is about to be drained.
  abbrev ReadWell : Progress → Bool → Result Bool × Progress → Type 0
  ReadWell s b r =
      (lock_mode r.1.lock ≡ owes_nothing (lock_mode s.lock))
      × ((b ≡ true) ⊎ (drain_due r.1.now r.1.lock ≡ true))

  status_not_wanted :
      (made : Bool) (s : Progress) (b : Bool)
      → s.lock.watcher.always_connected ≡ true
      → wants_status s.now made s.lock ≡ false
      → made ≡ b
      → ReadWell s b (ok made, s)
  unfolding wants_status
  status_not_wanted made s b always not_wanted same = elim (Bool-cases (drain_due s.now s.lock)) [
    | inl due ↦ (ground arith, inr due)
    | inr not_due ↦ (ground arith, inl (ground arith))
  ]

  poll_status-ok :
      (made : Bool) (s : Progress) (b : Bool)
      → s.lock.watcher.always_connected ≡ true
      → (poll_status world made s).0 ≡ ok b
      → ReadWell s b (poll_status world made s)
  unfolding poll_status status_answered
  poll_status-ok made s b always h =
      choose (wants_status s.now made s.lock) ((ask world lock_status >>= status_answered) s)
        (ok made, s) (λ wanted e. (let (same, asked) = ask_status-ok s b e in (same, inl asked)))
        (λ not_wanted e. status_not_wanted made s b always not_wanted (ok-eq e)) h
    where
      choose :
          (t : Bool) (x y : Result Bool × Progress)
          → (t ≡ true → x.0 ≡ ok b → ReadWell s b x)
          → (t ≡ false → y.0 ≡ ok b → ReadWell s b y)
          → (if t then x else y).0 ≡ ok b
          → ReadWell s b (if t then x else y)
      choose true x y f g e = f refl e
      choose false x y f g e = g refl e

  make_reads-ok :
      (s : Progress) (b : Bool)
      → s.lock.watcher.always_connected ≡ true
      → (make_reads world s).0 ≡ ok b
      → ReadWell s b (make_reads world s)
  unfolding make_reads
  make_reads-ok s b always h =
      let battery_next = λ (asked : Bool).
        poll_door world asked >>= λ asked'. poll_setting world asked' >>= poll_status world in
      let door_next = λ (asked' : Bool). poll_setting world asked' >>= poll_status world in
      let (a, got, runs) = >>=-ok (poll_battery world false) battery_next s b h in
      let t = (poll_battery world false s).1 in
      let (a', got', runs') =
        >>=-ok (poll_door world a) door_next t b (sym (ap (λ r. r.0) runs) ∙ h) in
      let t' = (poll_door world a t).1 in
      let (a'', got'', runs'') =
        >>=-ok (poll_setting world a') (poll_status world) t' b
          (sym (ap (λ r. r.0) (runs ∙ runs')) ∙ h) in
      let t'' = (poll_setting world a' t').1 in
      let all = runs ∙ runs' ∙ runs'' in
      let same : lock_mode t''.lock ≡ lock_mode s.lock =
        poll_setting-Keeps world a' t'
        ∙ poll_door-Keeps world a t
        ∙ poll_battery-Keeps world false s in
      let (owes, made) =
        poll_status-ok a'' t'' b (ap (λ m. m.always_connected) same ∙ always)
          (sym (ap (λ r. r.0) all) ∙ h) in
      subst (ReadWell s b) (sym all) (owes ∙ ap owes_nothing same, made)

  run_drain-ok : (s : Progress) (b : Bool) → (run_drain world s).0 ≡ ok b → b ≡ true
  unfolding run_drain drain_ended
  run_drain-ok s b h = ground arith

  poll_activity-ok :
      (read : Bool) (s : Progress) (b : Bool)
      → (read ≡ true) ⊎ (drain_due s.now s.lock ≡ true)
      → (poll_activity world false read s).0 ≡ ok b
      → b ≡ true
  unfolding poll_activity
  poll_activity-ok read s b made h = ground (arith, run_drain-ok s b)

  settle_link-Counted :
      (s : Progress)
      → lock_mode s.lock
        ≡ record { running = true; always_connected = true; force_lock_status_poll = false }
      → (settle_link world false true s).0 ≡ ok tt
      → Counted (settle_link world false true s).1
  unfolding settle_link count_request reschedule_next_keep_alive schedule_next_keep_alive
  settle_link-Counted s steady h =
      let (a, got, runs) = >>=-ok (slow_down world true) (λ _. count_if true) s tt h in
      let t = (slow_down world true s).1 in
      let same = slow_down-Keeps world true s ∙ steady in
      let running : t.lock.watcher.running ≡ true = ap (λ m. m.running) same in
      let always : t.lock.watcher.always_connected ≡ true = ap (λ m. m.always_connected) same in
      let owes : t.lock.watcher.force_lock_status_poll ≡ false =
        ap (λ m. m.force_lock_status_poll) same in
      subst (λ r. Counted r.1) (sym runs) (refl, ground arith, owes)

  end_cycle-Counted :
      (s : Progress) (read : Bool)
      → lock_mode s.lock
        ≡ record { running = true; always_connected = true; force_lock_status_poll = false }
      → (read ≡ true) ⊎ (drain_due s.now s.lock ≡ true)
      → (end_cycle world false read s).0 ≡ ok tt
      → Counted (end_cycle world false read s).1
  unfolding end_cycle callback_state
  end_cycle-Counted s read steady made h =
      let (heard, told, published) =
        >>=-ok (publish world) (λ _. poll_activity world false read >>= settle_link world false) s
          tt h in
      let t = (publish world s).1 in
      let (asked, drained, runs') =
        >>=-ok (poll_activity world false read) (settle_link world false) t tt
          (sym (ap (λ r. r.0) published) ∙ h) in
      let runs = published ∙ runs' in
      let t' = (poll_activity world false read t).1 in
      let asks = poll_activity-ok read t asked made drained in
      let all = runs ∙ ap (λ b. settle_link world false b t') asks in
      subst (λ r. Counted r.1) (sym all)
        (settle_link-Counted t' (poll_activity-Keeps world false read t ∙ steady)
          (sym (ap (λ r. r.0) all) ∙ h))

  module _ (steady : (p : PushLock) → lock_mode (world.joining.others p) ≡ lock_mode p) where
    -- A cycle that returns, of a running and always-connected watcher that knows its lock, has made a
    -- request: the last operation counts from its end, the keep-alive is set 25 s after that, and no
    -- poll of the position is owed; given that whoever else connects meanwhile leaves the mode of the
    -- watcher alone.
    pub locked_update-Counted :
        (s : Progress)
        → s.lock.watcher.running ≡ true
        → s.lock.watcher.always_connected ≡ true
        → is_some s.lock.lock_info ≡ true
        → (locked_update world s).0 ≡ ok tt
        → Counted (locked_update world s).1
    unfolding locked_update
    locked_update-Counted s running always known h =
        let first = not (is_some s.lock.lock_info) in
        let (a, got, runs) =
          >>=-ok (connect world)
            (λ _. learn_info world >> (make_reads world >>= end_cycle world first)) s tt h in
        let t = (connect world s).1 in
        let (a', got', runs') =
          >>=-ok (learn_info world) (λ _. make_reads world >>= end_cycle world first) t tt
            (sym (ap (λ r. r.0) runs) ∙ h) in
        let t' = (learn_info world t).1 in
        let (read, reads, runs'') =
          >>=-ok (make_reads world) (end_cycle world first) t' tt
            (sym (ap (λ r. r.0) (runs ∙ runs')) ∙ h) in
        let t'' = (make_reads world t').1 in
        let all = runs ∙ runs' ∙ runs'' ∙ ap (λ b. end_cycle world (not b) read t'') known in
        let same = learn_info-Keeps world t ∙ connect-Keeps world steady s in
        let (owes, made) =
          make_reads-ok t' read (ap (λ m. m.always_connected) same ∙ always) reads in
        subst (λ r. Counted r.1) (sym all)
          (end_cycle-Counted t'' read (owes ∙ ap owes_nothing same ∙ ground arith) made
            (sym (ap (λ r. r.0) all) ∙ h))
