-- ===== src/Push/UpdateAdvertisementLaws.antt =====
-- What an advertisement makes of the watcher, the lock's own and another's.
use yalexs_ble.Prelude.{
  ℕ, ◌≡◌, ◌≢◌, refl, ◌+◌, ◌-◌, ltb, not, or_default, max, Bool, true, false, ◌&&◌, ◌==◌, Option,
  none, some, List, Text, arith, Bool-cases, inl, inr, if◌then◌else◌,
}
use yalexs_ble.Errors.{assertion_error, ok, err}
use yalexs_ble.Push.SchedulerLaws.{DueBy, schedule_with_debounce-bounds}
use yalexs_ble.Push.State.{Watcher}
use yalexs_ble.Push.Advertisement.{read_advertisement, waits_for_push}
use yalexs_ble.Push.Identity.{Identity, identify, address_of, set_ble_device, same_name, accepts}
use yalexs_ble.Push.PushLock.{LinkState, PushLock, reset_disconnect_timer, clear_reconnect_backoff}
use yalexs_ble.Push.Lifecycle.{start}
use yalexs_ble.Push.UpdateAdvertisement.{
  keeps_link, follow_advertisement, take_advertisement, update_advertisement,
}

-- What an own advertisement leaves that asks for an update after a delay: the wait for a push over the
-- link, or an update that stands by a time.
abbrev pub Followed : ℕ → ℕ → Bool → Watcher → LinkState → PushLock → Type 0
Followed now delay true w link p' =
    (p'.watcher ≡ w)
    × (p'.link.disconnect_timer ≡ (
        if w.always_connected && w.running
        then link.disconnect_timer
        else some (now + link.idle_disconnect_delay_pending_update)))
Followed now delay false w link p' =
    (p'.link ≡ link)
    × DueBy p'.watcher.scheduler.deferred_update
        (max (max (now + delay) (now + 25)) w.scheduler.earliest_update_time)

-- Whether the link is kept for the lock to push the state: it is up, not for the first time, and what
-- went by since the last operation and the delay before an idle link is closed make up under 25 s.
abbrev pub awaits_push : ℕ → PushLock → Bool
awaits_push now p =
    or_default p.link.client false
    && (not (p.link.next_disconnect_delay == 2100)
        && ltb
            ((now - p.link.last_operation_complete_time)
              + p.link.idle_disconnect_delay_pending_update)
            25000)

keeps_link-awaits_push : (now : ℕ) (p : PushLock) → keeps_link now p ≡ awaits_push now p
unfolding keeps_link waits_for_push
keeps_link-awaits_push now p = refl

follow_advertisement-Followed :
    (now delay : ℕ) (p : PushLock)
    → delay ≢ 0
    → Followed now delay (keeps_link now p) p.watcher p.link (follow_advertisement now delay p)
unfolding follow_advertisement reset_disconnect_timer
follow_advertisement-Followed now delay p asks = elim (Bool-cases (keeps_link now p)) [
  | inl kept ↦ rw (some_delay, kept) (ground arith)
  | inr sooner ↦
      rw (some_delay, sooner) (refl, schedule_with_debounce-bounds now delay p.watcher.scheduler)
]
  where
    some_delay : (delay == 0) ≡ false
    some_delay = ground arith

-- An advertisement of the lock itself that asks for an update after a delay, as it shows a first or a
-- changed state: where the link is up, not for the first time, and the time since the last operation
-- with the idle delay is under 25 s, it is kept for the lock to push the state, with its timer
-- started anew unless the watcher keeps the link up anyway, and nothing is scheduled; else an update
-- stands, for no later than the delay (or 25 ms) and the floor.
pub update_advertisement-Followed :
    (now : ℕ) (device : Text) (local_name : Option Text) (mfr_data : List (ℕ × List ℕ))
    (p : PushLock)
    → accepts device local_name p.identity ≡ ok true
    → (read_advertisement mfr_data p.advertised).0 ≢ 0
    → Followed now
        (read_advertisement mfr_data p.advertised).0
        (awaits_push now p)
        p.watcher
        p.link
        (update_advertisement now device local_name mfr_data p).1
unfolding update_advertisement take_advertisement keeps_link waits_for_push
update_advertisement-Followed now device local_name mfr_data p own asks =
    let (delay, advertised) = read_advertisement mfr_data p.advertised in
    let known : PushLock = record p {
      identity = set_ble_device device p.identity;
      advertised = advertised;
    } in
    rw (own, update_advertisement) (follow_advertisement-Followed now delay known asks)

-- A watcher made with a local name and neither an address nor a device.
named_only :
    (name : Text) (i : Identity)
    → identify (some name) none none ≡ ok i
    → (i.local_name ≡ some name) × (address_of i ≡ err assertion_error)
unfolding identify address_of
named_only name i made = ground arith

foreign_refused :
    (name device : Text) (local_name : Option Text) (i : Identity)
    → identify (some name) none none ≡ ok i
    → same_name (some name) local_name ≡ false
    → accepts device local_name i ≡ err assertion_error
unfolding accepts
foreign_refused name device local_name i made other =
    let (named, unknown) = named_only name i made in ground arith

-- A watcher made with a unique local name alone, before any advertisement of its lock: another
-- lock's advertisement raises AssertionError and changes nothing, and a start raises it too, with
-- the watcher left running.
pub foreign_advertisement_raises :
    (now : ℕ) (name device : Text) (local_name : Option Text) (mfr_data : List (ℕ × List ℕ))
    (found : Option Text) (p : PushLock)
    → identify (some name) none none ≡ ok p.identity
    → same_name (some name) local_name ≡ false
    → p.watcher.running ≡ false
    → (update_advertisement now device local_name mfr_data p ≡ (err assertion_error, p))
      × ((start now found p).0 ≡ err assertion_error)
      × ((start now found p).1.watcher.running ≡ true)
unfolding update_advertisement start clear_reconnect_backoff
foreign_advertisement_raises now name device local_name mfr_data found p made other stopped =
    let refused = foreign_refused name device local_name p.identity made other in
    let (named, unknown) = named_only name p.identity made in
    (rw (refused, update_advertisement) refl, ground arith, ground arith)
