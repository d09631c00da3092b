-- ===== src/Push/UpdateAdvertisement.antt =====
-- push.py: `update_advertisement` as a whole, and `reset_advertisement_state`.
use yalexs_ble.Prelude.{ℕ, ◌-◌, Bool, Option, none, List, ◌==◌, if◌then◌else◌, Text}
use yalexs_ble.Errors.{Result, ok, err}
use yalexs_ble.Push.Advertisement.{read_advertisement, waits_for_push}
use yalexs_ble.Push.Identity.{set_ble_device, accepts}
use yalexs_ble.Push.PushLock.{
  PushLock, schedule, is_connected, reset_disconnect_timer, first_connection_disconnect_time,
}

-- `reset_advertisement_state`
unfoldable pub reset_advertisement_state : PushLock → PushLock
reset_advertisement_state p = record p {
  advertised = record { last_adv_value = none; last_hk_state = none };
}

-- The test that the link is kept for the push of the state.
unfoldable pub keeps_link : ℕ → PushLock → Bool
unfolding waits_for_push
keeps_link now p =
    waits_for_push (is_connected p)
      (p.link.next_disconnect_delay == first_connection_disconnect_time)
      (now - p.link.last_operation_complete_time) p.link.idle_disconnect_delay_pending_update

-- What a delay asked for does; 0 asks for nothing.
unfoldable pub follow_advertisement : ℕ → ℕ → PushLock → PushLock
unfolding keeps_link reset_disconnect_timer
follow_advertisement now next_update p =
    if next_update == 0
    then p
    else if keeps_link now p
    then reset_disconnect_timer now (record p {
      link = record p.link { next_disconnect_delay = p.link.idle_disconnect_delay_pending_update };
    })
    else schedule now next_update p

-- An advertisement that is the lock's own.
unfoldable pub take_advertisement : ℕ → Text → List (ℕ × List ℕ) → PushLock → PushLock
unfolding follow_advertisement read_advertisement
take_advertisement now device mfr_data p =
    let (next_update, advertised) = read_advertisement mfr_data p.advertised in
    follow_advertisement now next_update
      (record p { identity = set_ble_device device p.identity; advertised = advertised })

-- `update_advertisement`
unfoldable pub update_advertisement :
    ℕ → Text → Option Text → List (ℕ × List ℕ) → PushLock → Result (Unit {0}) × PushLock
unfolding take_advertisement accepts
update_advertisement now device local_name mfr_data p =
    elim (accepts device local_name p.identity) [
      | err e ↦ (err e, p)
      | ok own ↦ (ok tt, if own then take_advertisement now device mfr_data p else p)
    ]
