-- ===== src/Tests/Links.antt =====
-- Runs of the watcher's timers, of its updates' ends and of its advertisements.
use yalexs_ble.Prelude.{
  ℕ, ◌≡◌, ◌≢◌, refl, ◌≤◌, ◌⊎◌, inr, true, false, Option, none, some, List, [], ◌∷◌, codes, arith,
}
use yalexs_ble.Errors.{ok, err, assertion_error, invalid_state_error, timeout_error}
use yalexs_ble.Const.{AutoLockState, timer, off}
use yalexs_ble.Util.Names.{local_name_is_unique}
use yalexs_ble.Push.Identity.{Identity, identify, accepts}
use yalexs_ble.Push.PushLock.{PushLock, pending, resolved, keep_alive}
use yalexs_ble.Push.Lifecycle.{Coroutine, start, execute_deferred_update}
use yalexs_ble.Push.LifecycleLaws.{second_update_raises}
use yalexs_ble.Push.StopLaws.{Firings, idle, fires_then, keep_alive_fires, Firings-run_dry}
use yalexs_ble.Push.AutoLockWrite.{known_off, set_auto_lock_mode}
use yalexs_ble.Push.AutoLockWriteLaws.{Writes, set_auto_lock_mode-Writes}
use yalexs_ble.Push.Advertisement.{select_yale_payload, read_advertisement}
use yalexs_ble.Push.UpdateAdvertisement.{update_advertisement}
use yalexs_ble.Push.UpdateAdvertisementLaws.{
  awaits_push, Followed, update_advertisement-Followed, foreign_advertisement_raises,
}
use yalexs_ble.Tests.WatcherData.{linked_lock}

-- The same watcher, with an update running and what its future holds.
abbrev updating : PushLock
updating = record linked_lock {
  link = record linked_lock.link { update_in_flight = true; first_update = pending };
}

abbrev answered_before : PushLock
answered_before = record updating {
  link = record updating.link { first_update = resolved (ok tt) };
}

abbrev acquires : Coroutine
acquires p = (ok tt, p)

abbrev times_out : Coroutine
times_out p = (err timeout_error, p)

abbrev succeeds : Coroutine
succeeds p = (ok tt, p)

second_update_raises_example :
    let end = execute_deferred_update acquires 90010000 succeeds 90012000 answered_before in
    (end.0 ≡ err invalid_state_error) × (end.1.link.reconnect_backoff ≡ 0)
second_update_raises_example =
    second_update_raises acquires succeeds 90010000 90012000 answered_before answered_before
      answered_before refl refl (omega arith) (ok tt) refl refl

-- A watcher that was stopped, with its keep-alive standing.
abbrev stopped_lock : PushLock
stopped_lock = record linked_lock { watcher = record linked_lock.watcher { running = false } }

abbrev ticked : PushLock
ticked =
    (keep_alive 90020000
      (record stopped_lock { link = record stopped_lock.link { keep_alive_timer = none } })).1

abbrev one_firing : Firings acquires succeeds 1 stopped_lock ticked
one_firing =
    fires_then 0 stopped_lock ticked ticked
      (keep_alive_fires 90020000 stopped_lock (omega arith) refl) (idle ticked)

Firings-run_dry_example : (1 ≤ 6) × (ticked.watcher.published ≡ stopped_lock.watcher.published)
Firings-run_dry_example =
    Firings-run_dry acquires succeeds 1 stopped_lock ticked one_firing
      (record { stopped = refl; rests = refl })

abbrev off_setting : Option AutoLockState
off_setting = some (record { mode = off; duration = 0 })

set_auto_lock_mode-Writes_example :
    ((set_auto_lock_mode timer off_setting none ≡ none)
      × (timer ≡ off)
      × (known_off off_setting ≡ true))
    ⊎ Writes timer (set_auto_lock_mode timer off_setting none)
set_auto_lock_mode-Writes_example = set_auto_lock_mode-Writes timer off_setting none (inr refl) tt

-- The lock was locked and is unlocked.
abbrev unlocks : List (ℕ × List ℕ)
unlocks = (465, 1 ∷ []) ∷ []

own : accepts (codes "AA:BB") none linked_lock.identity ≡ ok true
unfolding accepts local_name_is_unique
own = refl

asks : (read_advertisement unlocks linked_lock.advertised).0 ≢ 0
unfolding read_advertisement select_yale_payload
asks h = absurd (ground arith)

update_advertisement-Followed_example :
    Followed 90000000
      (read_advertisement unlocks linked_lock.advertised).0
      (awaits_push 90000000 linked_lock)
      linked_lock.watcher
      linked_lock.link
      (update_advertisement 90000000 (codes "AA:BB") none unlocks linked_lock).1
update_advertisement-Followed_example =
    update_advertisement-Followed 90000000 (codes "AA:BB") none unlocks linked_lock own asks

-- A watcher by its unique local name, as the example of the repository makes it.
abbrev by_name : Identity
by_name = record { local_name = some (codes "M1012LU"); name = none; address = none; device = none }

abbrev named_lock : PushLock
named_lock = record stopped_lock { identity = by_name }

made_by_name : identify (some (codes "M1012LU")) none none ≡ ok by_name
unfolding identify local_name_is_unique
made_by_name = refl

foreign_advertisement_raises_example :
    (update_advertisement 90000000 (codes "CC:DD") none unlocks named_lock
      ≡ (err assertion_error, named_lock))
    × ((start 90000000 none named_lock).0 ≡ err assertion_error)
    × ((start 90000000 none named_lock).1.watcher.running ≡ true)
foreign_advertisement_raises_example =
    foreign_advertisement_raises 90000000 (codes "M1012LU") (codes "CC:DD") none unlocks none
      named_lock made_by_name refl refl
