-- ===== src/Push/AskOrder.antt =====
-- The order in which a coroutine asks, and the parts of a cycle that ask nothing: proofs.
use yalexs_ble.Prelude.{
  ℕ, ◌≡◌, ◌+◌, ◌≤◌, ◌<◌, Bool, true, false, List, [], ◌∷◌, arith, if◌then◌else◌,
}
use yalexs_ble.Errors.{Result, ok, err}
use yalexs_ble.Push.AutoLockRead.{Asked}
use yalexs_ble.Push.ActivityDrain.{DrainEffect}
use yalexs_ble.Push.Run.{
  Ask, lock_info, battery, door_status, auto_lock_status, lock_status, drain, slow_params, World,
  Progress, Run, then_run, ◌>>=◌, ask,
}
use yalexs_ble.Push.Reads.{record_auth, info_probed, battery_answered, setting_read}
use yalexs_ble.Push.Cycle.{drain_ended, slow_params_answered}

-- The place of a request in a cycle.
abbrev pub rank : Ask → ℕ
rank lock_info = 0
rank battery = 1
rank door_status = 2
rank auto_lock_status = 3
rank lock_status = 4
rank drain = 5
rank slow_params = 6
rank _ = 7

-- The last first, each of a lower rank than the one made after it, and all below a bound.
abbrev pub Descends : ℕ → List Ask → Type 0
Descends bound [] = Unit
Descends bound (request ∷ earlier) = (rank request < bound) × Descends (rank request) earlier

pub Descends-le : (m n : ℕ) (asked : List Ask) → m ≤ n → Descends m asked → Descends n asked
Descends-le m n [] h d = tt
Descends-le m n (request ∷ earlier) h (low, d) = (omega arith, d)

-- A step that asks for requests between two ranks at most.
abbrev pub KeepsOrder : {A : Type 0} → ℕ → ℕ → Run A → Type 0
KeepsOrder m n run = (s : Progress) → Descends m s.asked → Descends n (run s).1.asked

module _ {A B : Type 0} where
  pub >>=-KeepsOrder :
      (l m n : ℕ) (run : Run A) (next : A → Run B)
      → m ≤ n
      → KeepsOrder l m run
      → ((a : A) → KeepsOrder m n (next a))
      → KeepsOrder l n (run >>= next)
  >>=-KeepsOrder l m n run next h first later s d = after (run s).0 (run s).1 (first s d)
    where
      after :
          (r : Result A) (t : Progress)
          → Descends m t.asked
          → Descends n (then_run next r t).1.asked
      after (ok a) t e = later a t e
      after (err x) t e = Descends-le m n t.asked h e

module _ {A : Type 0} where
  pub if-Descends :
      (n : ℕ) (b : Bool) (x y : Result A × Progress)
      → Descends n x.1.asked
      → Descends n y.1.asked
      → Descends n (if b then x else y).1.asked
  if-Descends n true x y d e = d
  if-Descends n false x y d e = e

pub ask-KeepsOrder : (world : World) (r : Ask) → KeepsOrder (rank r) (rank r + 1) (ask world r)
unfolding ask
ask-KeepsOrder world r s d = (omega arith, d)

-- The parts that ask nothing.
module _ (world : World) where
  pub info_probed-asked :
      (r : Result (Unit {0})) (s : Progress) → (info_probed world r s).1.asked ≡ s.asked
  unfolding info_probed
  info_probed-asked r s = ground arith

  pub setting_read-asked :
      (start : ℕ) (r : Result Asked) (made : Bool) (s : Progress)
      → (setting_read world start r made s).1.asked ≡ s.asked
  unfolding setting_read record_auth
  setting_read-asked start r made s = ground arith

  pub battery_answered-asked :
      (start : ℕ) (r : Result (Unit {0})) (s : Progress)
      → (battery_answered world start r s).1.asked ≡ s.asked
  unfolding battery_answered record_auth
  battery_answered-asked start (ok _) s = ground arith
  battery_answered-asked start (err e) s = ground arith

pub drain_ended-asked :
    (effect : DrainEffect) (s : Progress) → (drain_ended effect s).1.asked ≡ s.asked
unfolding drain_ended
drain_ended-asked effect s = ground arith

pub slow_params_answered-asked :
    (r : Result (Unit {0})) (s : Progress) → (slow_params_answered r s).1.asked ≡ s.asked
unfolding slow_params_answered
slow_params_answered-asked r s = ground arith
