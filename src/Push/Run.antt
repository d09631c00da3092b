-- ===== src/Push/Run.antt =====
-- push.py: an update cycle as a coroutine, a function of where the cycle stands, `Progress`. What
-- happens at each request to the lock, and what is reported until it ends, is given by the number of
-- requests before it.
use yalexs_ble.Prelude.{ℕ, List, ◌∷◌, length, Text}
use yalexs_ble.Errors.{Result, ok, err}
use yalexs_ble.Const.{LockInfo, Activity}
use yalexs_ble.Lock.Activity.{Drained}
use yalexs_ble.Push.State.{Consumers, callback_result}
use yalexs_ble.Push.PushLock.{PushLock}
use yalexs_ble.Push.Events.{Event, handle_events}
use yalexs_ble.Push.Connect.{Joining, ensure_connected}

-- What is asked of the lock: by a cycle, and by the operations that the consumers call.
pub data Ask : Type 0 where
  lock_info battery door_status auto_lock_status lock_status drain slow_params : Ask
  set_auto_lock keypad force : Ask

-- A wait for the lock: what is reported meanwhile, when it ends and how.
pub record Wait : Type 0 where
  pub heard : List Event
  pub at : ℕ
  pub outcome : Result (Unit {0})

-- What a cycle meets; `info` is what a probe that returns has read, `drained` what the drain yields
-- and how it ends, `address` the lock's, `consumers` what stands for them after so many requests.
pub record World : Type 0 where
  pub joining : Joining
  pub waits : ℕ → Wait
  pub info : LockInfo
  pub drained : Drained
  pub consumers : ℕ → Consumers
  pub address : Text

-- Where a cycle stands; what was asked, the last first.
pub record Progress : Type 0 where
  pub lock : PushLock
  pub now : ℕ
  pub asked : List Ask
  pub delivered : List Activity

abbrev pub Run : Type 0 → Type 0
Run A = Progress → Result A × Progress

abbrev pub then_run : {A B : Type 0} → (A → Run B) → Result A → Run B
then_run k (ok a) s = k a s
then_run k (err e) s = (err e, s)

infixl 5 ◌>>=◌ ◌>>◌
abbrev pub ◌>>=◌ : {A B : Type 0} → Run A → (A → Run B) → Run B
(m >>= k) s = then_run k (m s).0 (m s).1

abbrev pub ◌>>◌ : {A B : Type 0} → Run A → Run B → Run B
m >> k = m >>= λ _. k

abbrev pub return : {A : Type 0} → A → Run A
return a s = (ok a, s)

-- Code without a wait, at the time that the last one ended.
abbrev pub modify : (ℕ → PushLock → PushLock) → Run (Unit {0})
modify f s = (ok tt, record s { lock = f s.now s.lock })

-- A wait, from the state in which it begins.
unfoldable pub ask : World → Ask → Run (Unit {0})
ask world request s =
    let wait = world.waits (length s.asked) in
    (
      wait.outcome,
      record s { lock = handle_events wait.heard s.lock; now = wait.at; asked = request ∷ s.asked },
    )

-- What `_callback_state` ends with at this point.
abbrev pub called : World → Progress → Result (Unit {0})
called world s = callback_result (world.consumers (length s.asked)) s.lock.lock_info

-- `_ensure_connected`
unfoldable pub connect : World → Run (Unit {0})
connect world s =
    let (result, p) = ensure_connected s.now world.joining s.lock in
    (result, record s { lock = p; now = world.joining.at })
