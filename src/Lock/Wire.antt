-- ===== src/Lock/Wire.antt =====
-- lock.py: commands in sequence. A method of `Lock` is a function of the requests sent so far, and
-- yields its result and the requests then sent. What the session returns for a request, and
-- whether the lock is connected, is given by the number of requests before it.
use yalexs_ble.Prelude.{ℕ, Bool, not, Option, List, [], ◌∷◌, ◌++◌, length, if◌then◌else◌}
use yalexs_ble.Errors.{Result, ok, err, disconnected_error}

-- What a keypad command calls `session.execute` with: the command before its checksum, and the slot
-- of the keycode matcher.
pub record Request : Type 0 where
  pub command : List ℕ
  pub slot : Option ℕ

pub record Link : Type 0 where
  pub answers : ℕ → Result (List ℕ)
  pub connected : ℕ → Bool

-- Requests of the type R.
abbrev pub Exchange : Type 0 → Type 0 → Type 0
Exchange R A = List R → Result A × List R

module _ {R A B : Type 0} where
  abbrev pub continue : (A → Exchange R B) → Result A → Exchange R B
  continue k (ok a) sent = k a sent
  continue k (err e) sent = (err e, sent)

infixl 5 ◌>>=◌ ◌>>◌
abbrev pub ◌>>=◌ : {R A B : Type 0} → Exchange R A → (A → Exchange R B) → Exchange R B
(m >>= k) sent = continue k (m sent).0 (m sent).1

abbrev pub ◌>>◌ : {R A B : Type 0} → Exchange R A → Exchange R B → Exchange R B
m >> k = m >>= λ _. k

-- Code that only computes.
abbrev pub lift : {R A : Type 0} → Result A → Exchange R A
lift r sent = (r, sent)

-- `session.execute`
abbrev pub execute : {R : Type 0} → Link → R → Exchange R (List ℕ)
execute link request sent = (link.answers (length sent), sent ++ request ∷ [])

-- `raise_if_not_connected`
abbrev pub raise_if_not_connected : {R A : Type 0} → Link → Exchange R A → Exchange R A
raise_if_not_connected link body sent =
    if not (link.connected (length sent)) then (err disconnected_error, sent) else body sent
