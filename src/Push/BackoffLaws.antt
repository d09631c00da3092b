-- ===== src/Push/BackoffLaws.antt =====
-- The reconnect delay doubles up to a minute.
use yalexs_ble.Prelude.{ℕ, zero, suc, ◌≡◌, refl, ap, ◌∙◌, ◌*◌, ◌^◌, ◌≤◌, min, true, false, arith}
use native.Mathlib.Numerals.{unary_clauses}
use yalexs_ble.Push.Backoff.{record_update_outcome, finish_update}

-- The backoff after some updates that failed in a row, the first after a success.
abbrev pub after_failures : ℕ → ℕ
after_failures zero = record_update_outcome false 0
after_failures (suc n) = finish_update false false true (after_failures n)

one_more_failure :
    (power : ℕ)
    → 1 ≤ power
    → finish_update false false true (min 60000 (2000 * power)) ≡ min 60000 (2000 * (power * 2))
unfolding finish_update record_update_outcome
one_more_failure power h = ground arith

power-positive : (n : ℕ) → 1 ≤ 2 ^ n
power-positive zero = omega arith
power-positive (suc n) = simp unary_clauses (omega (arith, power-positive n))

first_failure : after_failures 1 ≡ 2000
unfolding finish_update record_update_outcome
first_failure = refl

-- After n + 1 failed updates in a row a reconnect waits 2 * 2^n s, and never more than 60 s.
pub after_failures-doubles : (n : ℕ) → after_failures (suc n) ≡ min 60000 (2000 * 2 ^ n)
after_failures-doubles zero = first_failure
after_failures-doubles (suc n) = simp unary_clauses (
    ap (finish_update false false true) (after_failures-doubles n)
    ∙ one_more_failure (2 ^ n) (power-positive n))
