-- ===== src/Prelude/Bits.antt =====
-- `|` on numbers that share no binary digit is `+`.
use Prim.Native.Nat.{
  ℕ, zero, suc, ◌+◌, ◌*◌, ◌/◌, ◌%◌, ◌^◌, ◌≤◌, ◌<◌, max, bit_or, digits, bit_or-bitwise,
}
use mathlib.Core.Path.{◌≡◌, refl, ap}
use native.Mathlib.Omega.{arith}
use native.Mathlib.Nat.{pow-suc}

abbrev or_steps : ℕ → ℕ → ℕ → ℕ
or_steps fuel a b = digits (λ y. y) max fuel a b

-- Any fuel from the first number on gives the same digits.
or_steps_enough : (a fuel more b : ℕ) → a ≤ fuel → a ≤ more → or_steps fuel a b ≡ or_steps more a b
or_steps_enough zero zero zero b h k = refl
or_steps_enough zero zero (suc more) b h k = refl
or_steps_enough zero (suc fuel) zero b h k = refl
or_steps_enough zero (suc fuel) (suc more) b h k = refl
or_steps_enough (suc a) zero more b h k = absurd (omega arith)
or_steps_enough (suc a) (suc fuel) zero b h k = absurd (omega arith)
or_steps_enough (suc a) (suc fuel) (suc more) b h k =
    omega (arith, or_steps_enough (suc a / 2) fuel more (b / 2) (omega arith) (omega arith))

zero-bit_or : (b : ℕ) → bit_or 0 b ≡ b
zero-bit_or b = bit_or-bitwise 0 b

-- The lowest digit, apart from the others.
bit_or_step : (a b : ℕ) → bit_or a b ≡ bit_or (a / 2) (b / 2) * 2 + max (a % 2) (b % 2)
bit_or_step zero b = let whole = zero-bit_or b in let half = zero-bit_or (b / 2) in omega arith
bit_or_step (suc a) b =
    let fuels = or_steps_enough (suc a / 2) a (suc a / 2) (b / 2) (omega arith) (omega arith) in
    let half = bit_or-bitwise (suc a / 2) (b / 2) in
    omega (arith, bit_or-bitwise (suc a) b, half, fuels)

mul-pow-suc : (b k : ℕ) → b * 2 ^ suc k ≡ 2 * (b * 2 ^ k)
mul-pow-suc b k = omega (arith, ap (λ (t : ℕ). b * t) (pow-suc 2 k))

-- `a | (b << k)` is a sum when `a` has at most `k` bits.
pub bit_or_shifted : (k a b : ℕ) → a < 2 ^ k → bit_or a (b * 2 ^ k) ≡ a + b * 2 ^ k
bit_or_shifted zero a b h = ground (arith, zero-bit_or (b * 2 ^ 0))
bit_or_shifted (suc k) a b h =
    ground (
      arith,
      bit_or_step a (b * 2 ^ suc k),
      mul-pow-suc b k,
      pow-suc 2 k,
      bit_or_shifted k (a / 2) b,
    )
