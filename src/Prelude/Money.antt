-- ===== src/Prelude/Money.antt =====
-- Money is a whole number of cents. `Math.round` of a quotient, halves up, on numbers that are
-- not negative.
use Prim.Native.Nat.{ℕ, ◌+◌, ◌*◌, ◌/◌, ◌≤◌, ◌<◌}
use mathlib.Core.Path.{◌≡◌}
use native.Mathlib.Nat.{mul-div-mul_right}
use native.Mathlib.Omega.{arith}

-- `Math.round(n / d)`
unfoldable pub round_div : ℕ → ℕ → ℕ
round_div n d = (2 * n + d) / (2 * d)

-- Rounding is off by at most a half.
pub round_div_bounds :
    (n d : ℕ)
    → 0 < d
    → (2 * (round_div n d * d) ≤ 2 * n + d) × (2 * n < 2 * (round_div n d * d) + d)
unfolding round_div
round_div_bounds n d h = grind arith

pub round_div_exact : (k d : ℕ) → 0 < d → round_div (k * d) d ≡ k
unfolding round_div
round_div_exact k d h = grind arith

pub round_div_mono : (m n d : ℕ) → m ≤ n → round_div m d ≤ round_div n d
unfolding round_div
round_div_mono m n d h = grind arith

pub round_div_scale : (n d k : ℕ) → 0 < k → round_div (n * k) (d * k) ≡ round_div n d
unfolding round_div
round_div_scale n d k h =
    let numerator : 2 * (n * k) + d * k ≡ (2 * n + d) * k = omega arith in
    let denominator : 2 * (d * k) ≡ (2 * d) * k = omega arith in
    rw (numerator, denominator) (mul-div-mul_right (2 * n + d) (2 * d) h)

-- A requested sum is a number of units of 10^-10, of which a cent has this many.
abbrev pub units_per_cent : ℕ
units_per_cent = 100000000

-- A JavaScript number that reaches the program from outside, in a fixed unit.
pub data Amount : Type 0 where
  not_finite : Amount
  below_zero : ℕ → Amount  -- `below_zero n` is -(n + 1)
  at_least_zero : ℕ → Amount

-- `Number.isFinite(value) && value > 0 ? value : 0`
abbrev pub normalize_positive : Amount → ℕ
normalize_positive not_finite = 0
normalize_positive (below_zero _) = 0
normalize_positive (at_least_zero n) = n
