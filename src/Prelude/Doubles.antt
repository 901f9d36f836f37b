-- ===== src/Prelude/Doubles.antt =====
-- The positive doubles of JavaScript as fractions: the nearest one to a fraction, ties to even, for
-- values that are no subnormal numbers.
use Prim.Native.Nat.{ℕ, zero, suc, ◌+◌, ◌-◌, ◌*◌, ◌/◌}
use rabbit_backend.Prelude.Tests.{ltb, leb, ◌==◌, if◌then◌else◌}
use mathlib.Core.Bool.{true, false, ◌&&◌, ◌||◌}

pub record Fraction : Type 0 where
  pub num : ℕ
  pub den : ℕ

-- 2 ^ 52, the least mantissa, which is also one over Number.EPSILON
abbrev pub least_mantissa : ℕ
least_mantissa = 4503599627370496

-- More doublings than there are exponents of a double
abbrev pub most_doublings : ℕ
most_doublings = 1100

-- The number doubled until it is no less than the bound, and how often
unfoldable pub double_until : ℕ → ℕ → ℕ → ℕ × ℕ
double_until zero x bound = (x, 0)
double_until (suc fuel) x bound = elim (leb bound x) [
  | true ↦ (x, 0)
  | false ↦ let (y, k) = double_until fuel (x * 2) bound in (y, k + 1)
]

abbrev pub power_of_two : ℕ → ℕ
power_of_two zero = 1
power_of_two (suc k) = 2 * power_of_two k

-- The quotient rounded to a whole number, ties to even
unfoldable pub round_half_even : ℕ → ℕ → ℕ
round_half_even p q =
    let d = p / q in
    let twice = (p - d * q) * 2 in
    if ltb twice q || ((twice == q) && (d / 2 * 2 == d)) then d else d + 1

-- The double that is nearest to the fraction: a mantissa of 53 bits over or times a power of two
unfoldable pub nearest_double : Fraction → Fraction
unfolding double_until round_half_even
nearest_double x =
    let (p, down) = double_until most_doublings x.num (x.den * least_mantissa) in
    let (q, up) = double_until most_doublings (x.den * (2 * least_mantissa)) (x.num + 1) in
    if 0 == down
    then record {
      num = round_half_even x.num (q / (2 * least_mantissa)) * power_of_two up;
      den = 1;
    }
    else record { num = round_half_even p x.den; den = power_of_two down }
