-- ===== src/EarnVault/Plans.antt =====
-- earn-vault.logic.ts. A stake that a request brings is in units of 10^-10 of the currency, so a
-- cent is 10^8 units, and the tolerance of 1e-8 cents is one unit.
pub mod Laws
use rabbit_backend.Prelude.{
  ℕ, ◌+◌, ◌-◌, ◌*◌, ◌/◌, Bool, true, false, ◌&&◌, ◌||◌, Option, none, some, List, [], ◌∷◌, min, max,
  ltb, leb, ◌==◌, if◌then◌else◌,
}
use Prim.Native.String.{String}
use text.Mathlib.Text.{◌==◌ as str_eq}
use rabbit_backend.Prelude.Doubles.{Fraction, least_mantissa, nearest_double}
use rabbit_backend.Prelude.Money.{
  units_per_cent, round_div, Amount, not_finite, below_zero, at_least_zero,
}

pub record Plan : Type 0 where
  pub id : String
  pub name : String
  pub duration_days : ℕ
  pub rate_percent : ℕ
  pub min_amount : ℕ
  pub max_amount : ℕ

-- `EARN_VAULT_PLANS`, without the accent colours
abbrev pub earn_vault_plans : List Plan
earn_vault_plans =
    record {
      id = "flexible";
      name = "Flexible Vault";
      duration_days = 0;
      rate_percent = 4;
      min_amount = 100;
      max_amount = 25000;
    }
    ∷ record {
      id = "starter";
      name = "Starter Vault";
      duration_days = 7;
      rate_percent = 7;
      min_amount = 500;
      max_amount = 50000;
    }
    ∷ record {
      id = "growth";
      name = "Growth Vault";
      duration_days = 14;
      rate_percent = 11;
      min_amount = 1000;
      max_amount = 75000;
    }
    ∷ record {
      id = "diamond";
      name = "Diamond Vault";
      duration_days = 30;
      rate_percent = 18;
      min_amount = 2500;
      max_amount = 100000;
    }
    ∷ []

abbrev pub ms_per_day : ℕ
ms_per_day = 86400000

abbrev pub ms_per_year : ℕ
ms_per_year = 365 * 86400000

-- The distance to the nearest whole cent, `Math.abs(cents - Math.round(cents))`.
unfoldable pub distance_to_cent : ℕ → ℕ
distance_to_cent n =
    let nearest = round_div n units_per_cent * units_per_cent in (n - nearest) + (nearest - n)

unfoldable pub is_valid_stake_amount : Amount → Bool
unfolding distance_to_cent
is_valid_stake_amount not_finite = false
is_valid_stake_amount (below_zero _) = false
is_valid_stake_amount (at_least_zero n) = ltb 0 n && ltb (distance_to_cent n) 1

-- The double of a requested number
unfoldable pub requested_double : ℕ → Fraction
unfolding nearest_double
requested_double n = nearest_double (record { num = n; den = 100 * units_per_cent })

-- `(numeric + Number.EPSILON) * MONEY_MULTIPLIER` of a number that is not negative, in doubles, then
-- `Math.floor`
unfoldable pub floor_to_cents : ℕ → ℕ
unfolding requested_double
floor_to_cents n =
    let x = requested_double n in
    let moved =
      nearest_double
        (record { num = x.num * least_mantissa + x.den; den = x.den * least_mantissa }) in
    let cents = nearest_double (record { num = moved.num * 100; den = moved.den }) in
    cents.num / cents.den

-- The same of a negative one, which `Math.floor` rounds away from zero
unfoldable pub ceiling_to_cents : ℕ → ℕ
unfolding requested_double
ceiling_to_cents n =
    let x = requested_double n in
    let moved =
      nearest_double
        (record { num = x.num * least_mantissa - x.den; den = x.den * least_mantissa }) in
    let cents = nearest_double (record { num = moved.num * 100; den = moved.den }) in
    (cents.num + cents.den - 1) / cents.den

-- `normaliseStakeAmount`, in cents
unfoldable pub normalise_stake_amount : Amount → Amount
unfolding floor_to_cents ceiling_to_cents
normalise_stake_amount not_finite = at_least_zero 0
normalise_stake_amount (below_zero n) = below_zero (ceiling_to_cents (n + 1) - 1)
normalise_stake_amount (at_least_zero n) = at_least_zero (floor_to_cents n)

unfoldable pub calculate_earn_vault_reward : ℕ → ℕ → ℕ → ℕ
calculate_earn_vault_reward amount rate_percent duration_days =
    if leb duration_days 0 then 0 else round_div (amount * rate_percent * duration_days) (100 * 365)

-- `now - starts_at` stops at 0, as `Math.max(0, …)` does.
unfoldable pub calculate_earn_vault_accrued_reward : ℕ → ℕ → ℕ → ℕ → ℕ
calculate_earn_vault_accrued_reward amount rate_percent starts_at now =
    round_div (amount * rate_percent * (now - starts_at)) (100 * ms_per_year)

abbrev pub is_earn_vault_flexible : ℕ → Bool
is_earn_vault_flexible duration_days = duration_days == 0

unfoldable pub find_plan : String → List Plan → Option Plan
find_plan id [] = none
find_plan id (p ∷ ps) = if str_eq p.id id then some p else find_plan id ps

unfoldable pub get_earn_vault_plan : String → Option Plan
unfolding find_plan
get_earn_vault_plan plan_id = find_plan plan_id earn_vault_plans

unfoldable pub get_earn_vault_end_date : ℕ → ℕ → ℕ
get_earn_vault_end_date start duration_days = start + duration_days * ms_per_day

unfoldable pub is_earn_vault_position_mature : ℕ → ℕ → ℕ → Bool
is_earn_vault_position_mature duration_days ends_at now =
    is_earn_vault_flexible duration_days || leb ends_at now

-- The progress in hundredths of a percent.
unfoldable pub calculate_earn_vault_progress : ℕ → ℕ → ℕ → ℕ
calculate_earn_vault_progress starts_at ends_at now =
    let total = ends_at - starts_at in
    if leb ends_at starts_at then 10000 else min 10000 (round_div ((now - starts_at) * 10000) total)
