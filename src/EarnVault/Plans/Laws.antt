-- ===== src/EarnVault/Plans/Laws.antt =====
-- The validation of a stake, and the growth of a reward.
use rabbit_backend.Prelude.{ℕ, ◌+◌, ◌-◌, ◌*◌, ◌/◌, ◌≤◌, ◌<◌, ◌≡◌, true, false, leb, arith}
use rabbit_backend.Prelude.Money.{
  units_per_cent, round_div, round_div_mono, round_div_scale, at_least_zero,
}
use rabbit_backend.EarnVault.Plans.{
  ms_per_day, ms_per_year, is_valid_stake_amount, calculate_earn_vault_reward,
  calculate_earn_vault_accrued_reward, get_earn_vault_end_date,
}

-- A stake that is accepted is a positive whole number of cents.
pub is_valid_stake_amount_exact :
    (n : ℕ)
    → is_valid_stake_amount (at_least_zero n) ≡ true
    → (cents : ℕ) × (n ≡ cents * units_per_cent) × (0 < cents)
unfolding is_valid_stake_amount round_div
is_valid_stake_amount_exact n h = (n / units_per_cent, ground arith, ground arith)

mul_reassoc : (a b c : ℕ) → a * (b * c) ≡ a * b * c
mul_reassoc a b c = omega arith

-- Over the whole term of a plan of some days, the reward that accrues by the millisecond is the
-- fixed reward; it never falls as time passes.
pub accrued_reward_of_term :
    (amount rate days starts_at now later : ℕ)
    → 0 < days
    → now ≤ later
    → (calculate_earn_vault_accrued_reward amount rate starts_at
          (get_earn_vault_end_date starts_at days)
        ≡ calculate_earn_vault_reward amount rate days)
      × (calculate_earn_vault_accrued_reward amount rate starts_at now
          ≤ calculate_earn_vault_accrued_reward amount rate starts_at later)
unfolding calculate_earn_vault_accrued_reward get_earn_vault_end_date calculate_earn_vault_reward
accrued_reward_of_term amount rate days starts_at now later p h =
    let elapsed : amount * rate * (starts_at + days * ms_per_day - starts_at)
        ≡ amount * rate * days * ms_per_day =
      let span : starts_at + days * ms_per_day - starts_at ≡ days * ms_per_day = omega arith in
      rw span (mul_reassoc (amount * rate) days ms_per_day) in
    let some_days : leb days 0 ≡ false = ground arith in
    (
      rw (elapsed, some_days)
          (round_div_scale (amount * rate * days) (100 * 365) ms_per_day (omega arith)),
      round_div_mono _ _ (100 * ms_per_year) (grind arith),
    )
