-- ===== src/Vip/Rewards.antt =====
-- vip-rewards.logic.ts: the cashback at hand and the availability of a reward case.
use rabbit_backend.Prelude.{
  ℕ, ◌+◌, ◌-◌, ◌*◌, ◌≤◌, ◌≡◌, Bool, true, false, not, ◌&&◌, Option, none, some, min, max, ltb, leb,
  if◌then◌else◌, inl, inr, Bool-cases, arith,
}
use rabbit_backend.Prelude.Money.{round_div}
use rabbit_backend.Vip.Tiers.{Tier, tier_meets_requirement}
use rabbit_backend.Vip.Cases.{CaseConfig}
use rabbit_backend.Vip.Periods.{get_vip_case_period}

-- `cashback_rate` is in tenths of a percent.
unfoldable pub gross_cashback : Tier → ℕ → ℕ
gross_cashback tier rake = round_div (rake * tier.cashback_rate) 1000

unfoldable pub calculate_available_cashback : Tier → ℕ → ℕ → ℕ
calculate_available_cashback tier period_theoretical_rake claimed_cashback =
    min (gross_cashback tier period_theoretical_rake) tier.weekly_cashback_cap - claimed_cashback

pub data LockedReason : Type 0 where
  tier activity cooldown : LockedReason

pub record Availability : Type 0 where
  pub can_open : Bool
  pub locked_reason : Option LockedReason
  pub missing_theoretical_rake : ℕ
  pub next_open_at : Option ℕ
  pub period_start : ℕ
  pub period_end : ℕ

unfoldable pub locked_reason_of : Bool → ℕ → ℕ → Option LockedReason
locked_reason_of meets opened missing =
    if not meets
    then some tier
    else if ltb 0 opened
    then some cooldown
    else if ltb 0 missing
    then some activity
    else none

abbrev pub is_unlocked : Option LockedReason → Bool
is_unlocked none = true
is_unlocked (some _) = false

abbrev pub reopening : Option LockedReason → ℕ → Option ℕ
reopening (some cooldown) end = some end
reopening _ end = none

unfoldable pub calculate_vip_case_availability : Tier → CaseConfig → ℕ → ℕ → ℕ → Availability
unfolding locked_reason_of
calculate_vip_case_availability t c period_theoretical_rake opened_this_period now =
    let period = get_vip_case_period c.kind now in
    let missing = c.min_theoretical_rake - period_theoretical_rake in
    let reason =
      locked_reason_of (tier_meets_requirement t c.required_tier_id) opened_this_period missing in
    record {
      can_open = is_unlocked reason;
      locked_reason = reason;
      missing_theoretical_rake = missing;
      next_open_at = reopening reason period.end;
      period_start = period.start;
      period_end = period.end;
    }

-- A case can be opened exactly if the tier suffices, it has not been opened in the period, and the
-- rake of the period reaches the minimum; a deadline is given exactly for an opened case of a
-- sufficient tier, and it is the end of the period.
pub calculate_vip_case_availability_lem :
    (t : Tier) (c : CaseConfig) (rake opened now : ℕ)
    → let a = calculate_vip_case_availability t c rake opened now in
      let meets = tier_meets_requirement t c.required_tier_id in
      (a.can_open ≡ (meets && leb opened 0 && leb c.min_theoretical_rake rake))
      × (a.next_open_at
          ≡ (if meets && ltb 0 opened then some (get_vip_case_period c.kind now).end else none))
unfolding calculate_vip_case_availability
calculate_vip_case_availability_lem t c rake opened now =
    elim (Bool-cases (tier_meets_requirement t c.required_tier_id)) [
      | inl yes_tier ↦ rw yes_tier (ground arith)
      | inr no_tier ↦ rw no_tier (ground arith)
    ]

-- What may be claimed and what has been claimed stay within the weekly cap, unless more than the
-- cap had been claimed before; and once it is claimed, nothing is left.
pub calculate_available_cashback_bounds :
    (t : Tier) (rake claimed : ℕ)
    → let available = calculate_available_cashback t rake claimed in
      (claimed + available ≤ max claimed t.weekly_cashback_cap)
      × (calculate_available_cashback t rake (claimed + available) ≡ 0)
unfolding calculate_available_cashback
calculate_available_cashback_bounds t rake claimed = omega arith
