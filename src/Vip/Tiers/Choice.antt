-- ===== src/Vip/Tiers/Choice.antt =====
-- Which tier the reduction chooses.
use rabbit_backend.Prelude.{ℕ, ◌≤◌, ◌<◌, ◌≡◌, All, leb, ◌⊎◌, arith}
use rabbit_backend.Prelude.Money.{Amount, normalize_positive}
use rabbit_backend.Vip.Tiers.{
  TierId, Tier, bronze_tier, gold_tier, diamond_tier, black_tier, vip_tiers, get_vip_tier_for_xp,
  tier_meets_requirement,
}

-- `t` is the best tier that `xp` reaches: it is one of the four, it is reached, and no tier that is
-- reached has a higher threshold.
pub record IsBest (xp : ℕ) (t : Tier) : Type 0 where
  pub listed : (t ≡ bronze_tier) ⊎ (t ≡ gold_tier) ⊎ (t ≡ diamond_tier) ⊎ (t ≡ black_tier)
  pub reached : t.threshold ≤ xp
  pub highest : All (λ (u : Tier). (xp < u.threshold) ⊎ (u.threshold ≤ t.threshold)) vip_tiers

-- For every experience, also one that is negative or no number, the tier chosen is the one with the
-- highest threshold among the tiers that the experience reaches.
pub get_vip_tier_for_xp-IsBest :
    (vip_xp : Amount) → IsBest (normalize_positive vip_xp) (get_vip_tier_for_xp vip_xp)
unfolding get_vip_tier_for_xp
get_vip_tier_for_xp-IsBest vip_xp = ground arith

-- The threshold of each tier, as the table lists it.
abbrev pub threshold_of : TierId → ℕ
threshold_of TierId.bronze = 0
threshold_of TierId.gold = 50000
threshold_of TierId.diamond = 500000
threshold_of TierId.black = 1500000

-- The tier chosen for an experience meets the requirement of a tier exactly when the experience
-- reaches that tier's threshold.
pub tier_meets_requirement_iff :
    (vip_xp : Amount) (required : TierId)
    → tier_meets_requirement (get_vip_tier_for_xp vip_xp) required
      ≡ leb (threshold_of required) (normalize_positive vip_xp)
unfolding get_vip_tier_for_xp tier_meets_requirement
tier_meets_requirement_iff vip_xp TierId.bronze = ground arith
tier_meets_requirement_iff vip_xp TierId.gold = ground arith
tier_meets_requirement_iff vip_xp TierId.diamond = ground arith
tier_meets_requirement_iff vip_xp TierId.black = ground arith

-- More experience never gives a lower tier.
pub get_vip_tier_for_xp_mono :
    (xp xp' : ℕ)
    → xp ≤ xp'
    → (get_vip_tier_for_xp (Amount.at_least_zero xp)).threshold
      ≤ (get_vip_tier_for_xp (Amount.at_least_zero xp')).threshold
unfolding get_vip_tier_for_xp
get_vip_tier_for_xp_mono xp xp' h = ground arith
