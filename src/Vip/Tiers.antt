-- ===== src/Vip/Tiers.antt =====
-- vip-rewards.logic.ts: the tiers and the choice of a tier by experience.
pub mod Choice
use rabbit_backend.Prelude.{
  ℕ, suc, ◌+◌, ◌*◌, ◌≡◌, refl, Bool, true, false, List, [], ◌∷◌, leb, if◌then◌else◌,
}
use rabbit_backend.Prelude.Money.{Amount, normalize_positive}

pub data TierId : Type 0 where
  bronze gold diamond black : TierId

pub data ManagerLevel : Type 0 where
  community standard priority personal : ManagerLevel

-- Amounts and thresholds in hundredths, `cashback_rate` in tenths of a percent,
-- `deposit_bonus_rate` in percent.
pub record Tier : Type 0 where
  pub id : TierId
  pub threshold : ℕ
  pub cashback_rate : ℕ
  pub weekly_cashback_cap : ℕ
  pub deposit_bonus_rate : ℕ
  pub deposit_bonus_cap : ℕ
  pub deposit_min_amount : ℕ
  pub deposit_wagering_multiplier : ℕ
  pub manager_level : ManagerLevel

abbrev pub bronze_tier : Tier
bronze_tier = record {
  id = bronze;
  threshold = 0;
  cashback_rate = 10;
  weekly_cashback_cap = 500;
  deposit_bonus_rate = 3;
  deposit_bonus_cap = 1000;
  deposit_min_amount = 1000;
  deposit_wagering_multiplier = 8;
  manager_level = community;
}

abbrev pub gold_tier : Tier
gold_tier = record {
  id = gold;
  threshold = 50000;
  cashback_rate = 35;
  weekly_cashback_cap = 5000;
  deposit_bonus_rate = 7;
  deposit_bonus_cap = 3500;
  deposit_min_amount = 2000;
  deposit_wagering_multiplier = 10;
  manager_level = priority;
}

abbrev pub diamond_tier : Tier
diamond_tier = record {
  id = diamond;
  threshold = 500000;
  cashback_rate = 70;
  weekly_cashback_cap = 25000;
  deposit_bonus_rate = 12;
  deposit_bonus_cap = 12500;
  deposit_min_amount = 5000;
  deposit_wagering_multiplier = 12;
  manager_level = personal;
}

abbrev pub black_tier : Tier
black_tier = record {
  id = black;
  threshold = 1500000;
  cashback_rate = 100;
  weekly_cashback_cap = 50000;
  deposit_bonus_rate = 15;
  deposit_bonus_cap = 25000;
  deposit_min_amount = 10000;
  deposit_wagering_multiplier = 15;
  manager_level = personal;
}

-- `VIP_TIERS`
abbrev pub vip_tiers : List Tier
vip_tiers = bronze_tier ∷ gold_tier ∷ diamond_tier ∷ black_tier ∷ []

-- The `reduce` of `getVipTierForXp`.
unfoldable pub reduce_tiers : ℕ → Tier → List Tier → Tier
reduce_tiers xp current [] = current
reduce_tiers xp current (tier ∷ tiers) =
    reduce_tiers xp (if leb tier.threshold xp then tier else current) tiers

unfoldable pub get_vip_tier_for_xp : Amount → Tier
unfolding reduce_tiers
get_vip_tier_for_xp vip_xp = reduce_tiers (normalize_positive vip_xp) bronze_tier vip_tiers

abbrev pub same_tier : TierId → TierId → Bool
same_tier bronze bronze = true
same_tier gold gold = true
same_tier diamond diamond = true
same_tier black black = true
same_tier _ _ = false

-- `findIndex`, one higher: 0 where no candidate has the id.
unfoldable pub find_index : TierId → List Tier → ℕ
find_index id [] = 0
find_index id (tier ∷ tiers) =
    let rest = find_index id tiers in
    if same_tier tier.id id then 1 else (if leb rest 0 then 0 else suc rest)

-- `tierMeetsRequirement`; both indices are one higher.
unfoldable pub tier_meets_requirement : Tier → TierId → Bool
unfolding find_index
tier_meets_requirement tier required =
    leb (find_index required vip_tiers) (find_index tier.id vip_tiers)
