-- ===== src/Vip/Cases.antt =====
-- vip-rewards.logic.ts: the reward cases, their ticket ranges and the draw. Amounts in cents. A
-- random number u / d stands for a value of `random()`.
pub mod Draw
use rabbit_backend.Prelude.{
  ℕ, ◌+◌, ◌*◌, ◌/◌, Bool, true, false, ◌&&◌, ◌||◌, Option, none, some, List, [], ◌∷◌, map, min, max,
  leb, if◌then◌else◌,
}
use Prim.Native.String.{String}
use text.Mathlib.Text.{◌==◌ as str_eq}
use rabbit_backend.Prelude.Money.{round_div}
use rabbit_backend.Vip.Tiers.{TierId, bronze, gold, diamond, black}

pub data CaseType : Type 0 where
  daily_case gold_case diamond_case black_case : CaseType

pub data Cooldown : Type 0 where
  daily weekly monthly : Cooldown

pub record WeightedReward : Type 0 where
  pub amount : ℕ
  pub weight : ℕ

pub record CaseConfig : Type 0 where
  pub kind : CaseType
  pub name : String  -- the text of `type`
  pub slug : String
  pub required_tier_id : TierId
  pub cooldown : Cooldown
  pub min_theoretical_rake : ℕ
  pub rewards : List WeightedReward

abbrev pub reward : ℕ × ℕ → WeightedReward
reward (amount, weight) = record { amount = amount; weight = weight }

-- `VIP_REWARD_CASES`
abbrev pub vip_reward_cases : CaseType → CaseConfig
vip_reward_cases daily_case = record {
  kind = daily_case;
  name = "daily";
  slug = "daily-spark";
  required_tier_id = bronze;
  cooldown = daily;
  min_theoretical_rake = 50;
  rewards =
      reward (2, 2200)
      ∷ reward (3, 2200)
      ∷ reward (5, 1800)
      ∷ reward (8, 1400)
      ∷ reward (10, 1000)
      ∷ reward (15, 700)
      ∷ reward (25, 400)
      ∷ reward (50, 200)
      ∷ reward (100, 80)
      ∷ reward (200, 20)
      ∷ [];
}
vip_reward_cases gold_case = record {
  kind = gold_case;
  name = "gold";
  slug = "vip-gold";
  required_tier_id = gold;
  cooldown = weekly;
  min_theoretical_rake = 1500;
  rewards =
      reward (25, 2000)
      ∷ reward (50, 2500)
      ∷ reward (75, 1800)
      ∷ reward (100, 1500)
      ∷ reward (150, 1000)
      ∷ reward (250, 600)
      ∷ reward (500, 350)
      ∷ reward (1000, 180)
      ∷ reward (2500, 60)
      ∷ reward (5000, 10)
      ∷ [];
}
vip_reward_cases diamond_case = record {
  kind = diamond_case;
  name = "diamond";
  slug = "vip-diamond";
  required_tier_id = diamond;
  cooldown = weekly;
  min_theoretical_rake = 6000;
  rewards =
      reward (100, 2000)
      ∷ reward (200, 2500)
      ∷ reward (300, 1800)
      ∷ reward (500, 1500)
      ∷ reward (750, 1000)
      ∷ reward (1000, 600)
      ∷ reward (2500, 350)
      ∷ reward (5000, 180)
      ∷ reward (10000, 60)
      ∷ reward (25000, 10)
      ∷ [];
}
vip_reward_cases black_case = record {
  kind = black_case;
  name = "black";
  slug = "vip-black";
  required_tier_id = black;
  cooldown = monthly;
  min_theoretical_rake = 15000;
  rewards =
      reward (200, 2000)
      ∷ reward (500, 2500)
      ∷ reward (750, 1800)
      ∷ reward (1000, 1500)
      ∷ reward (1500, 1000)
      ∷ reward (2500, 600)
      ∷ reward (5000, 350)
      ∷ reward (10000, 180)
      ∷ reward (25000, 60)
      ∷ reward (50000, 10)
      ∷ [];
}

-- `Object.values(VIP_REWARD_CASES)`
abbrev pub all_cases : List CaseConfig
all_cases = map vip_reward_cases (daily_case ∷ gold_case ∷ diamond_case ∷ black_case ∷ [])

unfoldable pub find_case : String → List CaseConfig → Option CaseConfig
find_case text [] = none
find_case text (c ∷ cs) =
    if str_eq c.slug text || str_eq c.name text then some c else find_case text cs

unfoldable pub get_vip_reward_case_by_slug : String → Option CaseConfig
unfolding find_case
get_vip_reward_case_by_slug slug_or_type = find_case slug_or_type all_cases

unfoldable pub total_weight : List WeightedReward → ℕ
total_weight [] = 0
total_weight (r ∷ rs) = r.weight + total_weight rs

unfoldable pub weighted_sum : List WeightedReward → ℕ
weighted_sum [] = 0
weighted_sum (r ∷ rs) = r.amount * r.weight + weighted_sum rs

unfoldable pub calculate_vip_case_expected_value : CaseConfig → ℕ
unfolding total_weight weighted_sum round_div
calculate_vip_case_expected_value c =
    let total = total_weight c.rewards in
    if leb total 0 then 0 else round_div (weighted_sum c.rewards) total

pub record CaseReward : Type 0 where
  pub amount : ℕ
  pub weight : ℕ
  pub range_min : ℕ
  pub range_max : ℕ

-- `getVipCaseRewardTicketRanges`, from a cursor on
unfoldable pub ticket_ranges : ℕ → List WeightedReward → List CaseReward
ticket_ranges cursor [] = []
ticket_ranges cursor (r ∷ rs) =
    record {
      amount = r.amount;
      weight = r.weight;
      range_min = cursor + 1;
      range_max = cursor + r.weight;
    }
    ∷ ticket_ranges (cursor + r.weight) rs

-- `rewards[rewards.length - 1]`
unfoldable pub last_reward : List CaseReward → Option CaseReward
last_reward [] = none
last_reward (r ∷ []) = some r
last_reward (r ∷ s ∷ rs) = last_reward (s ∷ rs)

abbrev pub range_max_of : Option CaseReward → ℕ
range_max_of none = 0
range_max_of (some r) = r.range_max

-- The `for` loop of `drawVipCaseReward`.
unfoldable pub find_ticket : ℕ → List CaseReward → Option CaseReward
find_ticket ticket [] = none
find_ticket ticket (r ∷ rs) =
    if leb r.range_min ticket && leb ticket r.range_max then some r else find_ticket ticket rs

pub record DrawnReward : Type 0 where
  pub case_type : CaseType
  pub amount : ℕ
  pub ticket : ℕ
  pub range_min : ℕ
  pub range_max : ℕ

abbrev pub drawn : CaseType → ℕ → Option CaseReward → DrawnReward
drawn t ticket none = record {
  case_type = t;
  amount = 0;
  ticket = ticket;
  range_min = 0;
  range_max = 0;
}
drawn t ticket (some r) = record {
  case_type = t;
  amount = r.amount;
  ticket = ticket;
  range_min = r.range_min;
  range_max = r.range_max;
}

abbrev pub or_last : Option CaseReward → List CaseReward → Option CaseReward
or_last none rs = last_reward rs
or_last (some r) rs = some r

-- The ticket for `random() = u / d` among `total`.
unfoldable pub draw_ticket : ℕ → ℕ → ℕ → ℕ
draw_ticket u d total = min total (max 1 (u * total / d + 1))

-- The draw over any rewards.
unfoldable pub draw_from : CaseType → List WeightedReward → ℕ → ℕ → DrawnReward
unfolding ticket_ranges last_reward find_ticket draw_ticket
draw_from t weighted u d =
    let rewards = ticket_ranges 0 weighted in
    let total = range_max_of (last_reward rewards) in
    let ticket = draw_ticket u d total in
    if leb total 0
    then drawn t 0 none
    else drawn t ticket (or_last (find_ticket ticket rewards) rewards)

unfoldable pub draw_vip_case_reward : CaseType → ℕ → ℕ → DrawnReward
unfolding draw_from
draw_vip_case_reward t u d = draw_from t (vip_reward_cases t).rewards u d
