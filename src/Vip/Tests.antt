-- ===== src/Vip/Tests.antt =====
-- Concrete users of the VIP programme, and what the theorems say of them.
use rabbit_backend.Prelude.{
  ℕ, ◌+◌, ◌≤◌, ◌<◌, ◌≡◌, refl, none, some, List, [], ◌∷◌, Result, ok, err, arith,
}
use rabbit_backend.Prelude.Money.{Amount, round_div}
use rabbit_backend.Prelude.Table.{find_row}
use rabbit_backend.Vip.Tiers.{get_vip_tier_for_xp, tier_meets_requirement}
use rabbit_backend.Vip.Tiers.Choice.{IsBest, get_vip_tier_for_xp-IsBest}
use rabbit_backend.Vip.Earning.{LedgerSource, VipEarning, CaseVipItem, calculate_vip_earning}
use rabbit_backend.Vip.Cases.{
  daily_case, gold_case, vip_reward_cases, WeightedReward, total_weight, draw_from, DrawnReward,
  find_case, draw_vip_case_reward, get_vip_reward_case_by_slug,
}
use rabbit_backend.Vip.Cases.Draw.{pick_by_weight, draw_from-pick_by_weight}
use rabbit_backend.Vip.Periods.{cooldown_period, get_vip_case_period, get_weekly_vip_period}
use rabbit_backend.Vip.Periods.Laws.{Holds, get_vip_case_period_stable}
use rabbit_backend.Vip.Rewards.{
  calculate_available_cashback, gross_cashback, locked_reason_of, calculate_vip_case_availability,
}
use rabbit_backend.Vip.Store.{VipUser, VipDb, user_tier, record_earning}
use rabbit_backend.Vip.Store.Earned.{Earned, record_earning-Earned}
use rabbit_backend.Vip.Service.{
  VipError, no_cashback, on_cooldown, load_claimed_cashback, claim_cashback, open_vip_case,
  available_cashback, case_availability, load_period_theoretical_rake, load_vip_case_open_count,
}
use rabbit_backend.Vip.Service.Once.{open_vip_case_once}
use rabbit_backend.Vip.Service.Weekly.{claim_cashback_capped}

get_vip_tier_for_xp-IsBest_example :
    IsBest 2500000 (get_vip_tier_for_xp (Amount.at_least_zero 2500000))
get_vip_tier_for_xp-IsBest_example = get_vip_tier_for_xp-IsBest (Amount.at_least_zero 2500000)

abbrev item : ℕ → ℕ → CaseVipItem
item chance price = record {
  chance = some (Amount.at_least_zero chance);
  market_price = some (Amount.at_least_zero price);
}

-- Pays 60 cents on average, and 70.
abbrev poor_items : List CaseVipItem
poor_items = item 500000 100 ∷ item 100000 100 ∷ []

abbrev rich_items : List CaseVipItem
rich_items = item 500000 100 ∷ item 200000 100 ∷ []

abbrev daily_rewards : List WeightedReward
daily_rewards = (vip_reward_cases daily_case).rewards

draw_from-pick_by_weight_example :
    let w = draw_from daily_case daily_rewards 7 10 in
    (0 < w.ticket)
    × (w.ticket ≤ total_weight daily_rewards)
    × (w.range_min ≤ w.ticket)
    × (w.ticket ≤ w.range_max)
    × (w.amount ≡ pick_by_weight w.ticket daily_rewards)
draw_from-pick_by_weight_example =
    draw_from-pick_by_weight daily_case daily_rewards 7 10 (unfold total_weight in omega arith)

-- 2024-01-10 and two days on, at noon.
abbrev wednesday : ℕ
wednesday = 1704888000000

abbrev friday : ℕ
friday = 1705060800000

friday-Holds : Holds (get_vip_case_period gold_case wednesday) friday
unfolding get_vip_case_period cooldown_period get_weekly_vip_period
friday-Holds = (omega arith, omega arith)

get_vip_case_period_stable_example :
    Holds (get_vip_case_period gold_case wednesday) wednesday
    × (get_vip_case_period gold_case friday ≡ get_vip_case_period gold_case wednesday)
get_vip_case_period_stable_example =
    get_vip_case_period_stable gold_case wednesday friday (omega arith) friday-Holds

-- A user with the experience of the gold tier and 200.00 of rake in the week.
abbrev member : VipUser
member = record {
  balance = 1000;
  vip_xp = some 3000000;
  vip_theoretical_rake = some 300000;
  vip_qualifying_volume = none;
}

abbrev db : VipDb
db = record {
  users = (1, member) ∷ [];
  ledger =
      record {
        user_id = 1;
        source_type = LedgerSource.mines_round;
        wager_amount = 500000;
        house_edge_bps = 400;
        product_xp_rate_bps = 10000;
        theoretical_rake = 20000;
        vip_xp = 200000;
        created_at = wednesday;
      }
      ∷ [];
  claims = [];
  level_ups = [];
}

abbrev earning : VipEarning
earning = calculate_vip_earning LedgerSource.mines_round (Amount.at_least_zero 1050) 400 10000

record_earning-Earned_example :
    Earned 1 member earning db (record_earning 1 member earning wednesday db)
record_earning-Earned_example = record_earning-Earned 1 3000000 wednesday member earning db refl

-- What a result holds, or a value in its place.
abbrev result_or : {A : Type 0} → A → Result VipError A → A
result_or a (ok b) = b
result_or a (err _) = a

abbrev opening : DrawnReward × VipDb
opening = result_or (draw_from gold_case [] 0 1, db) (open_vip_case 1 "vip-gold" wednesday 7 10 db)

gold_is_found : get_vip_reward_case_by_slug "vip-gold" ≡ some (vip_reward_cases gold_case)
unfolding get_vip_reward_case_by_slug find_case
gold_is_found = refl

gold_opens : open_vip_case 1 "vip-gold" wednesday 7 10 db ≡ ok (opening.0, opening.1)
unfolding open_vip_case case_availability get_vip_reward_case_by_slug find_case
    calculate_vip_case_availability load_period_theoretical_rake load_vip_case_open_count
    get_vip_case_period cooldown_period get_weekly_vip_period get_vip_tier_for_xp
    tier_meets_requirement draw_vip_case_reward draw_from locked_reason_of
gold_opens = refl

open_vip_case_once_example : open_vip_case 1 "vip-gold" friday 1 10 opening.1 ≡ err on_cooldown
open_vip_case_once_example =
    open_vip_case_once 1 "vip-gold" wednesday friday 7 10 1 10 (vip_reward_cases gold_case) db
      gold_is_found (omega arith) friday-Holds gold_opens

abbrev claiming : ℕ × VipDb
claiming = result_or (0, db) (claim_cashback 1 wednesday db)

cashback_is_paid : claim_cashback 1 wednesday db ≡ ok (claiming.0, claiming.1)
unfolding claim_cashback available_cashback load_period_theoretical_rake load_claimed_cashback
    get_weekly_vip_period calculate_available_cashback gross_cashback get_vip_tier_for_xp round_div
cashback_is_paid = refl

claim_cashback_capped_example :
    (0 < claiming.0)
    × (find_row 1 claiming.1.users ≡ some (record member { balance = 1000 + claiming.0 }))
    × (load_claimed_cashback 1 (get_weekly_vip_period wednesday) claiming.1.claims
        ≤ (user_tier member).weekly_cashback_cap)
    × (claim_cashback 1 wednesday claiming.1 ≡ err no_cashback)
claim_cashback_capped_example = claim_cashback_capped 1 wednesday db member refl cashback_is_paid
