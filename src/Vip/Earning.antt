-- ===== src/Vip/Earning.antt =====
-- vip-earning.logic.ts: the house edge of a product and the experience that a wager earns. Prices
-- and wagers are in cents, which `toMoney` leaves as they are; a chance is in millionths, a win
-- chance in hundredths of a percent, and the rates are whole basis points.
pub mod Bounds
use rabbit_backend.Prelude.{
  ℕ, ◌+◌, ◌-◌, ◌*◌, ◌≡◌, Bool, true, false, ◌||◌, Option, none, some, List, [], ◌∷◌, min, ◌==◌,
  length, if◌then◌else◌,
}
use rabbit_backend.Prelude.Money.{round_div, Amount, normalize_positive}

pub data LedgerSource : Type 0 where
  case_open mines_round crash_round upgrade_attempt historical_case_backfill : LedgerSource

abbrev pub bps_denominator : ℕ
bps_denominator = 10000

abbrev pub case_product_xp_rate_bps : ℕ
case_product_xp_rate_bps = 10000

abbrev pub mines_product_house_edge_bps : ℕ
mines_product_house_edge_bps = 400

abbrev pub crash_product_house_edge_bps : ℕ
crash_product_house_edge_bps = 300

-- `null` and `undefined` are `none`.
abbrev pub normalize_nullable : Option Amount → ℕ
normalize_nullable none = 0
normalize_nullable (some a) = normalize_positive a

pub record CaseVipItem : Type 0 where
  pub chance : Option Amount  -- millionths
  pub market_price : Option Amount  -- cents

abbrev pub one_million : ℕ
one_million = 1000000

-- `expectedPayout`, in millionths of a cent
unfoldable pub expected_payout : List CaseVipItem → ℕ
expected_payout [] = 0
expected_payout (i ∷ items) =
    normalize_nullable i.market_price * normalize_nullable i.chance + expected_payout items

-- `Math.round(clamp((price - payout) / price, 0, 1) * BPS_DENOMINATOR)` for a payout over `scale`;
-- the subtraction stops at 0, which is the clamp from below.
unfoldable pub edge_bps : ℕ → ℕ → ℕ → ℕ
edge_bps price scale payout =
    round_div (min (price * scale - payout) (price * scale) * bps_denominator) (price * scale)

unfoldable pub estimate_case_house_edge_bps : Amount → List CaseVipItem → ℕ
unfolding expected_payout edge_bps
estimate_case_house_edge_bps case_price items =
    let price = normalize_positive case_price in
    if price == 0 || length items == 0
    then 0
    else edge_bps price one_million (expected_payout items)

-- `win_chance` in hundredths of a percent
unfoldable pub estimate_upgrade_house_edge_bps : Amount → Amount → Amount → ℕ
unfolding edge_bps
estimate_upgrade_house_edge_bps source_amount target_market_price win_chance =
    let source = normalize_positive source_amount in
    let target = normalize_positive target_market_price in
    let chance = min (normalize_positive win_chance) 10000 in
    if source == 0 || target == 0 then 0 else edge_bps source 10000 (target * chance)

pub record VipEarning : Type 0 where
  pub source_type : LedgerSource
  pub wager_amount : ℕ
  pub house_edge_bps : ℕ
  pub product_xp_rate_bps : ℕ
  pub theoretical_rake : ℕ
  pub vip_xp : ℕ

-- A base house edge of 1000 bps makes a cent of rake worth ten hundredths of experience.
unfoldable pub calculate_vip_earning : LedgerSource → Amount → ℕ → ℕ → VipEarning
calculate_vip_earning source_type wager_amount house_edge_bps product_xp_rate_bps =
    let wager = normalize_positive wager_amount in
    let edge = min house_edge_bps bps_denominator in
    let rate = min product_xp_rate_bps bps_denominator in
    let rake = round_div (wager * edge) bps_denominator in
    record {
      source_type = source_type;
      wager_amount = wager;
      house_edge_bps = edge;
      product_xp_rate_bps = rate;
      theoretical_rake = rake;
      vip_xp = round_div (rake * 10 * rate) bps_denominator;
    }

-- `calculateFixedHouseEdgeVipEarning`, with the default product rate
unfoldable pub calculate_fixed_house_edge_vip_earning : LedgerSource → Amount → ℕ → VipEarning
unfolding calculate_vip_earning
calculate_fixed_house_edge_vip_earning source_type wager_amount house_edge_bps =
    calculate_vip_earning source_type wager_amount house_edge_bps case_product_xp_rate_bps
