-- ===== src/Vip/Earning/Bounds.antt =====
-- Bounds of the house edge and of what a wager earns.
use rabbit_backend.Prelude.{ℕ, ◌-◌, ◌*◌, ◌≤◌, ◌<◌, ◌≡◌, min, length, List, arith}
use rabbit_backend.Prelude.Money.{
  round_div, round_div_exact, round_div_mono, Amount, normalize_positive,
}
use rabbit_backend.Vip.Earning.{
  LedgerSource, bps_denominator, CaseVipItem, expected_payout, edge_bps, one_million,
  estimate_case_house_edge_bps, calculate_vip_earning, calculate_fixed_house_edge_vip_earning,
}

-- Scaling by at most the whole gives at most the whole.
round_div_le : (n k d : ℕ) → 0 < d → k ≤ d → round_div (n * k) d ≤ n
round_div_le n k d p h =
    let scaled = round_div_mono (n * k) (n * d) d (grind arith) in
    omega (arith, scaled, round_div_exact n d p)

edge_bps_le :
    (price scale payout : ℕ) → 0 < price * scale → edge_bps price scale payout ≤ bps_denominator
unfolding edge_bps
edge_bps_le price scale payout p =
    let whole = price * scale in
    let kept = min (whole - payout) whole in
    let scaled =
      round_div_mono (kept * bps_denominator) (bps_denominator * whole) whole (grind arith) in
    omega (arith, scaled, round_div_exact bps_denominator whole p)

edge_bps_antitone :
    (price scale payout payout' : ℕ)
    → payout ≤ payout'
    → edge_bps price scale payout' ≤ edge_bps price scale payout
unfolding edge_bps
edge_bps_antitone price scale payout payout' h = round_div_mono _ _ (price * scale) (omega arith)

edge_bps_none :
    (price scale payout : ℕ)
    → 0 < price * scale
    → price * scale ≤ payout
    → edge_bps price scale payout ≡ 0
unfolding edge_bps round_div
edge_bps_none price scale payout p h = grind arith

-- For a positive price and at least one item: an estimated house edge is at most the whole price,
-- and items that pay back more on average never give a higher edge.
pub estimate_case_house_edge_bps_antitone :
    (price : ℕ) (items items' : List CaseVipItem)
    → 0 < price
    → 0 < length items
    → expected_payout items ≤ expected_payout items'
    → (estimate_case_house_edge_bps (Amount.at_least_zero price) items'
        ≤ estimate_case_house_edge_bps (Amount.at_least_zero price) items)
      × (estimate_case_house_edge_bps (Amount.at_least_zero price) items ≤ bps_denominator)
unfolding estimate_case_house_edge_bps
estimate_case_house_edge_bps_antitone price items items' p some_item h = ground (
  arith,
  edge_bps_antitone price one_million (expected_payout items) (expected_payout items'),
  edge_bps_le price one_million (expected_payout items),
)

-- For a positive price and at least one item, items that pay back the price or more on average
-- leave no edge.
pub estimate_case_house_edge_bps_none :
    (price : ℕ) (items : List CaseVipItem)
    → 0 < price
    → price * one_million ≤ expected_payout items
    → estimate_case_house_edge_bps (Amount.at_least_zero price) items ≡ 0
unfolding estimate_case_house_edge_bps
estimate_case_house_edge_bps_none price items p h =
    ground (arith, edge_bps_none price one_million (expected_payout items))

-- Every earning: the rake is at most the wager, the experience at most ten times the rake, and at
-- the default product rate it is ten times the rake.
pub calculate_vip_earning_bounds :
    (source : LedgerSource) (wager : Amount) (edge rate : ℕ)
    → let e = calculate_vip_earning source wager edge rate in
      (e.theoretical_rake ≤ e.wager_amount)
      × (e.vip_xp ≤ e.theoretical_rake * 10)
      × ((calculate_fixed_house_edge_vip_earning source wager edge).vip_xp
          ≡ (calculate_fixed_house_edge_vip_earning source wager edge).theoretical_rake * 10)
unfolding calculate_vip_earning calculate_fixed_house_edge_vip_earning
calculate_vip_earning_bounds source wager edge rate =
    let w = normalize_positive wager in
    let rake = round_div (w * min edge bps_denominator) bps_denominator in
    (
      round_div_le w (min edge bps_denominator) bps_denominator (omega arith) (omega arith),
      round_div_le (rake * 10) (min rate bps_denominator) bps_denominator (omega arith)
          (omega arith),
      round_div_exact (rake * 10) bps_denominator (omega arith),
    )
