-- ===== src/Upgrade/Return.antt =====
-- The return of an upgrade: what the roll and the chance leave to the house.
use native.Mathlib.Nat.{mul-le-mul_right}
use rabbit_backend.Prelude.{
  ℕ, zero, suc, ◌+◌, ◌*◌, ◌≤◌, ◌<◌, ◌≡◌, true, false, leb, if◌then◌else◌, ok, Bool-cases, inl, inr,
  arith,
}
use rabbit_backend.Prelude.Money.{round_div, round_div_bounds}
use rabbit_backend.Upgrade.{
  calculate_upgrade_chance_by_price, roll_upgrade, calculate_chance_by_price,
}

-- How many of the random numbers 0 / d, 1 / d, …, (n - 1) / d win
unfoldable pub winning_rolls : ℕ → ℕ → ℕ → ℕ
winning_rolls chance d zero = 0
winning_rolls chance d (suc n) =
    (if (roll_upgrade chance n d).0 then 1 else 0) + winning_rolls chance d n

winning_rolls_le : (chance d n : ℕ) → winning_rolls chance d n ≤ n
unfolding winning_rolls
winning_rolls_le chance d zero = omega arith
winning_rolls_le chance d (suc n) = ground (arith, winning_rolls_le chance d n)

-- A roll that wins is under the chance by half a hundredth of a percent.
winning_roll :
    (chance u d : ℕ) → 0 < d → (roll_upgrade chance u d).0 ≡ true → 20000 * u + d < 2 * (chance * d)
unfolding roll_upgrade
winning_roll chance u d h wins =
    let (_, near) = round_div_bounds (u * 10000) d h in
    let under : round_div (u * 10000) d + 1 ≤ chance = ground arith in
    let scaled : (round_div (u * 10000) d + 1) * d ≤ chance * d = grind (arith, under) in
    omega arith

winning_rolls_bound :
    (chance d n : ℕ)
    → 0 < chance
    → 0 < d
    → 20000 * winning_rolls chance d n + d ≤ 2 * (chance * d) + 20000
unfolding winning_rolls
winning_rolls_bound chance d zero some_chance h =
    let scaled : 1 * d ≤ chance * d = grind (arith, some_chance) in omega arith
winning_rolls_bound chance d (suc n) some_chance h =
    let rest = winning_rolls_bound chance d n some_chance h in
    let most = winning_rolls_le chance d n in
    elim (Bool-cases (roll_upgrade chance n d).0) [
      | inl wins ↦ let under = winning_roll chance n d h wins in rw wins (omega arith)
      | inr loses ↦ rw loses (omega arith)
    ]

-- The chance, times the target, is at most the return of the price, up to a half.
chance_return :
    (used target chance : ℕ)
    → calculate_chance_by_price used target ≡ ok chance
    → (0 < chance) × (2 * (chance * target) ≤ 2 * (used * 9600) + target)
unfolding calculate_chance_by_price calculate_upgrade_chance_by_price
chance_return used target chance e =
    let some_target : leb target 0 ≡ false = ground arith in
    let some_used : leb used 0 ≡ false = ground arith in
    let positive : 0 < target = ground arith in
    let this : round_div (used * 9600) target ≡ chance = ground arith in
    let (near, _) = round_div_bounds (used * 9600) target positive in
    (ground arith, rw this at near)

scale :
    (wins d chance used target : ℕ)
    → 20000 * wins + d ≤ 2 * (chance * d) + 20000
    → 2 * (chance * target) ≤ 2 * (used * 9600) + target
    → 100 * (wins * target) ≤ 96 * (used * d) + 100 * target
scale wins d chance used target drawn fair =
    omega (arith, mul-le-mul_right target drawn, mul-le-mul_right d fair)

-- Of an upgrade that is not refused, over the d equally likely random numbers 0, 1 / d, …: the number
-- of those that win, times the price of the target, is at most 96% of the price that is used, times d,
-- plus one target. So the mean return is at most 96%, but for one price of the target over d; neither
-- the rounding of the chance nor that of the roll raises it.
pub winning_rolls_return :
    (used target chance d : ℕ)
    → 0 < d
    → calculate_chance_by_price used target ≡ ok chance
    → 100 * (winning_rolls chance d d * target) ≤ 96 * (used * d) + 100 * target
winning_rolls_return used target chance d h e =
    let (some_chance, fair) = chance_return used target chance e in
    scale (winning_rolls chance d d) d chance used target
      (winning_rolls_bound chance d d some_chance h) fair
