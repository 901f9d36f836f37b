-- ===== src/EarnVault/Tests.antt =====
-- A concrete vault, and what the theorems say of it.
use rabbit_backend.Prelude.{
  ℕ, ◌+◌, ◌*◌, ◌≤◌, ◌≡◌, refl, true, false, ◌&&◌, ◌||◌, none, [], ◌∷◌, Result, ok, err, arith,
}
use rabbit_backend.Prelude.Money.{Amount, round_div}
use rabbit_backend.EarnVault.Plans.{
  ms_per_day, distance_to_cent, is_valid_stake_amount, normalise_stake_amount,
  calculate_earn_vault_reward, calculate_earn_vault_accrued_reward, find_plan, get_earn_vault_plan,
  get_earn_vault_end_date, is_earn_vault_position_mature,
}
use rabbit_backend.EarnVault.Plans.Laws.{accrued_reward_of_term}
use rabbit_backend.EarnVault.Service.{
  active, is_active, Position, VaultDb, VaultError, count_active, create_position, claim_position,
  unstake_position, to_position_dto, position_reward_amount,
}
use rabbit_backend.EarnVault.Service.Status.{succeeds, claim_or_unstake}
use rabbit_backend.EarnVault.Service.Money.{
  History, start, then_step, created, claimed_by, wealth, IsWithinLimit, wealth_conserved,
}

-- 12.50
abbrev stake : ℕ
stake = 125000000000

stake_is_valid : is_valid_stake_amount (Amount.at_least_zero stake) ≡ true
unfolding is_valid_stake_amount distance_to_cent round_div
stake_is_valid = refl

accrued_reward_of_term_example :
    (calculate_earn_vault_accrued_reward 10000 7 1000 (get_earn_vault_end_date 1000 7)
      ≡ calculate_earn_vault_reward 10000 7 7)
    × (calculate_earn_vault_accrued_reward 10000 7 1000 2000
        ≤ calculate_earn_vault_accrued_reward 10000 7 1000 900000000)
accrued_reward_of_term_example =
    accrued_reward_of_term 10000 7 7 1000 2000 900000000 (omega arith) (omega arith)

abbrev db : VaultDb
db = record { users = (1, 5000) ∷ []; positions = [] }

-- What a result holds, or a value in its place.
abbrev result_or : {A : Type 0} → A → Result VaultError A → A
result_or a (ok b) = b
result_or a (err _) = a

abbrev no_position : Position
no_position = record {
  user_id = 0;
  plan_id = "";
  status = active;
  amount = 0;
  reward_amount = 0;
  rate_percent = 0;
  duration_days = 0;
  starts_at = 0;
  ends_at = 0;
  claimed_at = none;
  cancelled_at = none;
}

-- 8.20 loses a cent to its double, 8.21 does not.
doubles :
    (normalise_stake_amount (Amount.at_least_zero 82000000000) ≡ Amount.at_least_zero 819)
    × (normalise_stake_amount (Amount.at_least_zero 82100000000) ≡ Amount.at_least_zero 821)
unfolding normalise_stake_amount
doubles = (refl, refl)

abbrev opening : Position × VaultDb
opening =
    result_or (no_position, db) (create_position 1 "starter" (Amount.at_least_zero stake) 9 1000 db)

starter_opens :
    create_position 1 "starter" (Amount.at_least_zero stake) 9 1000 db ≡ ok (opening.0, opening.1)
unfolding create_position get_earn_vault_plan find_plan is_valid_stake_amount normalise_stake_amount
    distance_to_cent round_div count_active
starter_opens = refl

abbrev maturity : ℕ
maturity = 1000 + 7 * ms_per_day

abbrev closing : Position × VaultDb
closing = result_or (no_position, db) (claim_position 1 9 maturity opening.1)

starter_is_claimed : claim_position 1 9 maturity opening.1 ≡ ok (closing.0, closing.1)
unfolding create_position get_earn_vault_plan find_plan is_valid_stake_amount normalise_stake_amount
    distance_to_cent round_div count_active claim_position is_earn_vault_position_mature
    position_reward_amount get_earn_vault_end_date
starter_is_claimed = refl

db-IsWithinLimit : IsWithinLimit db
unfolding count_active
db-IsWithinLimit uid = omega arith

abbrev history : History db (0 + 0 + closing.0.reward_amount) closing.1
history =
    then_step
      (then_step start
        (created 1 "starter" (Amount.at_least_zero stake) 9 1000 opening.0 refl starter_opens))
      (claimed_by 1 9 maturity closing.0 starter_is_claimed)

wealth_conserved_example :
    (wealth closing.1 ≡ wealth db + (0 + 0 + closing.0.reward_amount)) × IsWithinLimit closing.1
wealth_conserved_example = wealth_conserved db-IsWithinLimit history

-- A week of the growth plan, for 100.00.
abbrev growing : Position
growing = record {
  user_id = 1;
  plan_id = "growth";
  status = active;
  amount = 10000;
  reward_amount = 42;
  rate_percent = 11;
  duration_days = 14;
  starts_at = 0;
  ends_at = 1209600000;
  claimed_at = none;
  cancelled_at = none;
}

abbrev growing_db : VaultDb
growing_db = record { users = (1, 500) ∷ []; positions = (4, growing) ∷ [] }

claim_or_unstake_example :
    let dto = to_position_dto growing 604800000 in
    (succeeds (claim_position 1 4 604800000 growing_db) ≡ dto.can_claim)
    × (succeeds (unstake_position 1 4 604800000 growing_db) ≡ dto.can_unstake)
    × ((dto.can_claim && dto.can_unstake) ≡ false)
    × ((dto.can_claim || dto.can_unstake) ≡ is_active growing.status)
claim_or_unstake_example = claim_or_unstake 1 4 604800000 500 growing growing_db refl refl
