-- ===== src/EarnVault/Service.antt =====
-- earn-vault.service.ts: the transactions on the users' balances and the positions, with the rows
-- locked. `now` is the moment of the call, `id` the fresh key of a new position.
pub mod Changes
pub mod Money
pub mod Status
use rabbit_backend.Prelude.{
  ℕ, ◌+◌, ◌-◌, ◌*◌, Bool, true, false, not, ◌&&◌, Option, none, some, List, [], ◌∷◌, ltb, leb, ◌==◌,
  if◌then◌else◌, Result, ok, err, ◌>>=◌, ◌>>◌, throw_if, or_throw,
}
use Prim.Native.String.{String}
use rabbit_backend.Prelude.Money.{round_div, Amount, normalize_positive}
use rabbit_backend.Prelude.Table.{Table, find_row, save_row}
use rabbit_backend.EarnVault.Plans.{
  Plan, get_earn_vault_plan, is_valid_stake_amount, normalise_stake_amount,
  calculate_earn_vault_reward, calculate_earn_vault_accrued_reward, get_earn_vault_end_date,
  is_earn_vault_flexible, is_earn_vault_position_mature, calculate_earn_vault_progress,
}

pub data PositionStatus : Type 0 where
  active claimed cancelled : PositionStatus

abbrev pub is_active : PositionStatus → Bool
is_active active = true
is_active _ = false

abbrev pub is_claimed : PositionStatus → Bool
is_claimed claimed = true
is_claimed _ = false

pub record Position : Type 0 where
  pub user_id : ℕ
  pub plan_id : String
  pub status : PositionStatus
  pub amount : ℕ
  pub reward_amount : ℕ
  pub rate_percent : ℕ
  pub duration_days : ℕ
  pub starts_at : ℕ
  pub ends_at : ℕ
  pub claimed_at : Option ℕ
  pub cancelled_at : Option ℕ

-- The balances and the positions.
pub record VaultDb : Type 0 where
  pub users : Table ℕ
  pub positions : Table Position

pub data VaultError : Type 0 where
  unknown_plan bad_amount below_minimum above_maximum user_not_found insufficient_balance :
      VaultError
  too_many_positions position_not_found not_active not_ready flexible_claims ready_to_claim :
      VaultError

-- EARN_VAULT_ACTIVE_POSITION_LIMIT
abbrev pub active_position_limit : ℕ
active_position_limit = 25

-- `manager.count` of the user's active positions, and `countActivePositions`
unfoldable pub count_active : ℕ → Table Position → ℕ
count_active uid [] = 0
count_active uid ((_, p) ∷ ps) =
    (if p.user_id == uid && is_active p.status then 1 else 0) + count_active uid ps

-- `createPositionOnce`; `plan_id` and `amount` are the request's.
unfoldable pub create_position :
    ℕ → String → Amount → ℕ → ℕ → VaultDb → Result VaultError (Position × VaultDb)
unfolding count_active
create_position uid plan_id requested id now db = do
  plan ← or_throw (get_earn_vault_plan plan_id) unknown_plan
  throw_if (not (is_valid_stake_amount requested)) bad_amount
  let amount = normalize_positive (normalise_stake_amount requested)
  throw_if (ltb amount plan.min_amount) below_minimum
  throw_if (ltb plan.max_amount amount) above_maximum
  balance ← or_throw (find_row uid db.users) user_not_found
  throw_if (ltb balance amount) insufficient_balance
  throw_if (leb active_position_limit (count_active uid db.positions)) too_many_positions
  let position : Position = record {
    user_id = uid;
    plan_id = plan.id;
    status = active;
    amount = amount;
    reward_amount = calculate_earn_vault_reward amount plan.rate_percent plan.duration_days;
    rate_percent = plan.rate_percent;
    duration_days = plan.duration_days;
    starts_at = now;
    ends_at = get_earn_vault_end_date now plan.duration_days;
    claimed_at = none;
    cancelled_at = none;
  }
  ok (
    position,
    record {
      users = save_row uid (balance - amount) db.users;
      positions = save_row id position db.positions;
    },
  )

-- `findOne` with `where: { id, user_id }`
abbrev pub owned_by : ℕ → Option Position → Option Position
owned_by uid none = none
owned_by uid (some p) = if p.user_id == uid then some p else none

abbrev pub find_position : ℕ → ℕ → VaultDb → Option Position
find_position uid id db = owned_by uid (find_row id db.positions)

-- `getPositionRewardAmount`
unfoldable pub position_reward_amount : Position → ℕ → ℕ
position_reward_amount p now =
    if is_earn_vault_flexible p.duration_days && is_active p.status
    then calculate_earn_vault_accrued_reward p.amount p.rate_percent p.starts_at now
    else p.reward_amount

abbrev pub is_mature : Position → ℕ → Bool
is_mature p now = is_earn_vault_position_mature p.duration_days p.ends_at now

unfoldable pub claim_position : ℕ → ℕ → ℕ → VaultDb → Result VaultError (Position × VaultDb)
claim_position uid id now db = do
  position ← or_throw (find_position uid id db) position_not_found
  throw_if (not (is_active position.status)) not_active
  throw_if (not (is_earn_vault_flexible position.duration_days) && not (is_mature position now))
      not_ready
  balance ← or_throw (find_row uid db.users) user_not_found
  let reward = position_reward_amount position now
  let saved : Position = record position {
    status = claimed;
    reward_amount = reward;
    claimed_at = some now;
  }
  ok (
    saved,
    record {
      users = save_row uid (balance + position.amount + reward) db.users;
      positions = save_row id saved db.positions;
    },
  )

unfoldable pub unstake_position : ℕ → ℕ → ℕ → VaultDb → Result VaultError (Position × VaultDb)
unstake_position uid id now db = do
  position ← or_throw (find_position uid id db) position_not_found
  throw_if (not (is_active position.status)) not_active
  throw_if (is_earn_vault_flexible position.duration_days) flexible_claims
  throw_if (is_mature position now) ready_to_claim
  balance ← or_throw (find_row uid db.users) user_not_found
  let saved : Position = record position { status = cancelled; cancelled_at = some now }
  ok (
    saved,
    record {
      users = save_row uid (balance + position.amount) db.users;
      positions = save_row id saved db.positions;
    },
  )

-- The computed columns of `toPositionDto`.
pub record PositionDto : Type 0 where
  pub reward_amount : ℕ
  pub can_claim : Bool
  pub can_unstake : Bool
  pub progress_percent : ℕ
  pub total_return : ℕ

unfoldable pub to_position_dto : Position → ℕ → PositionDto
to_position_dto p now =
    let can_claim = is_active p.status && is_mature p now in
    record {
      reward_amount = position_reward_amount p now;
      can_claim = can_claim;
      can_unstake =
          is_active p.status && not (is_earn_vault_flexible p.duration_days) && not can_claim;
      progress_percent = calculate_earn_vault_progress p.starts_at p.ends_at now;
      total_return = p.amount + position_reward_amount p now;
    }
