-- ===== src/Vip/Store.antt =====
-- The rows that the VIP services read and write, and VipService.recordEarning. A nullable number
-- column is an `Option`.
pub mod Earned
pub mod Balances
use rabbit_backend.Prelude.{
  ℕ, ◌+◌, Bool, true, false, ◌&&◌, Option, none, some, List, [], ◌∷◌, leb, if◌then◌else◌,
}
use rabbit_backend.Prelude.Money.{Amount}
use rabbit_backend.Prelude.Table.{Table, save_row}
use rabbit_backend.Vip.Tiers.{TierId, Tier, get_vip_tier_for_xp, same_tier}
use rabbit_backend.Vip.Cases.{CaseType}
use rabbit_backend.Vip.Earning.{LedgerSource, VipEarning}

-- The columns of `User` that these services use.
pub record VipUser : Type 0 where
  pub balance : ℕ
  pub vip_xp : Option ℕ
  pub vip_theoretical_rake : Option ℕ
  pub vip_qualifying_volume : Option ℕ

pub record LedgerRow : Type 0 where
  pub user_id : ℕ
  pub source_type : LedgerSource
  pub wager_amount : ℕ
  pub house_edge_bps : ℕ
  pub product_xp_rate_bps : ℕ
  pub theoretical_rake : ℕ
  pub vip_xp : ℕ
  pub created_at : ℕ

pub data RewardKind : Type 0 where
  cashback weekly_keys vip_case_open : RewardKind

pub record ClaimRow : Type 0 where
  pub user_id : ℕ
  pub reward_type : RewardKind
  pub amount : ℕ
  pub period_start : ℕ
  pub period_end : ℕ
  pub case_type : Option CaseType  -- `metadata ->> 'caseType'`

-- A level-up notification.
pub record LevelUp : Type 0 where
  pub user_id : ℕ
  pub tier_id : TierId
  pub threshold : ℕ

pub record VipDb : Type 0 where
  pub users : Table VipUser
  pub ledger : List LedgerRow
  pub claims : List ClaimRow
  pub level_ups : List LevelUp

abbrev pub or_zero : Option ℕ → ℕ
or_zero none = 0
or_zero (some n) = n

-- `user.vip_xp ?? user.vip_qualifying_volume ?? 0`
abbrev pub xp_or_volume : Option ℕ → Option ℕ → ℕ
xp_or_volume none volume = or_zero volume
xp_or_volume (some xp) volume = xp

abbrev pub user_xp : VipUser → ℕ
user_xp u = xp_or_volume u.vip_xp u.vip_qualifying_volume

abbrev pub user_tier : VipUser → Tier
user_tier u = get_vip_tier_for_xp (Amount.at_least_zero (user_xp u))

abbrev pub earned_user : VipUser → VipEarning → VipUser
earned_user user e = record user {
  vip_xp = some (or_zero user.vip_xp + e.vip_xp);
  vip_theoretical_rake = some (or_zero user.vip_theoretical_rake + e.theoretical_rake);
  vip_qualifying_volume = some (or_zero user.vip_qualifying_volume + e.vip_xp);
}

-- `recordEarning` at the moment `now`; the user is the caller's object, which it changes and saves.
unfoldable pub record_earning : ℕ → VipUser → VipEarning → ℕ → VipDb → VipUser × VipDb
record_earning user_id user e now db =
    let user' = earned_user user e in
    let row : LedgerRow = record {
      user_id = user_id;
      source_type = e.source_type;
      wager_amount = e.wager_amount;
      house_edge_bps = e.house_edge_bps;
      product_xp_rate_bps = e.product_xp_rate_bps;
      theoretical_rake = e.theoretical_rake;
      vip_xp = e.vip_xp;
      created_at = now;
    } in
    let tier = user_tier user' in
    let level_up : LevelUp = record {
      user_id = user_id;
      tier_id = tier.id;
      threshold = tier.threshold;
    } in
    if leb e.vip_xp 0 && leb e.theoretical_rake 0 then (user, db) else (
      user',
      record db {
        users = save_row user_id user' db.users;
        ledger = row ∷ db.ledger;
        level_ups =
            if same_tier tier.id (user_tier user).id then db.level_ups else level_up ∷ db.level_ups;
      },
    )
