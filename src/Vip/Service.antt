-- ===== src/Vip/Service.antt =====
-- vip-rewards.service.ts: the claims. Each runs in a transaction with the user's row locked; `now`
-- is the moment of the call. The summaries that the replies carry are read-only and left out.
pub mod Once
pub mod Weekly
use rabbit_backend.Prelude.{
  ℕ, ◌+◌, ◌-◌, Bool, true, false, not, ◌&&◌, Option, none, some, List, [], ◌∷◌, ltb, leb, ◌==◌,
  if◌then◌else◌, Result, ok, err, ◌>>=◌, ◌>>◌, throw_if, or_throw,
}
use Prim.Native.String.{String}
use rabbit_backend.Prelude.Table.{Table, find_row, save_row}
use rabbit_backend.Vip.Tiers.{Tier}
use rabbit_backend.Vip.Cases.{
  CaseType, daily_case, gold_case, diamond_case, black_case, CaseConfig,
  get_vip_reward_case_by_slug, DrawnReward, draw_vip_case_reward,
}
use rabbit_backend.Vip.Periods.{Period, get_weekly_vip_period, get_vip_case_period}
use rabbit_backend.Vip.Rewards.{
  LockedReason, tier, activity, cooldown, Availability, calculate_available_cashback,
  calculate_vip_case_availability,
}
use rabbit_backend.Vip.Store.{
  VipUser, LedgerRow, RewardKind, cashback, vip_case_open, ClaimRow, VipDb, user_tier,
}

pub data VipError : Type 0 where
  user_not_found no_cashback unknown_case tier_too_low on_cooldown more_activity not_available :
      VipError

-- The rows of one user in one period.
abbrev pub in_period : ℕ → Period → LedgerRow → Bool
in_period id p r = r.user_id == id && (leb p.start r.created_at && ltb r.created_at p.end)

-- `loadPeriodTheoreticalRake`
unfoldable pub load_period_theoretical_rake : ℕ → Period → List LedgerRow → ℕ
load_period_theoretical_rake id p [] = 0
load_period_theoretical_rake id p (r ∷ rs) =
    (if in_period id p r then r.theoretical_rake else 0) + load_period_theoretical_rake id p rs

abbrev pub is_cashback : RewardKind → Bool
is_cashback cashback = true
is_cashback _ = false

abbrev pub is_case_open : RewardKind → Bool
is_case_open vip_case_open = true
is_case_open _ = false

abbrev pub same_case : CaseType → CaseType → Bool
same_case daily_case daily_case = true
same_case gold_case gold_case = true
same_case diamond_case diamond_case = true
same_case black_case black_case = true
same_case _ _ = false

abbrev pub has_case : CaseType → Option CaseType → Bool
has_case t none = false
has_case t (some u) = same_case u t

abbrev pub claimed_in : ℕ → Period → ClaimRow → Bool
claimed_in id p c = c.user_id == id && (c.period_start == p.start && c.period_end == p.end)

-- `claimedCashback` of `loadPeriodTotals`
unfoldable pub load_claimed_cashback : ℕ → Period → List ClaimRow → ℕ
load_claimed_cashback id p [] = 0
load_claimed_cashback id p (c ∷ cs) =
    (if claimed_in id p c && is_cashback c.reward_type then c.amount else 0)
    + load_claimed_cashback id p cs

-- `loadVipCaseOpenCount`
unfoldable pub load_vip_case_open_count : ℕ → CaseType → Period → List ClaimRow → ℕ
load_vip_case_open_count id t p [] = 0
load_vip_case_open_count id t p (c ∷ cs) =
    (if claimed_in id p c && is_case_open c.reward_type && has_case t c.case_type then 1 else 0)
    + load_vip_case_open_count id t p cs

-- `summary.cashback.available`
unfoldable pub available_cashback : ℕ → VipUser → ℕ → VipDb → ℕ
available_cashback id user now db =
    let period = get_weekly_vip_period now in
    calculate_available_cashback (user_tier user) (load_period_theoretical_rake id period db.ledger)
      (load_claimed_cashback id period db.claims)

-- `claimCashback`: the amount, and the database that is committed.
unfoldable pub claim_cashback : ℕ → ℕ → VipDb → Result VipError (ℕ × VipDb)
claim_cashback id now db = do
  user ← or_throw (find_row id db.users) user_not_found
  let available = available_cashback id user now db
  throw_if (leb available 0) no_cashback
  let period = get_weekly_vip_period now
  let claim : ClaimRow = record {
    user_id = id;
    reward_type = cashback;
    amount = available;
    period_start = period.start;
    period_end = period.end;
    case_type = none;
  }
  ok (
    available,
    record db {
      users = save_row id (record user { balance = user.balance + available }) db.users;
      claims = claim ∷ db.claims;
    },
  )

-- `getVipCaseLockMessage`
abbrev pub lock_error : Option LockedReason → VipError
lock_error (some tier) = tier_too_low
lock_error (some cooldown) = on_cooldown
lock_error (some activity) = more_activity
lock_error none = not_available

-- The availability that `buildVipCaseSummary` computes.
unfoldable pub case_availability : ℕ → VipUser → CaseConfig → ℕ → VipDb → Availability
case_availability id user c now db =
    let period = get_vip_case_period c.kind now in
    calculate_vip_case_availability (user_tier user) c
      (load_period_theoretical_rake id period db.ledger)
      (load_vip_case_open_count id c.kind period db.claims) now

-- `openVipCase`, with u / d for the draw's random number.
unfoldable pub open_vip_case :
    ℕ → String → ℕ → ℕ → ℕ → VipDb → Result VipError (DrawnReward × VipDb)
open_vip_case id case_id now u d db = do
  c ← or_throw (get_vip_reward_case_by_slug case_id) unknown_case
  user ← or_throw (find_row id db.users) user_not_found
  let a = case_availability id user c now db
  throw_if (not a.can_open) (lock_error a.locked_reason)
  let reward = draw_vip_case_reward c.kind u d
  let claim : ClaimRow = record {
    user_id = id;
    reward_type = vip_case_open;
    amount = reward.amount;
    period_start = a.period_start;
    period_end = a.period_end;
    case_type = some c.kind;
  }
  ok (
    reward,
    record db {
      users = save_row id (record user { balance = user.balance + reward.amount }) db.users;
      claims = claim ∷ db.claims;
    },
  )
