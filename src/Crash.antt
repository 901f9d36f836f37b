-- ===== src/Crash.antt =====
-- The crash game: src/modules/crash, the stakes of crash-game.logic.ts and the end of a session in
-- crash.service.ts (cashout, settle), each a transaction with the rows locked. Money and multipliers
-- are in hundredths, which roundCrashMoney leaves as they are.
pub mod Once
pub mod Tests
use rabbit_backend.Prelude.{
  ℕ, ◌+◌, ◌-◌, ◌*◌, Bool, true, false, not, Option, none, some, List, [], ◌∷◌, max, ◌==◌,
  if◌then◌else◌, Result, ok, err, ◌>>=◌, ◌>>◌, throw_if, or_throw,
}
use rabbit_backend.Prelude.Money.{round_div}
use rabbit_backend.Prelude.Table.{Table, find_row, save_row}
use rabbit_backend.Prelude.Money.{Amount}
use rabbit_backend.Vip.Earning.{
  LedgerSource, crash_product_house_edge_bps, VipEarning, calculate_fixed_house_edge_vip_earning,
}
use rabbit_backend.Vip.Store.{VipUser, VipDb, record_earning}

-- `betCount`
pub data BetCount : Type 0 where
  one_bet two_bets : BetCount

unfoldable pub split_crash_stake : ℕ → BetCount → List ℕ
split_crash_stake total_stake one_bet = total_stake ∷ []
split_crash_stake total_stake two_bets =
    let first_stake = round_div total_stake 2 in first_stake ∷ (total_stake - first_stake) ∷ []

unfoldable pub calculate_crash_payout : ℕ → ℕ → ℕ
calculate_crash_payout stake multiplier = round_div (stake * max 100 multiplier) 100

pub data CrashStatus : Type 0 where
  active cashed_out crashed : CrashStatus

abbrev pub is_playing : CrashStatus → Bool
is_playing active = true
is_playing _ = false

abbrev pub is_cashed_out : CrashStatus → Bool
is_cashed_out cashed_out = true
is_cashed_out _ = false

pub record CrashSession : Type 0 where
  pub user_id : ℕ
  pub stake_amount : ℕ
  pub status : CrashStatus
  pub cashout_multiplier : Option ℕ
  pub win_amount : Option ℕ

pub record CrashDb : Type 0 where
  pub vip : VipDb  -- with the users
  pub sessions : Table CrashSession

pub data CrashError : Type 0 where
  user_not_found session_not_found not_active : CrashError

abbrev pub crash_session_of : ℕ → Option CrashSession → Option CrashSession
crash_session_of uid none = none
crash_session_of uid (some s) = if s.user_id == uid then some s else none

-- The row that `lockSession` finds
abbrev pub find_crash_session : ℕ → ℕ → CrashDb → Option CrashSession
find_crash_session uid id db = crash_session_of uid (find_row id db.sessions)

abbrev pub crash_earning : CrashSession → VipEarning
crash_earning s =
    calculate_fixed_house_edge_vip_earning LedgerSource.crash_round
      (Amount.at_least_zero s.stake_amount) crash_product_house_edge_bps

-- `recordVipEarning` for the user that the caller holds, then `manager.save(user)`
unfoldable pub record_crash_earning : ℕ → VipUser → CrashSession → ℕ → VipDb → VipDb
record_crash_earning uid user s now vip =
    let (user', vip') = record_earning uid user (crash_earning s) now vip in
    record vip' { users = save_row uid user' vip'.users }

-- `cashout`, with the multiplier of the request
unfoldable pub cash_out : ℕ → ℕ → ℕ → ℕ → CrashDb → Result CrashError (CrashSession × CrashDb)
cash_out uid id multiplier now db = do
  session ← or_throw (find_crash_session uid id db) session_not_found
  user ← or_throw (find_row uid db.vip.users) user_not_found
  let win = calculate_crash_payout session.stake_amount multiplier
  let ended : CrashSession = record session {
    status = cashed_out;
    cashout_multiplier = some multiplier;
    win_amount = some win;
  }
  let paid : VipUser = record user { balance = user.balance + win }
  if is_cashed_out session.status
      then ok (session, db)
      else (throw_if (not (is_playing session.status)) not_active
          >> ok (
            ended,
            record {
              vip = record_crash_earning uid paid ended now db.vip;
              sessions = save_row id ended db.sessions;
            },
          ))

-- `settle`
unfoldable pub settle : ℕ → ℕ → ℕ → CrashDb → Result CrashError (CrashSession × CrashDb)
settle uid id now db = do
  session ← or_throw (find_crash_session uid id db) session_not_found
  let ended : CrashSession = record session {
    status = crashed;
    cashout_multiplier = some 0;
    win_amount = some 0;
  }
  if is_playing session.status
      then (or_throw (find_row uid db.vip.users) user_not_found >>= λ user. ok (
        ended,
        record {
          vip = (record_earning uid user (crash_earning ended) now db.vip).1;
          sessions = save_row id ended db.sessions;
        },
      ))
      else ok (session, db)
