-- ===== src/Crash/Once.antt =====
-- A session ends once, and a stake is split without a loss.
use rabbit_backend.Prelude.{
  ℕ, ◌+◌, ◌≡◌, refl, true, ◌&&◌, some, ◌==◌, ==_refl, leb, sum, ok, Bool-cases, inl, inr, arith,
}
use rabbit_backend.Prelude.Money.{round_div}
use rabbit_backend.Prelude.Table.{find_row, save_row, find_row-save_row_self}
use rabbit_backend.Vip.Store.{VipUser, VipDb, earned_user, record_earning}
use rabbit_backend.Crash.{
  BetCount, one_bet, two_bets, split_crash_stake, calculate_crash_payout, active, cashed_out,
  CrashSession, CrashDb, crash_earning, record_crash_earning, cash_out, settle,
}

-- The parts of a split stake add up to the stake.
pub sum-split_crash_stake :
    (total_stake : ℕ) (count : BetCount) → sum (split_crash_stake total_stake count) ≡ total_stake
unfolding split_crash_stake round_div
sum-split_crash_stake total_stake one_bet = omega arith
sum-split_crash_stake total_stake two_bets = omega arith

-- The row that the earning leaves for the user has the balance that it was given.
paid_row :
    (uid now : ℕ) (user : VipUser) (s : CrashSession) (vip : VipDb)
    → (u : VipUser) × (find_row uid (record_crash_earning uid user s now vip).users ≡ some u)
      × (u.balance ≡ user.balance)
unfolding record_crash_earning record_earning
paid_row uid now user s vip =
    let e = crash_earning s in
    elim (Bool-cases (leb e.vip_xp 0 && leb e.theoretical_rake 0)) [
      | inl skip ↦ rw skip (user, find_row-save_row_self uid user vip.users, refl)
      | inr counts ↦ rw counts (
        earned_user user e,
        find_row-save_row_self uid (earned_user user e)
            (save_row uid (earned_user user e) vip.users),
        refl,
      )
    ]

-- A running session of a user with an account, and any multiplier that the client names: the
-- cash-out adds the payout of the stake at that multiplier to the balance. A further cash-out,
-- whatever multiplier it names, and a settlement reply with the same session and change nothing.
pub cash_out_once :
    (uid id multiplier now multiplier' now' : ℕ) (session : CrashSession) (user : VipUser)
    (db : CrashDb)
    → find_row id db.sessions ≡ some session
    → session.user_id ≡ uid
    → session.status ≡ active
    → find_row uid db.vip.users ≡ some user
    → (s : CrashSession) × (after : CrashDb) × (u : VipUser) × (cash_out uid id multiplier now db
        ≡ ok (s, after))
      × (find_row uid after.vip.users ≡ some u)
      × (u.balance ≡ user.balance + calculate_crash_payout session.stake_amount multiplier)
      × (cash_out uid id multiplier' now' after ≡ ok (s, after))
      × (settle uid id now' after ≡ ok (s, after))
unfolding cash_out settle
cash_out_once uid id multiplier now multiplier' now' session user db found owner running row =
    let win = calculate_crash_payout session.stake_amount multiplier in
    let ended : CrashSession = record session {
      status = cashed_out;
      cashout_multiplier = some multiplier;
      win_amount = some win;
    } in
    let paid : VipUser = record user { balance = user.balance + win } in
    let after : CrashDb = record {
      vip = record_crash_earning uid paid ended now db.vip;
      sessions = save_row id ended db.sessions;
    } in
    let (u, stored, balance) = paid_row uid now paid ended db.vip in
    let kept = find_row-save_row_self id ended db.sessions in
    let mine : (session.user_id == uid) ≡ true = rw owner (==_refl uid) in
    (
      ended,
      after,
      u,
      rw (found, mine, row, running) refl,
      stored,
      balance,
      rw (kept, mine, stored) refl,
      rw (kept, mine) refl,
    )
