-- ===== src/Vip/Store/Balances.antt =====
-- The balances of the users, which an earning leaves alone.
use rabbit_backend.Prelude.{ℕ, ◌+◌, ◌≡◌, refl, ◌&&◌, some, leb, Bool-cases, inl, inr, arith}
use rabbit_backend.Prelude.Table.{find_row, save_row, save_row_twice, total, total-save_row_over}
use rabbit_backend.Vip.Earning.{VipEarning}
use rabbit_backend.Vip.Store.{VipUser, VipDb, earned_user, record_earning}

abbrev pub balance_of : VipUser → ℕ
balance_of u = u.balance

-- The earning writes the user back with the same balance, or not at all.
pub record_earning_balances :
    (uid now : ℕ) (user : VipUser) (e : VipEarning) (vip : VipDb)
    → find_row uid vip.users ≡ some user
    → total balance_of (record_earning uid user e now vip).1.users ≡ total balance_of vip.users
unfolding record_earning
record_earning_balances uid now user e vip row =
    let written = total-save_row_over balance_of uid (earned_user user e) user vip.users row in
    elim (Bool-cases (leb e.vip_xp 0 && leb e.theoretical_rake 0)) [
      | inl skip ↦ rw skip refl
      | inr counts ↦ rw counts (omega arith)
    ]

-- A recorded earning of a user whose balance is another than that of the row, and the user saved again
pub recorded_balances :
    (uid now : ℕ) (user was : VipUser) (e : VipEarning) (vip : VipDb)
    → find_row uid vip.users ≡ some was
    → let (user', vip') = record_earning uid user e now vip in
      total balance_of (save_row uid user' vip'.users) + was.balance
      ≡ total balance_of vip.users + user.balance
unfolding record_earning
recorded_balances uid now user was e vip row =
    let written = total-save_row_over balance_of uid (earned_user user e) was vip.users row in
    let saved = total-save_row_over balance_of uid user was vip.users row in
    elim (Bool-cases (leb e.vip_xp 0 && leb e.theoretical_rake 0)) [
      | inl skip ↦ rw skip saved
      | inr counts ↦
          rw (counts, save_row_twice uid (earned_user user e) (earned_user user e) vip.users)
            written
    ]
