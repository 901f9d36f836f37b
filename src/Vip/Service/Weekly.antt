-- ===== src/Vip/Service/Weekly.antt =====
-- The weekly cashback: its cap, and what a claim leaves.
use rabbit_backend.Prelude.{ℕ, ◌+◌, ◌≤◌, ◌<◌, ◌≡◌, none, some, List, ◌∷◌, ==_refl, ok, err, arith}
use rabbit_backend.Prelude.Table.{find_row, save_row, find_row-save_row_self}
use rabbit_backend.Vip.Periods.{Period, get_weekly_vip_period}
use rabbit_backend.Vip.Rewards.{calculate_available_cashback_bounds}
use rabbit_backend.Vip.Store.{VipUser, cashback, ClaimRow, VipDb, user_tier}
use rabbit_backend.Vip.Service.{
  no_cashback, load_period_theoretical_rake, load_claimed_cashback, available_cashback,
  claim_cashback,
}

-- What a successful claim of `amount` has found and done.
record Claimed (id now : ℕ) (user : VipUser) (db : VipDb) (amount : ℕ) (db' : VipDb) : Type 0 where
  positive : 0 < amount
  available : amount ≡ available_cashback id user now db
  paid : db'.users ≡ save_row id (record user { balance = user.balance + amount }) db.users
  ledger_kept : db'.ledger ≡ db.ledger
  recorded :
      db'.claims
      ≡ record {
        user_id = id;
        reward_type = cashback;
        amount = amount;
        period_start = (get_weekly_vip_period now).start;
        period_end = (get_weekly_vip_period now).end;
        case_type = none;
      }
        ∷ db.claims

claim_cashback-Claimed :
    (id now : ℕ) (db : VipDb) (user : VipUser) {amount : ℕ} {db' : VipDb}
    → find_row id db.users ≡ some user
    → claim_cashback id now db ≡ ok (amount, db')
    → Claimed id now user db amount db'
unfolding claim_cashback
claim_cashback-Claimed id now db user row h = record {
  positive = ground arith;
  available = ground arith;
  paid = ground arith;
  ledger_kept = ground arith;
  recorded = ground arith;
}

claimed_more :
    (id amount : ℕ) (p : Period) (cs : List ClaimRow)
    → load_claimed_cashback id p (
        record {
          user_id = id;
          reward_type = cashback;
          amount = amount;
          period_start = p.start;
          period_end = p.end;
          case_type = none;
        }
        ∷ cs)
      ≡ load_claimed_cashback id p cs + amount
unfolding load_claimed_cashback
claimed_more id amount p cs = rw (==_refl id, ==_refl p.start, ==_refl p.end) (omega arith)

refused_if_none :
    (id now : ℕ) (db : VipDb) (user : VipUser)
    → find_row id db.users ≡ some user
    → available_cashback id user now db ≡ 0
    → claim_cashback id now db ≡ err no_cashback
unfolding claim_cashback
refused_if_none id now db user row nothing = rw (row, nothing)

-- A cashback claim that succeeds pays a positive amount into the balance. With it, the cashback
-- that the user has claimed in the week is at most the weekly cap of the user's tier, and the same
-- claim at the same moment is refused for want of cashback.
pub claim_cashback_capped :
    (id now : ℕ) (db : VipDb) (user : VipUser) {amount : ℕ} {db' : VipDb}
    → find_row id db.users ≡ some user
    → claim_cashback id now db ≡ ok (amount, db')
    → (0 < amount)
      × (find_row id db'.users ≡ some (record user { balance = user.balance + amount }))
      × (load_claimed_cashback id (get_weekly_vip_period now) db'.claims
          ≤ (user_tier user).weekly_cashback_cap)
      × (claim_cashback id now db' ≡ err no_cashback)
unfolding available_cashback
claim_cashback_capped id now db user {amount = amount} {db' = db'} row h =
    let o = claim_cashback-Claimed id now db user row h in
    let period = get_weekly_vip_period now in
    let claimed = load_claimed_cashback id period db.claims in
    let rake = load_period_theoretical_rake id period db.ledger in
    let user' : VipUser = record user { balance = user.balance + amount } in
    let (within, exhausted) = calculate_available_cashback_bounds (user_tier user) rake claimed in
    let total : load_claimed_cashback id period db'.claims ≡ claimed + amount =
      rw o.recorded (claimed_more id amount period db.claims) in
    let paid : find_row id db'.users ≡ some user' =
      rw o.paid (find_row-save_row_self id user' db.users) in
    (
      o.positive,
      paid,
      omega (arith, total, o.available, within, o.positive),
      refused_if_none id now db' user' paid (rw (total, o.ledger_kept, o.available) exhausted),
    )
