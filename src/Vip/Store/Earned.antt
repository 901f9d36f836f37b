-- ===== src/Vip/Store/Earned.antt =====
-- What recording an earning does to the user, the ledger and the notifications.
use rabbit_backend.Prelude.{
  ℕ, ◌+◌, ◌≤◌, ◌<◌, ◌≡◌, ◌≢◌, refl, Bool, true, false, ◌&&◌, some, List, [], ◌∷◌, length, ◌==◌,
  ==_refl, leb, if◌then◌else◌, inl, inr, Bool-cases, arith,
}
use rabbit_backend.Prelude.Table.{find_row, find_row-save_row_self, find_row-save_row_ne}
use rabbit_backend.Vip.Tiers.{same_tier}
use rabbit_backend.Vip.Tiers.Choice.{get_vip_tier_for_xp_mono}
use rabbit_backend.Vip.Earning.{VipEarning}
use rabbit_backend.Vip.Store.{
  VipUser, LedgerRow, LevelUp, VipDb, or_zero, user_xp, user_tier, earned_user, record_earning,
}

-- The experience and the rake that the ledger holds for a user.
abbrev pub ledger_xp : ℕ → List LedgerRow → ℕ
ledger_xp id [] = 0
ledger_xp id (r ∷ rs) = (if r.user_id == id then r.vip_xp else 0) + ledger_xp id rs

abbrev pub ledger_rake : ℕ → List LedgerRow → ℕ
ledger_rake id [] = 0
ledger_rake id (r ∷ rs) = (if r.user_id == id then r.theoretical_rake else 0) + ledger_rake id rs

-- From the user and the database before to those after, where the earning is of some worth
pub record Grown (id : ℕ) (u : VipUser) (e : VipEarning) (db : VipDb) (u' : VipUser) (db' : VipDb)
    : Type 0 where
  pub saved : find_row id db'.users ≡ some u'
  pub others : (j : ℕ) → j ≢ id → find_row j db'.users ≡ find_row j db.users
  pub xp_added : user_xp u' ≡ user_xp u + e.vip_xp
  pub rake_added :
      or_zero u'.vip_theoretical_rake ≡ or_zero u.vip_theoretical_rake + e.theoretical_rake
  pub ledger_xp_added : ledger_xp id db'.ledger ≡ ledger_xp id db.ledger + e.vip_xp
  pub ledger_rake_added : ledger_rake id db'.ledger ≡ ledger_rake id db.ledger + e.theoretical_rake
  pub one_row : length db'.ledger ≡ length db.ledger + 1
  pub balance_kept : u'.balance ≡ u.balance
  pub claims_kept : db'.claims ≡ db.claims
  pub tier_kept : (user_tier u).threshold ≤ (user_tier u').threshold
  pub announced :
      length db'.level_ups
      ≡ length db.level_ups + (if same_tier (user_tier u').id (user_tier u).id then 0 else 1)

-- What an earning does: nothing, if it is worth nothing
pub data Earned (id : ℕ) (u : VipUser) (e : VipEarning) (db : VipDb)
    : VipUser × VipDb → Type 0 where
  worthless : e.vip_xp ≡ 0 → e.theoretical_rake ≡ 0 → Earned id u e db (u, db)
  grown :
      {u' : VipUser} {db' : VipDb}
      → 0 < e.vip_xp + e.theoretical_rake
      → Grown id u e db u' db'
      → Earned id u e db (u', db')

announced_lem :
    (b : Bool) (l : List LevelUp) (n : LevelUp)
    → length (if b then l else n ∷ l) ≡ length l + (if b then 0 else 1)
announced_lem true l n = omega arith
announced_lem false l n = omega arith

-- Of a user whose experience is not null: an earning without experience and rake changes nothing. Any
-- other is saved in the row of the user and in no other, with its experience and rake added; it adds one
-- row to the ledger, which holds the same amounts for that user; the balance and the claims stay, the
-- tier is never lower, and there is one more notification exactly when the tier changes.
pub record_earning-Earned :
    (id xp now : ℕ) (u : VipUser) (e : VipEarning) (db : VipDb)
    → u.vip_xp ≡ some xp
    → Earned id u e db (record_earning id u e now db)
unfolding record_earning
record_earning-Earned id xp now u e db h =
    let raised = get_vip_tier_for_xp_mono xp (xp + e.vip_xp) (omega arith) in
    let after = earned_user u e in
    let mine : (id == id) ≡ true = ==_refl id in
    elim (Bool-cases (leb e.vip_xp 0 && leb e.theoretical_rake 0)) [
      | inl skip ↦ rw skip (worthless (ground arith) (ground arith))
      | inr counts ↦ rw counts (
          grown (ground arith) (record {
            saved = find_row-save_row_self id after db.users;
            others = λ j other. find_row-save_row_ne j id after db.users other;
            xp_added = ground arith;
            rake_added = refl;
            ledger_xp_added = rw mine (omega arith);
            ledger_rake_added = rw mine (omega arith);
            one_row = omega arith;
            balance_kept = refl;
            claims_kept = refl;
            tier_kept = ground (arith, raised);
            announced =
                announced_lem (same_tier (user_tier after).id (user_tier u).id) db.level_ups _;
          }))
    ]
