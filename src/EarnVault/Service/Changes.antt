-- ===== src/EarnVault/Service/Changes.antt =====
-- What each transaction of the vault changes.
use rabbit_backend.Prelude.{
  ℕ, ◌+◌, ◌-◌, ◌≤◌, ◌<◌, ◌≡◌, true, false, some, ok, Option-cases, inl, inr, arith,
}
use Prim.Native.String.{String}
use rabbit_backend.Prelude.Money.{Amount}
use rabbit_backend.Prelude.Table.{find_row, save_row}
use rabbit_backend.EarnVault.Service.{
  active, is_active, Position, VaultDb, active_position_limit, count_active, create_position,
  claim_position, unstake_position,
}

-- What an opened position has changed.
pub record Opened (uid id : ℕ) (p : Position) (balance : ℕ) (db after : VaultDb) : Type 0 where
  pub affordable : p.amount ≤ balance
  pub running : p.status ≡ active
  pub owned : p.user_id ≡ uid
  pub room : count_active uid db.positions < active_position_limit
  pub paid : after.users ≡ save_row uid (balance - p.amount) db.users
  pub stored : after.positions ≡ save_row id p db.positions

pub create_position-Opened :
    (uid : ℕ) (plan_id : String) (amount : Amount) (id now balance : ℕ) (p : Position)
    (db after : VaultDb)
    → find_row uid db.users ≡ some balance
    → create_position uid plan_id amount id now db ≡ ok (p, after)
    → Opened uid id p balance db after
unfolding create_position
create_position-Opened uid plan_id amount id now balance p db after row h = record {
  affordable = ground arith;
  running = ground arith;
  owned = ground arith;
  room = ground arith;
  paid = ground arith;
  stored = ground arith;
}

-- What a closed position has changed.
pub record Closed (uid id paid_out : ℕ) (was p : Position) (balance : ℕ) (db after : VaultDb)
    : Type 0 where
  pub was_stored : find_row id db.positions ≡ some was
  pub was_running : is_active was.status ≡ true
  pub stopped : is_active p.status ≡ false
  pub paid : after.users ≡ save_row uid (balance + was.amount + paid_out) db.users
  pub stored : after.positions ≡ save_row id p db.positions

pub claim_position-Closed :
    (uid id now balance : ℕ) (was p : Position) (db after : VaultDb)
    → find_row id db.positions ≡ some was
    → find_row uid db.users ≡ some balance
    → claim_position uid id now db ≡ ok (p, after)
    → Closed uid id p.reward_amount was p balance db after
unfolding claim_position
claim_position-Closed uid id now balance was p db after found row h = record {
  was_stored = found;
  was_running = ground arith;
  stopped = ground arith;
  paid = ground arith;
  stored = ground arith;
}

pub unstake_position-Closed :
    (uid id now balance : ℕ) (was p : Position) (db after : VaultDb)
    → find_row id db.positions ≡ some was
    → find_row uid db.users ≡ some balance
    → unstake_position uid id now db ≡ ok (p, after)
    → Closed uid id 0 was p balance db after
unfolding unstake_position
unstake_position-Closed uid id now balance was p db after found row h = record {
  was_stored = found;
  was_running = ground arith;
  stopped = ground arith;
  paid = ground arith;
  stored = ground arith;
}

pub opener_has_account :
    (uid : ℕ) (plan_id : String) (amount : Amount) (id now : ℕ) (p : Position) (db after : VaultDb)
    → create_position uid plan_id amount id now db ≡ ok (p, after)
    → (balance : ℕ) × (find_row uid db.users ≡ some balance)
unfolding create_position
opener_has_account uid plan_id amount id now p db after h =
    elim (Option-cases (find_row uid db.users)) [
      | inl missing ↦ absurd (ground arith)
      | inr account ↦ account
    ]

-- The position and the account that a way out of the vault has found.
abbrev pub Found : ℕ → ℕ → VaultDb → Type 0
Found uid id db =
    ((was : Position) × (find_row id db.positions ≡ some was))
    × ((balance : ℕ) × (find_row uid db.users ≡ some balance))

pub claimer-Found :
    (uid id now : ℕ) (p : Position) (db after : VaultDb)
    → claim_position uid id now db ≡ ok (p, after)
    → Found uid id db
unfolding claim_position
claimer-Found uid id now p db after h = elim (Option-cases (find_row id db.positions)) [
  | inl missing ↦ absurd (ground arith)
  | inr found ↦ elim (Option-cases (find_row uid db.users)) [
    | inl missing ↦ absurd (ground arith)
    | inr account ↦ (found, account)
  ]
]

pub unstaker-Found :
    (uid id now : ℕ) (p : Position) (db after : VaultDb)
    → unstake_position uid id now db ≡ ok (p, after)
    → Found uid id db
unfolding unstake_position
unstaker-Found uid id now p db after h = elim (Option-cases (find_row id db.positions)) [
  | inl missing ↦ absurd (ground arith)
  | inr found ↦ elim (Option-cases (find_row uid db.users)) [
    | inl missing ↦ absurd (ground arith)
    | inr account ↦ (found, account)
  ]
]
