-- ===== src/EarnVault/Service/Money.antt =====
-- Histories of the vault's transactions: no money appears but the rewards, and no user passes the
-- limit of active positions.
use rabbit_backend.Prelude.{
  ℕ, ◌+◌, ◌-◌, ◌≤◌, ◌≡◌, refl, true, false, ◌&&◌, none, some, [], ◌∷◌, ◌==◌, if◌then◌else◌, ok,
  Bool-cases, inl, inr, arith,
}
use Prim.Native.String.{String}
use rabbit_backend.Prelude.Money.{Amount}
use rabbit_backend.Prelude.Table.{
  Table, find_row, save_row, total, row_value, total-save_row, total-save_row_over,
  total-save_row_new,
}
use rabbit_backend.EarnVault.Service.Changes.{
  Opened, create_position-Opened, Closed, claim_position-Closed, unstake_position-Closed,
  opener_has_account, claimer-Found, unstaker-Found,
}
use rabbit_backend.EarnVault.Service.{
  is_active, Position, VaultDb, active_position_limit, count_active, create_position,
  claim_position, unstake_position,
}

-- What an active position holds of its user's money.
abbrev pub stake_of : Position → ℕ
stake_of p = if is_active p.status then p.amount else 0

abbrev pub counts_for : ℕ → Position → ℕ
counts_for uid p = if p.user_id == uid && is_active p.status then 1 else 0

-- All the users' money, on their balances and in the vault.
abbrev pub wealth : VaultDb → ℕ
wealth db = total (λ b. b) db.users + total stake_of db.positions

-- One committed transaction: the money it hands out as a reward, and its key is fresh if it opens a
-- position.
pub data Step : VaultDb → ℕ → VaultDb → Type 0 where
  created :
      (uid : ℕ) (plan_id : String) (amount : Amount) (id now : ℕ) (p : Position)
      {db after : VaultDb}
      → find_row id db.positions ≡ none
      → create_position uid plan_id amount id now db ≡ ok (p, after)
      → Step db 0 after
  claimed_by :
      (uid id now : ℕ) (p : Position) {db after : VaultDb}
      → claim_position uid id now db ≡ ok (p, after)
      → Step db p.reward_amount after
  unstaked :
      (uid id now : ℕ) (p : Position) {db after : VaultDb}
      → unstake_position uid id now db ≡ ok (p, after)
      → Step db 0 after

pub data History : VaultDb → ℕ → VaultDb → Type 0 where
  start : {db : VaultDb} → History db 0 db
  then_step :
      {first middle last : VaultDb} {paid reward : ℕ}
      → History first paid middle
      → Step middle reward last
      → History first (paid + reward) last

abbrev pub IsWithinLimit : VaultDb → Type 0
IsWithinLimit db = (uid : ℕ) → count_active uid db.positions ≤ active_position_limit

count_active-total : (uid : ℕ) (t : Table Position) → count_active uid t ≡ total (counts_for uid) t
unfolding count_active total
count_active-total uid [] = refl
count_active-total uid (e ∷ t) = rw (count_active-total uid t) refl

count_active-save_row :
    (uid k : ℕ) (v : Position) (t : Table Position)
    → count_active uid (save_row k v t) + row_value (counts_for uid) (find_row k t)
      ≡ count_active uid t + counts_for uid v
count_active-save_row uid k v t =
    rw (count_active-total uid (save_row k v t), count_active-total uid t)
      (total-save_row (counts_for uid) k v t)

stake_of_stopped : (p : Position) → is_active p.status ≡ false → stake_of p ≡ 0
stake_of_stopped p e = rw e refl

stake_of_running : (p : Position) → is_active p.status ≡ true → stake_of p ≡ p.amount
stake_of_running p e = rw e refl

Opened-wealth :
    {uid id balance : ℕ} {p : Position} {db after : VaultDb}
    → find_row uid db.users ≡ some balance
    → find_row id db.positions ≡ none
    → Opened uid id p balance db after
    → wealth after ≡ wealth db
Opened-wealth {uid = uid} {id = id} {balance = balance} {p = p} {db = db} row fresh o =
    let users = total-save_row_over (λ b. b) uid (balance - p.amount) balance db.users row in
    let positions = total-save_row_new stake_of id p db.positions fresh in
    let stake = stake_of_running p (rw o.running refl) in
    let affordable = o.affordable in rw (o.paid, o.stored) (omega arith)

Closed-wealth :
    {uid id paid_out balance : ℕ} {was p : Position} {db after : VaultDb}
    → find_row uid db.users ≡ some balance
    → Closed uid id paid_out was p balance db after
    → wealth after ≡ wealth db + paid_out
Closed-wealth {uid = uid} {id = id} {paid_out = r} {balance = balance} {was = was} {p = p} {db = db}
      row o =
    let users = total-save_row_over (λ b. b) uid (balance + was.amount + r) balance db.users row in
    let positions = total-save_row_over stake_of id p was db.positions o.was_stored in
    let stake = stake_of_running was o.was_running in
    let freed = stake_of_stopped p o.stopped in rw (o.paid, o.stored) (omega arith)

Opened-limit :
    {uid id balance : ℕ} {p : Position} {db after : VaultDb}
    → Opened uid id p balance db after
    → IsWithinLimit db
    → IsWithinLimit after
Opened-limit {uid = uid} {id = id} {p = p} {db = db} o l other =
    let rows = count_active-save_row other id p db.positions in
    let before = l other in
    rw (o.stored)
      (elim (Bool-cases (uid == other)) [ inl same ↦ ground arith | inr e ↦ ground arith ])

Closed-limit :
    {uid id paid_out balance : ℕ} {was p : Position} {db after : VaultDb}
    → Closed uid id paid_out was p balance db after
    → IsWithinLimit db
    → IsWithinLimit after
Closed-limit {uid = uid} {id = id} {p = p} {db = db} o l other =
    let rows = count_active-save_row other id p db.positions in
    let before = l other in
    let none_more : counts_for other p ≡ 0 = ground (arith, o.stopped) in
    rw (o.stored) (omega arith)

-- What a transaction keeps.
abbrev Keeps : VaultDb → ℕ → VaultDb → Type 0
Keeps db reward after =
    (wealth after ≡ wealth db + reward) × (IsWithinLimit db → IsWithinLimit after)

Step-Keeps : {db after : VaultDb} {reward : ℕ} → Step db reward after → Keeps db reward after
Step-Keeps (created uid plan_id amount id now p {db = db} {after = after} fresh h) =
    let (balance, row) = opener_has_account uid plan_id amount id now p db after h in
    let o = create_position-Opened uid plan_id amount id now balance p db after row h in
    let same = Opened-wealth row fresh o in (omega arith, Opened-limit o)
Step-Keeps (claimed_by uid id now p {db = db} {after = after} h) =
    let ((was, found), (balance, row)) = claimer-Found uid id now p db after h in
    let o = claim_position-Closed uid id now balance was p db after found row h in
    (Closed-wealth row o, Closed-limit o)
Step-Keeps (unstaked uid id now p {db = db} {after = after} h) =
    let ((was, found), (balance, row)) = unstaker-Found uid id now p db after h in
    let o = unstake_position-Closed uid id now balance was p db after found row h in
    (Closed-wealth row o, Closed-limit o)

-- Along any history of opened, claimed and unstaked positions, the balances and the active stakes
-- together grow by exactly the rewards that the claims have paid; and if no user had more than 25
-- active positions, none has after.
pub wealth_conserved :
    {first last : VaultDb} {paid : ℕ}
    → IsWithinLimit first
    → History first paid last
    → (wealth last ≡ wealth first + paid) × IsWithinLimit last
wealth_conserved l start = (omega arith, l)
wealth_conserved l (then_step h s) =
    let (rest, within) = wealth_conserved l h in
    let (more, kept) = Step-Keeps s in (omega arith, kept within)
