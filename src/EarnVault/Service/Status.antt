-- ===== src/EarnVault/Service/Status.antt =====
-- Which of the two ways out of a position is open, and that each is taken once.
use rabbit_backend.Prelude.{
  ℕ, ◌≡◌, refl, Bool, true, false, ◌&&◌, ◌||◌, some, leb, ◌==◌, Result, ok, err, Bool-cases, inl,
  inr,
}
use rabbit_backend.Prelude.Table.{find_row}
use rabbit_backend.EarnVault.Plans.{is_earn_vault_position_mature}
use rabbit_backend.EarnVault.Service.{
  is_active, Position, VaultDb, VaultError, find_position, claim_position, unstake_position,
  to_position_dto,
}

abbrev pub succeeds : {A : Type 0} → Result VaultError A → Bool
succeeds (ok _) = true
succeeds (err _) = false

-- For a position of a user with an account, at every moment: the claim succeeds exactly if the
-- position's summary says that it can be claimed, the early exit exactly if the summary says that
-- it can be unstaked, and exactly one of the two is open while the position is active, none after.
pub claim_or_unstake :
    (uid id now balance : ℕ) (p : Position) (db : VaultDb)
    → find_position uid id db ≡ some p
    → find_row uid db.users ≡ some balance
    → let dto = to_position_dto p now in
      (succeeds (claim_position uid id now db) ≡ dto.can_claim)
      × (succeeds (unstake_position uid id now db) ≡ dto.can_unstake)
      × ((dto.can_claim && dto.can_unstake) ≡ false)
      × ((dto.can_claim || dto.can_unstake) ≡ is_active p.status)
unfolding claim_position unstake_position to_position_dto is_earn_vault_position_mature
claim_or_unstake uid id now balance p db found row = elim (Bool-cases (is_active p.status)) [
  | inl e ↦ elim (Bool-cases (p.duration_days == 0)) [
    | inl f ↦ rw (found, row, e, f) (refl, refl, refl, refl)
    | inr f ↦ elim (Bool-cases (leb p.ends_at now)) [
      | inl g ↦ rw (found, row, e, f, g) (refl, refl, refl, refl)
      | inr g ↦ rw (found, row, e, f, g) (refl, refl, refl, refl)
    ]
  ]
  | inr e ↦ rw (found, row, e) (refl, refl, refl, refl)
]
