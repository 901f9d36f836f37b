-- ===== src/Upgrade/Trades.antt =====
-- An upgrade as a trade of its cost for a chance to win, which its history row records.
use rabbit_backend.Prelude.{
  ℕ, ◌+◌, ◌≡◌, refl, Bool, true, false, none, some, ◌∷◌, if◌then◌else◌, Result, ok, err, Bool-cases,
  Option-cases, Result-cases, inl, inr, arith,
}
use rabbit_backend.Prelude.Table.{find_row, total-save_row_new}
use rabbit_backend.Prelude.Rows.{save_row-All, save_row-Distinct}
use rabbit_backend.Vip.Store.Balances.{record_earning_balances}
use rabbit_backend.Withdraw.{GameType}
use rabbit_backend.Inventory.{InventoryDb, Skin, new_item, create_inventory}
use rabbit_backend.Inventory.Wealth.{value_of, wealth, Apart, IsValid}
use rabbit_backend.Upgrade.{
  UpgradeDto, is_valid_dto, UpgradeError, UpgradeRow, UpgradeDb, UpgradeResult, Source,
  calculate_chance_by_price, process_upgrade, or_csgo, roll_upgrade, create_upgraded_skin,
  upgrade_earning, upgrade_row, finish_upgrade, perform_upgrade,
}
use rabbit_backend.Upgrade.Money.{Paid, IsPaid, process_upgrade-IsPaid}

-- What the row says that was won
abbrev pub prize_of : UpgradeRow → ℕ
prize_of row = if row.success then row.skin_price else 0

-- What a row of the history says of the database before and after
pub record Trade (uid : ℕ) (db after : UpgradeDb) (row : UpgradeRow) : Type 0 where
  pub recorded : after.history ≡ row ∷ db.history
  pub owner : row.user_id ≡ uid
  pub traded : wealth after.inventory + row.cost ≡ wealth db.inventory + prize_of row
  pub chosen : calculate_chance_by_price row.cost row.skin_price ≡ ok row.chance
  pub valid : IsValid after.inventory

create_upgraded_skin-wealth :
    (success : Bool) (uid skin_id key : ℕ) (skin : Skin) (game_type : GameType) (db : InventoryDb)
    → find_row key db.skins.items ≡ none
    → IsValid db
    → let created = create_upgraded_skin success uid skin_id skin game_type key db in
      (wealth created ≡ wealth db + (if success then skin.market_price else 0))
      × IsValid created
      × (created.vip ≡ db.vip)
unfolding create_inventory
create_upgraded_skin-wealth false uid skin_id key skin game_type db fresh valid =
    (omega arith, valid, refl)
create_upgraded_skin-wealth true uid skin_id key skin game_type db fresh (apart, distinct) =
    let item = new_item uid skin_id skin game_type in
    let added = total-save_row_new value_of key item db.skins.items fresh in
    (
      omega arith,
      (
        save_row-All Apart key item db.skins.items refl apart,
        save_row-Distinct key item db.skins.items distinct,
      ),
      refl,
    )

finish_upgrade-Trade :
    (uid key now : ℕ) (dto : UpgradeDto) (game_type : GameType) (source : Source) (success : Bool)
    (db : UpgradeDb)
    → Paid uid key db source
    → Trade uid db
        (finish_upgrade uid dto game_type source success key now db)
        (upgrade_row uid dto game_type source success)
unfolding finish_upgrade
finish_upgrade-Trade uid key now dto game_type source success db paid =
    let skin = source.target_skin in
    let created =
      create_upgraded_skin success uid dto.target_skin_id skin game_type key source.paid in
    let (grown, valid, vip) =
      create_upgraded_skin-wealth success uid dto.target_skin_id key skin game_type source.paid
        paid.fresh paid.valid in
    let row : find_row uid created.vip.users ≡ some source.user = rw vip (paid.row) in
    let kept =
      record_earning_balances uid now source.user (upgrade_earning source) created.vip row in
    let spent = paid.spent in
    record {
      recorded = refl;
      owner = refl;
      traded = omega arith;
      chosen = paid.chosen;
      valid = valid;
    }

-- What a call does: nothing, or a trade that it records
abbrev pub Traded : ℕ → UpgradeDb → Result UpgradeError (UpgradeResult × UpgradeDb) → Type 0
Traded uid db (err _) = Unit
Traded uid db (ok (result, after)) =
    (row : UpgradeRow) × (row.success ≡ result.success)
    × (row.chance ≡ result.chance)
    × Trade uid db after row

-- With materials or with the balance, for any roll, when the key of the new row is free, no two items
-- have the same key, and none is both sold and withdrawn: an upgrade that is not refused adds one row
-- of the user to the history, whose success and chance are those of the reply; the balances and the
-- unsold items together change by just the price of the target, if the row says success, less the
-- cost of the row; and the chance is what the service calculates for that cost and that price.
pub perform_upgrade-Traded :
    (uid key now u d : ℕ) (dto : UpgradeDto) (db : UpgradeDb)
    → find_row key db.inventory.skins.items ≡ none
    → IsValid db.inventory
    → Traded uid db (perform_upgrade uid dto (u, d) key now db)
unfolding perform_upgrade IsPaid
perform_upgrade-Traded uid key now u d dto db fresh valid =
    let game_type = or_csgo dto.game_type in
    elim (Bool-cases (is_valid_dto dto)) [
      | inr bad ↦ rw (bad, Traded) tt
      | inl good ↦ elim (Option-cases (find_row uid db.inventory.vip.users)) [
        | inl missing ↦ rw (good, missing, Traded) tt
        | inr (user, row) ↦
            let paid =
              process_upgrade-IsPaid uid key user dto game_type db row fresh valid
                dto.use_balance in
            elim (Result-cases (process_upgrade dto.use_balance uid user dto game_type db)) [
              | inl (_, e) ↦ rw (good, row, e, Traded) tt
              | inr (source, e) ↦
                  let success = (roll_upgrade source.chance u d).0 in
                  let trade =
                    finish_upgrade-Trade uid key now dto game_type source success db
                      (rw e at paid) in
                  rw (good, row, e, Traded)
                    (upgrade_row uid dto game_type source success, refl, refl, trade)
            ]
      ]
    ]
