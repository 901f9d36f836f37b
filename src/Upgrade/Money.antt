-- ===== src/Upgrade/Money.antt =====
-- The money of an upgrade: it costs its price, whatever pays it, and wins its target or nothing.
use rabbit_backend.Prelude.{
  ℕ, ◌+◌, ◌-◌, ◌≤◌, ◌≡◌, refl, Bool, true, false, none, some, List, [], ◌∷◌, keep, length, ltb,
  ◌==◌, Result, ok, err, Bool-cases, Result-cases, inl, inr, arith,
}
use rabbit_backend.Prelude.Table.{
  Table, find_row, find_row-save_row_self, total, total-save_row_over,
}
use rabbit_backend.Prelude.Rows.{
  keep-Known, delete_rows, delete_row_missing, total-delete_rows, delete_rows-All,
  delete_rows-Distinct,
}
use rabbit_backend.Vip.Store.{VipUser}
use rabbit_backend.Vip.Store.Balances.{balance_of}
use rabbit_backend.Withdraw.{GameType, Item}
use rabbit_backend.Inventory.{with_items, price_of, Skin}
use rabbit_backend.Inventory.Wealth.{value_of, wealth, Apart, IsValid}
use rabbit_backend.Upgrade.{
  UpgradeDto, UpgradeError, UpgradeDb, Source, is_material, load_target_skin,
  calculate_chance_by_price, process_balance_upgrade, process_inventory_upgrade, process_upgrade,
  has_target, has_no_price, min_amount, max_amount,
}

-- What is known of a source that is paid
pub record Paid (uid key : ℕ) (db : UpgradeDb) (source : Source) : Type 0 where
  pub spent : wealth source.paid + source.cost ≡ wealth db.inventory
  pub valid : IsValid source.paid
  pub row : find_row uid source.paid.vip.users ≡ some source.user
  pub fresh : find_row key source.paid.skins.items ≡ none
  pub chosen :
      calculate_chance_by_price source.cost source.target_skin.market_price ≡ ok source.chance

delete_rows_missing :
    {V : Type 0} (k : ℕ) (rows t : Table V)
    → find_row k t ≡ none
    → find_row k (delete_rows rows t) ≡ none
delete_rows_missing k [] t h = h
delete_rows_missing k ((j, v) ∷ rows) t h =
    delete_row_missing k j (delete_rows rows t) (delete_rows_missing k rows t h)

-- The materials are not sold, so they are worth their prices.
materials_value :
    (uid : ℕ) (ids : List ℕ) (items : Table Item)
    → total value_of (keep (is_material uid ids) items)
      ≡ total price_of (keep (is_material uid ids) items)
unfolding total
materials_value uid ids [] = refl
materials_value uid ids ((id, item) ∷ items) =
    let rest = materials_value uid ids items in
    elim (Bool-cases (is_material uid ids (id, item))) [
      | inr other ↦ rw other rest
      | inl meets ↦
          let kept : item.is_sold ≡ false = ground arith in rw meets (rw kept (omega arith))
    ]

-- The predicate of a result
unfoldable pub IsPaid : ℕ → ℕ → UpgradeDb → Result UpgradeError Source → Type 0
IsPaid uid key db (err _) = Unit
IsPaid uid key db (ok source) = Paid uid key db source

module _ (uid key : ℕ) (user : VipUser) (dto : UpgradeDto) (game_type : GameType) (db : UpgradeDb)
    (row : find_row uid db.inventory.vip.users ≡ some user)
    (fresh : find_row key db.inventory.skins.items ≡ none) (valid : IsValid db.inventory) where
  process_balance_upgrade-IsPaid :
      IsPaid uid key db (process_balance_upgrade uid user dto game_type db)
  unfolding process_balance_upgrade IsPaid
  process_balance_upgrade-IsPaid = elim (Bool-cases (ltb user.balance dto.upgrade_amount)) [
    | inl poor ↦ rw (poor, IsPaid) tt
    | inr rich ↦ elim (Result-cases (load_target_skin dto.target_skin_id game_type db)) [
      | inl (_, e) ↦ rw (rich, e, IsPaid) tt
      | inr (skin, loaded) ↦
          elim (Result-cases (calculate_chance_by_price dto.upgrade_amount skin.market_price)) [
            | inl (_, e) ↦ rw (rich, loaded, e, IsPaid) tt
            | inr (chance, chosen) ↦
                let user' : VipUser = record user { balance = user.balance - dto.upgrade_amount } in
                let traded =
                  total-save_row_over balance_of uid user' user db.inventory.vip.users row in
                let enough : dto.upgrade_amount ≤ user.balance = ground arith in
                rw (rich, loaded, chosen, IsPaid)
                  (record {
                    spent = omega arith;
                    valid = valid;
                    row = find_row-save_row_self uid user' db.inventory.vip.users;
                    fresh = fresh;
                    chosen = chosen;
                  })
          ]
    ]
  ]

  process_inventory_upgrade-IsPaid :
      IsPaid uid key db (process_inventory_upgrade uid user dto game_type db)
  unfolding process_inventory_upgrade IsPaid
  process_inventory_upgrade-IsPaid =
      let items = db.inventory.skins.items in
      let ids = dto.inventory_skin_ids in
      let rows = keep (is_material uid ids) items in
      let cost = total price_of rows in
      elim (Bool-cases (length rows == length ids)) [
        | inr missing ↦ rw (missing, IsPaid) tt
        | inl all ↦ elim (Bool-cases (has_target game_type dto.target_skin_id rows)) [
          | inl itself ↦ rw (all, itself, IsPaid) tt
          | inr others ↦ elim (Bool-cases (has_no_price rows)) [
            | inl free ↦ rw (all, others, free, IsPaid) tt
            | inr priced ↦ elim (Bool-cases (ltb cost min_amount)) [
              | inl low ↦ rw (all, others, priced, low, IsPaid) tt
              | inr enough ↦ elim (Bool-cases (ltb max_amount cost)) [
                | inl high ↦ rw (all, others, priced, enough, high, IsPaid) tt
                | inr most ↦
                    elim (Result-cases (load_target_skin dto.target_skin_id game_type db)) [
                      | inl (_, e) ↦ rw (all, others, priced, enough, most, e, IsPaid) tt
                      | inr (skin, loaded) ↦
                          elim (Result-cases (calculate_chance_by_price cost skin.market_price)) [
                            | inl (_, e) ↦
                                rw (all, others, priced, enough, most, loaded, e, IsPaid) tt
                            | inr (chance, chosen) ↦
                                rw (all, others, priced, enough, most, loaded, chosen, IsPaid)
                                  (spent_materials skin chance chosen)
                          ]
                    ]
              ]
            ]
          ]
        ]
      ]
    where
      spent_materials :
          (skin : Skin) (chance : ℕ)
          → let rows = keep (is_material uid dto.inventory_skin_ids) db.inventory.skins.items in
            calculate_chance_by_price (total price_of rows) skin.market_price ≡ ok chance
            → Paid uid key db (record {
              user = user;
              used = rows;
              target_skin = skin;
              chance = chance;
              cost = total price_of rows;
              paid = record (db.inventory) {
                skins = with_items db.inventory (delete_rows rows db.inventory.skins.items);
              };
            })
      spent_materials skin chance chosen =
          let ids = dto.inventory_skin_ids in
          let items = db.inventory.skins.items in
          let rows = keep (is_material uid ids) items in
          let known = keep-Known (is_material uid ids) items valid.1 in
          let worth = materials_value uid ids items in
          let gone = total-delete_rows value_of rows items known in
          record {
            spent = omega arith;
            valid =
                (delete_rows-All Apart rows items valid.0, delete_rows-Distinct rows items valid.1);
            row = row;
            fresh = delete_rows_missing key rows items fresh;
            chosen = chosen;
          }

  pub process_upgrade-IsPaid :
      (use_balance : Bool)
      → IsPaid uid key db (process_upgrade use_balance uid user dto game_type db)
  process_upgrade-IsPaid true = process_balance_upgrade-IsPaid
  process_upgrade-IsPaid false = process_inventory_upgrade-IsPaid
