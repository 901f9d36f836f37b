-- ===== src/Inventory/Steps.antt =====
-- Sales, withdrawals and new items of all users, in any order.
use rabbit_backend.Prelude.{ℕ, ◌+◌, ◌≡◌, refl, none, Option, List, ok, arith}
use rabbit_backend.Prelude.Table.{find_row, total-save_row_new}
use rabbit_backend.Prelude.Rows.{save_row-All, save_row-Distinct}
use rabbit_backend.Prelude.Texts.{Text}
use rabbit_backend.Withdraw.{
  GameType, Item, Withdrawal, WithdrawDb, TradeUrl, ParsedUrl, BuyResult, request_withdrawal,
  try_withdraw_one, TmOrder, advance_one,
}
use rabbit_backend.Inventory.{
  InventoryDb, SellResult, sell_skin, sell_selected_skins, sell_all_skins, Skin, new_item,
  create_inventory,
}
use rabbit_backend.Inventory.Wealth.{
  wealth, value_of, Apart, IsValid, Keeps, sell_skin-Keeps, sell_selected_skins-Keeps,
  sell_all_skins-Keeps,
}
use rabbit_backend.Inventory.Withdrawn.{
  KeepsItems, request_withdrawal-KeepsItems, Refunds-KeepsItems, try_withdraw_one-Refunds,
  advance_one-Refunds,
}

-- The rest of the database, after a step of a withdrawal
abbrev pub with_skins : InventoryDb → WithdrawDb → InventoryDb
with_skins db skins = record db { skins = skins }

-- One step, with the price of the items that it gives.
pub data Step (new_url : Text → Option ParsedUrl) : InventoryDb → ℕ → InventoryDb → Type 0 where
  sold_one :
      (id uid : ℕ) (s : Item) {db after : InventoryDb}
      → sell_skin id uid db ≡ ok (s, after)
      → Step new_url db 0 after
  sold_selected :
      (ids : List ℕ) (uid : ℕ) (s : SellResult) {db after : InventoryDb}
      → sell_selected_skins ids uid db ≡ ok (s, after)
      → Step new_url db 0 after
  sold_all :
      (uid : ℕ) (s : SellResult) {db after : InventoryDb}
      → sell_all_skins uid db ≡ ok (s, after)
      → Step new_url db 0 after
  given :
      (uid skin_id : ℕ) (skin : Skin) (game_type : GameType) (key : ℕ) {db : InventoryDb}
      → find_row key db.skins.items ≡ none
      → Step new_url db skin.market_price (create_inventory uid skin_id skin game_type key db).1
  requested :
      (uid : ℕ) (ids : List ℕ) (raw : Text) (now : ℕ) (rows : List (ℕ × Item))
      (trade_url : TradeUrl) {db : InventoryDb} {after : WithdrawDb}
      → request_withdrawal new_url uid ids raw now db.skins ≡ ok (rows, trade_url, after)
      → Step new_url db 0 (with_skins db after)
  tried :
      (id key now : ℕ) (item : Item) (trade_url : TradeUrl) (custom_id : Text) (answer : BuyResult)
      {db : InventoryDb}
      → Step new_url db 0
          (with_skins db (try_withdraw_one id item trade_url custom_id answer key now db.skins))
  polled :
      (key now : ℕ) (w : Withdrawal) (order : Option TmOrder) {db : InventoryDb}
      → Step new_url db 0 (with_skins db (advance_one key w order now db.skins))

pub data History (new_url : Text → Option ParsedUrl) : InventoryDb → ℕ → InventoryDb → Type 0 where
  start : {db : InventoryDb} → History new_url db 0 db
  then_step :
      {first middle last : InventoryDb} {m n : ℕ}
      → History new_url first m middle
      → Step new_url middle n last
      → History new_url first (m + n) last

-- What a step does to the wealth
abbrev pub Grants : InventoryDb → ℕ → InventoryDb → Type 0
Grants db n after = (wealth after ≡ wealth db + n) × IsValid after

Keeps-Grants : (db after : InventoryDb) → Keeps db after → Grants db 0 after
Keeps-Grants db after (same, valid) = (omega arith, valid)

KeepsItems-Grants :
    (db : InventoryDb) (after : WithdrawDb)
    → KeepsItems db.skins.items after.items
    → Grants db 0 (with_skins db after)
KeepsItems-Grants db after (same, apart, distinct) = (omega arith, (apart, distinct))

pub create_inventory-Grants :
    (uid skin_id : ℕ) (skin : Skin) (game_type : GameType) (key : ℕ) (db : InventoryDb)
    → find_row key db.skins.items ≡ none
    → IsValid db
    → Grants db skin.market_price (create_inventory uid skin_id skin game_type key db).1
unfolding create_inventory
create_inventory-Grants uid skin_id skin game_type key db fresh (apart, distinct) =
    let item = new_item uid skin_id skin game_type in
    let added = total-save_row_new value_of key item db.skins.items fresh in
    (
      omega arith,
      (
        save_row-All Apart key item db.skins.items refl apart,
        save_row-Distinct key item db.skins.items distinct,
      ),
    )

module _ (new_url : Text → Option ParsedUrl) where
  Step-Grants :
      (db : InventoryDb) (n : ℕ) (after : InventoryDb)
      → Step new_url db n after
      → IsValid db
      → Grants db n after
  Step-Grants db n after (sold_one id uid s e) valid =
      Keeps-Grants db after (sell_skin-Keeps id uid s db after e valid)
  Step-Grants db n after (sold_selected ids uid s e) valid =
      Keeps-Grants db after (sell_selected_skins-Keeps ids uid s db after e valid)
  Step-Grants db n after (sold_all uid s e) valid =
      Keeps-Grants db after (sell_all_skins-Keeps uid s db after e valid)
  Step-Grants db n after (given uid skin_id skin game_type key fresh) valid =
      create_inventory-Grants uid skin_id skin game_type key db fresh valid
  Step-Grants db n after (requested uid ids raw now rows trade_url {after = skins} e) (a, d) =
      KeepsItems-Grants db skins
        (request_withdrawal-KeepsItems new_url uid ids raw now rows trade_url db.skins skins e a d)
  Step-Grants db n after (tried id key now item trade_url custom_id answer) (a, d) =
      KeepsItems-Grants db (try_withdraw_one id item trade_url custom_id answer key now db.skins) (
        Refunds-KeepsItems db.skins.items _
          (try_withdraw_one-Refunds id item trade_url custom_id answer key now db.skins) a d)
  Step-Grants db n after (polled key now w order) (a, d) =
      KeepsItems-Grants db (advance_one key w order now db.skins)
        (Refunds-KeepsItems db.skins.items _ (advance_one-Refunds key w order now db.skins) a d)

  -- Sales of one item, of selected items and of all items, new items, and every step of the
  -- withdrawals, of all users and in any order, no two of them interleaved: the balances and the
  -- unsold items together grow by just the prices of the new items, whatever is sold; and if no item
  -- is both sold and withdrawn and no two rows have the same key, so it is at the end.
  pub sales_conserve :
      (first last : InventoryDb) (n : ℕ)
      → History new_url first n last
      → IsValid first
      → (wealth last ≡ wealth first + n) × IsValid last
  sales_conserve first last n start valid = (omega arith, valid)
  sales_conserve first last n (then_step {middle = middle} {m = m} {n = k} before step) valid =
      let (earlier, valid') = sales_conserve first middle m before valid in
      let (later, valid'') = Step-Grants middle k last step valid' in (omega arith, valid'')
