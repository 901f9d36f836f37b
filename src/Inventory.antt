-- ===== src/Inventory.antt =====
-- The inventory: src/modules/userInventory/userInventory.service.ts, on the rows of the users and on
-- those of the items, which the withdrawal of skins shares. sellSkin and sellSelectedSkins are
-- transactions; sellAllSkins is none, and is a read and a write between which other requests run.
pub mod Wealth
pub mod Withdrawn
pub mod Steps
pub mod Once
pub mod Tests
use rabbit_backend.Prelude.{
  ℕ, ◌+◌, Bool, true, false, not, ◌&&◌, ◌||◌, Option, none, some, List, [], ◌∷◌, leb, length,
  includes, keep, ◌==◌, if◌then◌else◌, Result, ok, err, ◌>>=◌, ◌>>◌, throw_if, or_throw,
}
use rabbit_backend.Prelude.Table.{Table, find_row, save_row, total}
use rabbit_backend.Prelude.Rows.{save_rows}
use rabbit_backend.Prelude.Texts.{Text}
use rabbit_backend.Vip.Store.{VipUser, VipDb}
use rabbit_backend.Withdraw.{GameType, Item, WithdrawDb}

-- The users, and the items with their withdrawals
pub record InventoryDb : Type 0 where
  pub vip : VipDb
  pub skins : WithdrawDb

pub data SellError : Type 0 where
  ids_required user_required user_not_found item_not_found not_owner already_sold not_for_sale
        no_items no_skins :
      SellError

-- `user.balance + price`, saved
abbrev pub credited : ℕ → VipUser → ℕ → VipDb → VipDb
credited uid user price vip = record vip {
  users = save_row uid (record user { balance = user.balance + price }) vip.users;
}

abbrev pub with_items : InventoryDb → Table Item → WithdrawDb
with_items db items = record (db.skins) { items = items }

abbrev pub sold : Item → Item
sold item = record item { is_sold = true }

abbrev pub check_sellable : ℕ → Item → Result SellError (Unit {0})
check_sellable uid item =
    throw_if (not (item.user_id == uid)) not_owner
    >> (throw_if item.is_sold already_sold >> throw_if item.is_withdrawn not_for_sale)

-- `sellSkin`
unfoldable pub sell_skin : ℕ → ℕ → InventoryDb → Result SellError (Item × InventoryDb)
sell_skin id uid db = do
  throw_if ((id == 0) || (uid == 0)) ids_required
  user ← or_throw (find_row uid db.vip.users) user_not_found
  item ← or_throw (find_row id db.skins.items) item_not_found
  check_sellable uid item
  ok (
    sold item,
    record {
      vip = credited uid user item.market_price db.vip;
      skins = with_items db (save_row id (sold item) db.skins.items);
    },
  )

-- `soldItems`, and `updatedBalance`
pub record SellResult : Type 0 where
  pub sold_items : Table Item
  pub updated_balance : ℕ

abbrev pub price_of : Item → ℕ
price_of item = item.market_price

-- `where: { id: In(ids) }`: an id that is missing, or that stands there twice, is passed over.
abbrev pub find_in : List ℕ → Table Item → Table Item
find_in ids items = keep (λ row. includes ids row.0) items

abbrev pub check_all_sellable : ℕ → Table Item → Result SellError (Unit {0})
check_all_sellable uid [] = ok tt
check_all_sellable uid ((_, item) ∷ rows) = check_sellable uid item >> check_all_sellable uid rows

-- `UPDATE user_inventory SET is_sold = true WHERE id IN (ids)`
abbrev pub mark_sold : List ℕ → Table Item → Table Item
mark_sold ids [] = []
mark_sold ids ((id, item) ∷ items) =
    (id, if includes ids id then sold item else item) ∷ mark_sold ids items

-- `sellSelectedSkins`
unfoldable pub sell_selected_skins :
    List ℕ → ℕ → InventoryDb → Result SellError (SellResult × InventoryDb)
unfolding total
sell_selected_skins ids uid db = do
  throw_if (leb (length ids) 0) ids_required
  throw_if (uid == 0) user_required
  user ← or_throw (find_row uid db.vip.users) user_not_found
  let rows = find_in ids db.skins.items
  throw_if (leb (length rows) 0) no_items
  check_all_sellable uid rows
  let total_sell_price = total price_of rows
  ok (
    record { sold_items = rows; updated_balance = user.balance + total_sell_price },
    record {
      vip = credited uid user total_sell_price db.vip;
      skins = with_items db (mark_sold ids db.skins.items);
    },
  )

abbrev pub is_sellable : ℕ → Item → Bool
is_sellable uid item = (item.user_id == uid) && (not item.is_sold && not item.is_withdrawn)

-- `sellAllSkins`, what it reads: the user, and the items that it is going to sell
unfoldable pub sell_all_read : ℕ → InventoryDb → Result SellError (VipUser × Table Item)
sell_all_read uid db = do
  throw_if (uid == 0) user_required
  user ← or_throw (find_row uid db.vip.users) user_not_found
  let unsold = keep (λ row. is_sellable uid row.1) db.skins.items
  throw_if (leb (length unsold) 0) no_skins
  ok (user, unsold)

-- `sellAllSkins`, what it writes: the items and the user as they were read, changed
unfoldable pub sell_all_write : ℕ → VipUser → Table Item → InventoryDb → SellResult × InventoryDb
unfolding total
sell_all_write uid user unsold db =
    let total_sell_price = total price_of unsold in
    (
      record { sold_items = unsold; updated_balance = user.balance + total_sell_price },
      record {
        vip = credited uid user total_sell_price db.vip;
        skins = with_items db (save_rows sold unsold db.skins.items);
      },
    )

-- `sellAllSkins` with no other request between
unfoldable pub sell_all_skins : ℕ → InventoryDb → Result SellError (SellResult × InventoryDb)
unfolding sell_all_read sell_all_write
sell_all_skins uid db = do
  (user, unsold) ← sell_all_read uid db
  ok (sell_all_write uid user unsold db)

-- The catalogue's columns that an item shows
pub record Skin : Type 0 where
  pub market_hash_name : Text
  pub market_price : ℕ
  pub bid_price : ℕ  -- `raw_market_price ?? market_price ?? 0`

abbrev pub new_item : ℕ → ℕ → Skin → GameType → Item
new_item uid skin_id skin game_type = record {
  user_id = uid;
  game_type = game_type;
  skin_id = skin_id;
  is_sold = false;
  is_withdrawn = false;
  withdrawn_at = none;
  market_hash_name = skin.market_hash_name;
  market_price = skin.market_price;
  price = skin.bid_price;
}

-- `createInventoryFromReward`; `createInventory` and `createInventoryFromClickerCase` also name the
-- case that the item comes from. `key` is that of the new row.
unfoldable pub create_inventory : ℕ → ℕ → Skin → GameType → ℕ → InventoryDb → Item × InventoryDb
create_inventory uid skin_id skin game_type key db =
    let item = new_item uid skin_id skin game_type in
    (item, record db { skins = with_items db (save_row key item db.skins.items) })
