-- ===== src/Upgrade.antt =====
-- Upgrades: src/modules/upgrade, upgrade-game.logic.ts and performUpgrade of upgrade.service.ts, with
-- the checks of upgrade.dto.ts. A chance is in hundredths of a percent, money in cents. The rarities
-- of the history rows and the tracking of challenges are left out.
pub mod Return
pub mod Money
pub mod Trades
pub mod Tests
use rabbit_backend.Prelude.{
  ℕ, ◌+◌, ◌-◌, ◌*◌, Bool, true, false, not, ◌&&◌, ◌||◌, Option, none, some, List, [], ◌∷◌, leb, ltb,
  length, includes, all_unique, keep, ◌==◌, if◌then◌else◌, Result, ok, err, ◌>>=◌, ◌>>◌, throw_if,
  or_throw,
}
use rabbit_backend.Prelude.Money.{Amount, round_div}
use rabbit_backend.Prelude.Table.{Table, find_row, save_row, total}
use rabbit_backend.Prelude.Rows.{delete_rows}
use rabbit_backend.Prelude.Texts.{Text, take_units}
use rabbit_backend.Vip.Earning.{
  LedgerSource, VipEarning, estimate_upgrade_house_edge_bps, calculate_fixed_house_edge_vip_earning,
}
use rabbit_backend.Vip.Store.{VipUser, VipDb, record_earning}
use rabbit_backend.Withdraw.{GameType, csgo, dota, Item, same_game}
use rabbit_backend.Inventory.{InventoryDb, with_items, price_of, Skin, create_inventory}

abbrev pub min_chance : ℕ
min_chance = 100

abbrev pub max_chance : ℕ
max_chance = 8000

abbrev pub min_amount : ℕ
min_amount = 50

abbrev pub max_amount : ℕ
max_amount = 500000

abbrev pub min_materials : ℕ
min_materials = 1

abbrev pub max_materials : ℕ
max_materials = 20

-- `UPGRADE_HOUSE_RETURN` of all, in hundredths of a percent
abbrev pub upgrade_house_return : ℕ
upgrade_house_return = 9600

unfoldable pub calculate_upgrade_chance_by_price : ℕ → ℕ → ℕ
calculate_upgrade_chance_by_price used_price target_price =
    if leb used_price 0 || leb target_price 0
    then 0
    else round_div (used_price * upgrade_house_return) target_price

-- `rollUpgrade`, for the random number u / d: the success and the roll
unfoldable pub roll_upgrade : ℕ → ℕ → ℕ → Bool × ℕ
roll_upgrade chance u d = let roll = round_div (u * 10000) d in (ltb roll chance, roll)

pub record UpgradeDto : Type 0 where
  pub inventory_skin_ids : List ℕ
  pub target_skin_id : ℕ
  pub use_balance : Bool
  pub upgrade_amount : ℕ
  pub game_type : Option GameType

abbrev pub all_positive : List ℕ → Bool
all_positive [] = true
all_positive (id ∷ ids) = ltb 0 id && all_positive ids

-- The decorators of `UpgradeDto`
unfoldable pub is_valid_dto : UpgradeDto → Bool
is_valid_dto dto =
    ltb 0 dto.target_skin_id
    && (if dto.use_balance
        then leb min_amount dto.upgrade_amount && leb dto.upgrade_amount max_amount
        else (leb min_materials (length dto.inventory_skin_ids)
            && (leb (length dto.inventory_skin_ids) max_materials
                && (all_unique dto.inventory_skin_ids && all_positive dto.inventory_skin_ids))))

pub data UpgradeError : Type 0 where
  invalid_dto user_not_found insufficient_balance target_not_found invalid_target_price
        materials_not_found target_is_material invalid_material_price value_too_low value_too_high
        no_target_price no_used_price chance_too_low chance_too_high :
      UpgradeError

pub record UpgradeRow : Type 0 where
  pub user_id : ℕ
  pub skin_id : ℕ
  pub game_type : GameType
  pub skin_name : Text
  pub skin_price : ℕ
  pub cost : ℕ
  pub success : Bool
  pub chance : ℕ
  pub use_balance : Bool
  pub materials : Table Item

pub record UpgradeDb : Type 0 where
  pub inventory : InventoryDb
  pub csgo_skins : Table Skin
  pub dota_skins : Table Skin
  pub history : List UpgradeRow

abbrev pub or_csgo : Option GameType → GameType
or_csgo none = csgo
or_csgo (some game_type) = game_type

abbrev pub catalog : GameType → UpgradeDb → Table Skin
catalog csgo db = db.csgo_skins
catalog dota db = db.dota_skins

-- `loadTargetSkin`, and the check of the price after it
abbrev pub load_target_skin : ℕ → GameType → UpgradeDb → Result UpgradeError Skin
load_target_skin id game_type db = do
  skin ← or_throw (find_row id (catalog game_type db)) target_not_found
  throw_if (leb skin.market_price 0) invalid_target_price
  ok skin

-- `calculateChanceByPrice`
unfoldable pub calculate_chance_by_price : ℕ → ℕ → Result UpgradeError ℕ
calculate_chance_by_price used_price target_price =
    let chance = calculate_upgrade_chance_by_price used_price target_price in
    throw_if (leb target_price 0) no_target_price
    >> (throw_if (leb used_price 0) no_used_price
        >> (throw_if (ltb chance min_chance) chance_too_low
            >> (throw_if (ltb max_chance chance) chance_too_high >> ok chance)))

-- What an upgrade costs and may win, with the user and the rows once it is paid
pub record Source : Type 0 where
  pub user : VipUser
  pub used : Table Item
  pub target_skin : Skin
  pub chance : ℕ
  pub cost : ℕ
  pub paid : InventoryDb

-- `processBalanceUpgrade`
unfoldable pub process_balance_upgrade :
    ℕ → VipUser → UpgradeDto → GameType → UpgradeDb → Result UpgradeError Source
process_balance_upgrade uid user dto game_type db = do
  throw_if (ltb user.balance dto.upgrade_amount) insufficient_balance
  target_skin ← load_target_skin dto.target_skin_id game_type db
  chance ← calculate_chance_by_price dto.upgrade_amount target_skin.market_price
  let user' : VipUser = record user { balance = user.balance - dto.upgrade_amount }
  let vip : VipDb = record (db.inventory.vip) { users = save_row uid user' db.inventory.vip.users }
  ok (record {
    user = user';
    used = [];
    target_skin = target_skin;
    chance = chance;
    cost = dto.upgrade_amount;
    paid = record (db.inventory) { vip = vip };
  })

-- The rows that `processInventoryUpgrade` locks
abbrev pub is_material : ℕ → List ℕ → ℕ × Item → Bool
is_material uid ids (id, item) =
    includes ids id && ((item.user_id == uid) && (not item.is_sold && not item.is_withdrawn))

abbrev pub has_target : GameType → ℕ → Table Item → Bool
has_target game_type target_id [] = false
has_target game_type target_id ((_, item) ∷ rows) =
    (same_game item.game_type game_type && (item.skin_id == target_id))
    || has_target game_type target_id rows

abbrev pub has_no_price : Table Item → Bool
has_no_price [] = false
has_no_price ((_, item) ∷ rows) = leb item.market_price 0 || has_no_price rows

-- `processInventoryUpgrade`; its removal of the rows rolls back if the chance is refused.
unfoldable pub process_inventory_upgrade :
    ℕ → VipUser → UpgradeDto → GameType → UpgradeDb → Result UpgradeError Source
unfolding total
process_inventory_upgrade uid user dto game_type db = do
  let items = db.inventory.skins.items
  let rows = keep (is_material uid dto.inventory_skin_ids) items
  throw_if (not (length rows == length dto.inventory_skin_ids)) materials_not_found
  throw_if (has_target game_type dto.target_skin_id rows) target_is_material
  throw_if (has_no_price rows) invalid_material_price
  let total_used_price = total price_of rows
  throw_if (ltb total_used_price min_amount) value_too_low
  throw_if (ltb max_amount total_used_price) value_too_high
  target_skin ← load_target_skin dto.target_skin_id game_type db
  chance ← calculate_chance_by_price total_used_price target_skin.market_price
  ok (record {
    user = user;
    used = rows;
    target_skin = target_skin;
    chance = chance;
    cost = total_used_price;
    paid = record (db.inventory) { skins = with_items db.inventory (delete_rows rows items) };
  })

abbrev pub process_upgrade :
    Bool → ℕ → VipUser → UpgradeDto → GameType → UpgradeDb → Result UpgradeError Source
process_upgrade true = process_balance_upgrade
process_upgrade false = process_inventory_upgrade

-- `createUpgradedSkin`, on a success
abbrev pub create_upgraded_skin : Bool → ℕ → ℕ → Skin → GameType → ℕ → InventoryDb → InventoryDb
create_upgraded_skin false uid skin_id skin game_type key db = db
create_upgraded_skin true uid skin_id skin game_type key db =
    (create_inventory uid skin_id skin game_type key db).1

-- The wager as `recordEarning` gets it
abbrev pub upgrade_earning : Source → VipEarning
upgrade_earning source =
    let edge =
      estimate_upgrade_house_edge_bps (Amount.at_least_zero source.cost)
        (Amount.at_least_zero source.target_skin.market_price)
        (Amount.at_least_zero source.chance) in
    calculate_fixed_house_edge_vip_earning LedgerSource.upgrade_attempt
      (Amount.at_least_zero source.cost) edge

pub record UpgradeResult : Type 0 where
  pub success : Bool
  pub chance : ℕ
  pub roll : ℕ
  pub new_balance : Option ℕ

-- `recordHistory`
abbrev pub upgrade_row : ℕ → UpgradeDto → GameType → Source → Bool → UpgradeRow
upgrade_row uid dto game_type source success = record {
  user_id = uid;
  skin_id = dto.target_skin_id;
  game_type = game_type;
  skin_name = take_units 100 source.target_skin.market_hash_name;
  skin_price = source.target_skin.market_price;
  cost = source.cost;
  success = success;
  chance = source.chance;
  use_balance = dto.use_balance;
  materials = source.used;
}

-- `performUpgrade`, once the source is paid, for a roll
unfoldable pub finish_upgrade :
    ℕ → UpgradeDto → GameType → Source → Bool → ℕ → ℕ → UpgradeDb → UpgradeDb
finish_upgrade uid dto game_type source success key now db =
    let created =
      create_upgraded_skin success uid dto.target_skin_id source.target_skin game_type key
        source.paid in
    record db {
      inventory = record created {
        vip = (record_earning uid source.user (upgrade_earning source) now created.vip).1;
      };
      history = upgrade_row uid dto game_type source success ∷ db.history;
    }

-- `performUpgrade` on a request that passes the decorators, for the random number u / d; `key` is
-- that of the row that a success inserts.
unfoldable pub perform_upgrade :
    ℕ → UpgradeDto → ℕ × ℕ → ℕ → ℕ → UpgradeDb → Result UpgradeError (UpgradeResult × UpgradeDb)
perform_upgrade uid dto (u, d) key now db = do
  throw_if (not (is_valid_dto dto)) invalid_dto
  user ← or_throw (find_row uid db.inventory.vip.users) user_not_found
  let game_type = or_csgo dto.game_type
  source ← process_upgrade dto.use_balance uid user dto game_type db
  let (success, roll) = roll_upgrade source.chance u d
  ok (
    record {
      success = success;
      chance = source.chance;
      roll = roll;
      new_balance = if dto.use_balance then some source.user.balance else none;
    },
    finish_upgrade uid dto game_type source success key now db,
  )
