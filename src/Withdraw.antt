-- ===== src/Withdraw.antt =====
-- The withdrawal of skins: src/modules/withdraw, the rows and the operations of withdraw.service.ts
-- and trade-url.parser.ts. The market is a parameter: what it answers is an argument of each step. A
-- batch is locked in one step, and each of its items is bought in a step of its own, between which
-- other requests and the poll of the orders run. The poll reads its rows in one step and advances each
-- of them in a later one, by the object that it read.
pub mod Locks
pub mod Moves
pub mod Steps
pub mod Tests
use rabbit_backend.Prelude.{
  ℕ, ◌+◌, ◌*◌, ◌/◌, Bool, true, false, not, ◌&&◌, ◌||◌, Option, none, some, List, [], ◌∷◌, ◌++◌,
  leb, ltb, length, includes, ◌==◌, if◌then◌else◌, Result, ok, err, ◌>>=◌, ◌>>◌, throw_if, or_throw,
}
use rabbit_backend.Prelude.Table.{Table, find_row, save_row}
use rabbit_backend.Prelude.Rows.{save_rows}
use rabbit_backend.Prelude.Texts.{Text, codes, text_eq, is_filled, trim}

pub data GameType : Type 0 where
  csgo dota : GameType

pub data WithdrawalStatus : Type 0 where
  pending purchasing delivering completed failed : WithdrawalStatus

-- The columns of user_inventory, and of the item's skin: its name, the price at which it sells
-- (`market_price`) and the price that a withdrawal offers (`raw_market_price ?? market_price ?? 0`),
-- in cents. The key of the skin is that of csgo_skins or dota_skins, as the game says.
pub record Item : Type 0 where
  pub user_id : ℕ
  pub game_type : GameType
  pub skin_id : ℕ
  pub is_sold : Bool
  pub is_withdrawn : Bool
  pub withdrawn_at : Option ℕ
  pub market_hash_name : Text
  pub market_price : ℕ
  pub price : ℕ

pub record Withdrawal : Type 0 where
  pub user_id : ℕ
  pub inventory_item_id : ℕ
  pub game_type : GameType
  pub status : WithdrawalStatus
  pub custom_id : Text
  pub tm_order_id : Option Text
  pub trade_url : Text
  pub target_price : ℕ
  pub actual_price : Option ℕ
  pub failure_reason : Option Text
  pub completed_at : Option ℕ

pub record WithdrawDb : Type 0 where
  pub items : Table Item
  pub withdrawals : Table Withdrawal

pub record TradeUrl : Type 0 where
  pub partner : Text
  pub token : Text

-- `new URL(...)`: the host in lower case, the path and the two parameters; none if it throws
pub record ParsedUrl : Type 0 where
  pub host : Text
  pub pathname : Text
  pub partner : Option Text
  pub token : Option Text

abbrev pub is_digit : ℕ → Bool
is_digit c = leb b'0' c && leb c b'9'

abbrev pub is_token_char : ℕ → Bool
is_token_char c =
    (leb b'a' c && leb c b'z')
    || ((leb b'A' c && leb c b'Z') || (is_digit c || ((c == b'_') || (c == b'-'))))

abbrev pub every_char : (ℕ → Bool) → Text → Bool
every_char p [] = true
every_char p (c ∷ s) = p c && every_char p s

-- `PARTNER_PATTERN` and `TOKEN_PATTERN`
abbrev pub is_partner : Text → Bool
is_partner s = every_char is_digit s && (leb 1 (length s) && leb (length s) 10)

abbrev pub is_token : Text → Bool
is_token s = every_char is_token_char s && (leb 6 (length s) && leb (length s) 16)

abbrev pub is_steam_host : Text → Bool
is_steam_host host =
    text_eq host (codes "steamcommunity.com") || text_eq host (codes "www.steamcommunity.com")

abbrev pub checked_url : Option Text → Option Text → Option TradeUrl
checked_url (some partner) (some token) =
    if is_partner partner && is_token token
    then some (record { partner = partner; token = token })
    else none
checked_url _ _ = none

-- `parseTradeUrl`
unfoldable pub parse_trade_url : (Text → Option ParsedUrl) → Text → Option TradeUrl
parse_trade_url new_url raw =
    let trimmed = trim raw in
    let parsed : Option TradeUrl = elim (new_url trimmed) [
      | none ↦ none
      | some url ↦
          if is_steam_host url.host && text_eq url.pathname (codes "/tradeoffer/new/")
          then checked_url url.partner url.token
          else none
    ] in
    if is_filled trimmed && leb (length trimmed) 512 then parsed else none

-- `serialiseTradeUrl`
abbrev pub serialise_trade_url : TradeUrl → Text
serialise_trade_url url =
    codes "https://steamcommunity.com/tradeoffer/new/?partner="
    ++ url.partner
    ++ codes "&token="
    ++ url.token

pub data WithdrawError : Type 0 where
  empty_ids too_many_items invalid_trade_url items_not_found already_sold already_withdrawn
        mixed_games :
      WithdrawError

-- The row of an item of the user
abbrev pub owned_item : ℕ → Option Item → Option Item
owned_item uid none = none
owned_item uid (some item) = if item.user_id == uid then some item else none

-- The rows of the ids, which are locked. An id that stands twice in the request has one row, so that
-- there are fewer rows than ids.
abbrev pub find_items : ℕ → List ℕ → Table Item → Result WithdrawError (List (ℕ × Item))
find_items uid [] items = ok []
find_items uid (id ∷ ids) items = do
  rows ← find_items uid ids items
  throw_if (includes ids id) items_not_found
  item ← or_throw (owned_item uid (find_row id items)) items_not_found
  ok ((id, item) ∷ rows)

abbrev pub check_free : List (ℕ × Item) → Result WithdrawError (Unit {0})
check_free [] = ok tt
check_free ((_, item) ∷ rows) =
    throw_if item.is_sold already_sold
    >> (throw_if item.is_withdrawn already_withdrawn >> check_free rows)

abbrev pub same_game : GameType → GameType → Bool
same_game csgo csgo = true
same_game dota dota = true
same_game _ _ = false

abbrev pub check_game : GameType → List (ℕ × Item) → Result WithdrawError (Unit {0})
check_game first [] = ok tt
check_game first ((_, item) ∷ rows) =
    throw_if (not (same_game item.game_type first)) mixed_games >> check_game first rows

abbrev pub check_one_game : List (ℕ × Item) → Result WithdrawError (Unit {0})
check_one_game [] = ok tt
check_one_game ((_, item) ∷ rows) = check_game item.game_type rows

-- `SET is_withdrawn = true, withdrawn_at = now WHERE id IN (ids)`
abbrev pub lock_rows : ℕ → List (ℕ × Item) → Table Item → Table Item
lock_rows now rows items =
    save_rows (λ item. record item { is_withdrawn = true; withdrawn_at = some now }) rows items

-- `requestWithdrawal`, up to the end of its transaction: the items to buy, and the trade URL
unfoldable pub request_withdrawal :
    (Text → Option ParsedUrl)
    → ℕ
    → List ℕ
    → Text
    → ℕ
    → WithdrawDb
    → Result WithdrawError (List (ℕ × Item) × TradeUrl × WithdrawDb)
request_withdrawal new_url uid ids trade_url_raw now db = do
  throw_if (leb (length ids) 0) empty_ids
  throw_if (ltb 50 (length ids)) too_many_items
  trade_url ← or_throw (parse_trade_url new_url trade_url_raw) invalid_trade_url
  rows ← find_items uid ids db.items
  check_free rows
  check_one_game rows
  ok (rows, trade_url, record db { items = lock_rows now rows db.items })

-- What the market answers to `buyForUser`
pub data BuyResult : Type 0 where
  network_error : BuyResult
  rejected : (code : Option ℕ) → (error : Text) → BuyResult
  accepted : (id : Option Text) → BuyResult

-- TM_BUY_FOR_ERROR_KEYS
unfoldable pub buy_for_error_key : ℕ → Option Text
buy_for_error_key code =
    if code == 2
    then some (codes "tm_unknown_error")
    else (if code == 3
        then some (codes "tm_trade_url_check_failed")
        else (if code == 5
            then some (codes "tm_recipient_inventory_hidden")
            else (if code == 6
                then some (codes "tm_user_banned")
                else (if code == 7
                    then some (codes "tm_no_mobile_authenticator")
                    else (if code == 8
                        then some (codes "tm_trade_url_check_offline")
                        else (if code == 12
                            then some (codes "tm_invalid_trade_url")
                            else (if code == 20
                                then some (codes "tm_bot_banned")
                                else (if code == 21
                                    then some (codes "tm_recipient_inventory_full")
                                    else none))))))))

abbrev pub mapped_key : Option ℕ → Option Text
mapped_key none = none
mapped_key (some code) = buy_for_error_key code

-- `resolveBuyForFailureKey`
unfoldable pub resolve_buy_for_failure_key : Option ℕ → Text → Text
resolve_buy_for_failure_key code error = elim (mapped_key code) [
  | some key ↦ key
  | none ↦ if is_filled error then error else codes "tm_unknown_error"
]

-- `UPDATE user_inventory SET is_withdrawn = false WHERE id`
abbrev pub unlocked : Item → Item
unlocked item = record item { is_withdrawn = false }

abbrev pub unlock_row : ℕ → Option Item → Table Item → Table Item
unlock_row id none items = items
unlock_row id (some item) items = save_row id (unlocked item) items

abbrev pub new_withdrawal : ℕ → Item → TradeUrl → Text → WithdrawalStatus → Withdrawal
new_withdrawal id item trade_url custom_id status = record {
  user_id = item.user_id;
  inventory_item_id = id;
  game_type = item.game_type;
  status = status;
  custom_id = custom_id;
  tm_order_id = none;
  trade_url = serialise_trade_url trade_url;
  target_price = item.price;
  actual_price = none;
  failure_reason = none;
  completed_at = none;
}

-- `markFailedAndRefund`; `key` is that of the new row.
unfoldable pub mark_failed_and_refund :
    ℕ → Item → TradeUrl → Text → Text → ℕ → ℕ → WithdrawDb → WithdrawDb
mark_failed_and_refund id item trade_url custom_id reason key now db =
    let withdrawal : Withdrawal = record (new_withdrawal id item trade_url custom_id failed) {
      failure_reason = some reason;
      completed_at = some now;
    } in
    record {
      items = unlock_row id (find_row id db.items) db.items;
      withdrawals = save_row key withdrawal db.withdrawals;
    }

-- `tryWithdrawOne`, from the answer of the market on
abbrev pub finish_one : ℕ → Item → TradeUrl → Text → ℕ → ℕ → WithdrawDb → BuyResult → WithdrawDb
finish_one id item trade_url custom_id key now db network_error =
    mark_failed_and_refund id item trade_url custom_id (codes "tm_network_error") key now db
finish_one id item trade_url custom_id key now db (rejected code error) =
    mark_failed_and_refund id item trade_url custom_id (resolve_buy_for_failure_key code error) key
      now db
finish_one id item trade_url custom_id key now db (accepted order) = record db {
  withdrawals =
      save_row key
        (record (new_withdrawal id item trade_url custom_id purchasing) { tm_order_id = order })
        db.withdrawals;
}

-- `tryWithdrawOne` on an item of the batch, with the answer of the market
unfoldable pub try_withdraw_one :
    ℕ → Item → TradeUrl → Text → BuyResult → ℕ → ℕ → WithdrawDb → WithdrawDb
try_withdraw_one id item trade_url custom_id answer key now db =
    if not (is_filled item.market_hash_name) || leb item.price 0
    then mark_failed_and_refund id item trade_url custom_id (codes "skin_no_price") key now db
    else finish_one id item trade_url custom_id key now db answer

-- `TmOrder`; a `causer` of null or '' is empty.
pub record TmOrder : Type 0 where
  pub stage : ℕ
  pub settlement : ℕ
  pub paid : Option ℕ
  pub trade_id : Text
  pub causer : Text

-- `deriveWithdrawalStatus`
unfoldable pub derive_withdrawal_status : TmOrder → WithdrawalStatus
derive_withdrawal_status order =
    if (order.stage == 5) || (ltb 0 order.settlement && is_filled order.causer)
    then failed
    else (if ltb 0 order.settlement
        then completed
        else (if is_filled order.trade_id then delivering else purchasing))

abbrev pub same_status : WithdrawalStatus → WithdrawalStatus → Bool
same_status pending pending = true
same_status purchasing purchasing = true
same_status delivering delivering = true
same_status completed completed = true
same_status failed failed = true
same_status _ _ = false

abbrev pub or_trade_id : Option Text → Text → Option Text
or_trade_id (some id) trade_id = some id
or_trade_id none trade_id = some trade_id

abbrev pub causer_reason : Text → Text
causer_reason causer =
    if text_eq causer (codes "buyer")
    then codes "trade_timed_out_buyer"
    else (if text_eq causer (codes "seller")
        then codes "trade_timed_out_seller"
        else codes "trade_failed")

-- `UPDATE withdrawals SET ... WHERE id`, on the row that is there
abbrev pub update_withdrawal :
    ℕ → (Withdrawal → Withdrawal) → Option Withdrawal → Table Withdrawal → Table Withdrawal
update_withdrawal key change none withdrawals = withdrawals
update_withdrawal key change (some w) withdrawals = save_row key (change w) withdrawals

-- What `advanceOne` does where the status is a new one, for the object `seen` that the poll has read
abbrev pub move_to : ℕ → Withdrawal → TmOrder → ℕ → WithdrawDb → WithdrawalStatus → WithdrawDb
move_to key seen order now db completed = record db {
  withdrawals =
      update_withdrawal key
        (λ w. record w {
          status = completed;
          actual_price = order.paid;
          completed_at = some now;
          tm_order_id = or_trade_id seen.tm_order_id order.trade_id;
        })
        (find_row key db.withdrawals) db.withdrawals;
}
move_to key seen order now db failed = record {
  items = unlock_row seen.inventory_item_id (find_row seen.inventory_item_id db.items) db.items;
  withdrawals =
      update_withdrawal key
        (λ w. record w {
          status = failed;
          failure_reason = some (causer_reason order.causer);
          completed_at = some now;
        })
        (find_row key db.withdrawals) db.withdrawals;
}
move_to key seen order now db status = record db {
  withdrawals =
      update_withdrawal key (λ w. record w { status = status }) (find_row key db.withdrawals)
        db.withdrawals;
}

-- `advanceOne` on an object that pollOrderStatus has read, with the answer of the market, none also if
-- the request fails; the updates are by id, on the rows as they are then.
unfoldable pub advance_one : ℕ → Withdrawal → Option TmOrder → ℕ → WithdrawDb → WithdrawDb
advance_one key seen none now db = db
advance_one key seen (some order) now db =
    let status = derive_withdrawal_status order in
    if same_status status seen.status then db else move_to key seen order now db status

-- The `where` and the `take` of pollOrderStatus
abbrev pub is_in_flight : WithdrawalStatus → Bool
is_in_flight completed = false
is_in_flight failed = false
is_in_flight _ = true

abbrev pub most_polled : ℕ
most_polled = 200
