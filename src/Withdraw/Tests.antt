-- ===== src/Withdraw/Tests.antt =====
-- A concrete withdrawal, and what the theorem says of it.
use rabbit_backend.Prelude.{
  ◌+◌, ◌-◌, ◌≡◌, refl, true, false, Option, none, some, [], ◌∷◌, ◌==◌, if◌then◌else◌, Bool-cases,
  inl, inr, arith,
}
use rabbit_backend.Prelude.Table.{total}
use rabbit_backend.Prelude.Texts.{Text, codes}
use rabbit_backend.Withdraw.{
  GameType, Item, Withdrawal, purchasing, new_withdrawal, WithdrawDb, TradeUrl, ParsedUrl,
  WithdrawError, parse_trade_url, request_withdrawal, BuyResult, try_withdraw_one, TmOrder,
  derive_withdrawal_status, advance_one, resolve_buy_for_failure_key, buy_for_error_key,
  mark_failed_and_refund,
}
use rabbit_backend.Withdraw.Locks.{Hands, Sound, count_rows, locked}
use rabbit_backend.Withdraw.Steps.{
  Moment, requested, tried, poll_read, advanced, History, start, then_step, withdrawals-Sound,
}

abbrev item : Item
item = record {
  user_id = 1;
  game_type = GameType.csgo;
  skin_id = 40;
  is_sold = false;
  is_withdrawn = false;
  withdrawn_at = none;
  market_hash_name = codes "skin";
  market_price = 1000;
  price = 900;
}

abbrev db : WithdrawDb
db = record { items = (5, item) ∷ []; withdrawals = [] }

abbrev pub new_url : Text → Option ParsedUrl
new_url _ = some (record {
  host = codes "steamcommunity.com";
  pathname = codes "/tradeoffer/new/";
  partner = some (codes "1234567");
  token = some (codes "ABCDEFGH");
})

abbrev pub trade_url : TradeUrl
trade_url = record { partner = codes "1234567"; token = codes "ABCDEFGH" }

parsed : parse_trade_url new_url (codes " url") ≡ some trade_url
unfolding parse_trade_url
parsed = refl

abbrev locked_db : WithdrawDb
locked_db = record db {
  items = (5, record item { is_withdrawn = true; withdrawn_at = some 7 }) ∷ [];
}

abbrev no_hands : Hands
no_hands _ = 0

-- The item is locked.
abbrev one_hand : Hands
one_hand j = no_hands j + count_rows j ((5, item) ∷ [])

abbrev bought_db : WithdrawDb
bought_db =
    try_withdraw_one 5 item trade_url (codes "wd_1") (BuyResult.accepted (some (codes "9"))) 3 8
      locked_db

abbrev bought : Withdrawal
bought = record (new_withdrawal 5 item trade_url (codes "wd_1") purchasing) {
  tm_order_id = some (codes "9");
}

abbrev expired_order : TmOrder
expired_order = record {
  stage = 5;
  settlement = 0;
  paid = none;
  trade_id = [];
  causer = codes "buyer";
}

-- The item is locked and bought, and a poll learns that the trade has failed.
abbrev refunded_moment : Moment
refunded_moment = record {
  db = advance_one 3 bought (some expired_order) 9 bought_db;
  hands = λ j. one_hand j - (if 5 == j then 1 else 0);
  poll = [];
}

history : History new_url (record { db = db; hands = no_hands; poll = [] }) refunded_moment
unfolding request_withdrawal parse_trade_url try_withdraw_one
history =
    then_step
      (then_step
        (then_step
          (then_step start (requested 1 (5 ∷ []) (codes "url") 7 ((5, item) ∷ []) trade_url refl))
          (tried 5 3 8 item trade_url (codes "wd_1") (BuyResult.accepted (some (codes "9")))
            (omega arith) refl))
        (poll_read ((3, bought) ∷ []) refl (refl, refl, tt) (refl, tt) (omega arith)))
      (advanced 3 9 bought (some expired_order) [] refl)

db-Sound : Sound db no_hands
unfolding Sound total
db-Sound id = elim (Bool-cases (id == 5)) [ inl e ↦ rw e refl | inr e ↦ rw e refl ]

withdrawals-Sound_example : Sound refunded_moment.db refunded_moment.hands
withdrawals-Sound_example = withdrawals-Sound new_url db no_hands refunded_moment history db-Sound

-- The buyer has not accepted the trade: the withdrawal fails and the item is free again.
refunded :
    locked 5
      (mark_failed_and_refund 5 item trade_url
        (codes "wd_1")
        (resolve_buy_for_failure_key (some 21) [])
        3
        8
        locked_db).items
    ≡ 0
unfolding mark_failed_and_refund
refunded = refl

inventory_full : resolve_buy_for_failure_key (some 21) [] ≡ codes "tm_recipient_inventory_full"
unfolding resolve_buy_for_failure_key buy_for_error_key
inventory_full = refl

-- A settled order without a causer has been delivered.
settled_order :
    derive_withdrawal_status
      (record { stage = 1; settlement = 100; paid = some 880; trade_id = codes "7"; causer = [] })
    ≡ rabbit_backend.Withdraw.completed
unfolding derive_withdrawal_status
settled_order = refl
