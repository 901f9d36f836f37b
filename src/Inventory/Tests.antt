-- ===== src/Inventory/Tests.antt =====
-- Two items of a user, one that is sold and one that is on its way out.
use rabbit_backend.Prelude.{◌+◌, ◌≡◌, refl, true, false, none, some, [], ◌∷◌, ok, err}
use rabbit_backend.Prelude.Texts.{codes}
use rabbit_backend.Vip.Store.{VipUser}
use rabbit_backend.Withdraw.{GameType, Item, WithdrawDb, parse_trade_url, request_withdrawal}
use rabbit_backend.Withdraw.Tests.{new_url, trade_url}
use rabbit_backend.Inventory.{
  InventoryDb, SellError, sold, sell_skin, sell_selected_skins, sell_all_read,
}
use rabbit_backend.Inventory.Wealth.{wealth, IsValid}
use rabbit_backend.Inventory.Once.{Refused, LeavesOut, sold_once}
use rabbit_backend.Inventory.Steps.{
  History, start, then_step, sold_one, requested, with_skins, sales_conserve,
}

abbrev pub seller : VipUser
seller = record {
  balance = 500;
  vip_xp = some 0;
  vip_theoretical_rake = none;
  vip_qualifying_volume = none;
}

abbrev pub knife : Item
knife = record {
  user_id = 1;
  game_type = GameType.csgo;
  skin_id = 40;
  is_sold = false;
  is_withdrawn = false;
  withdrawn_at = none;
  market_hash_name = codes "knife";
  market_price = 1000;
  price = 900;
}

abbrev glove : Item
glove = record knife { skin_id = 41; market_hash_name = codes "glove"; market_price = 300 }

abbrev db : InventoryDb
db = record {
  vip = record { users = (1, seller) ∷ []; ledger = []; claims = []; level_ups = [] };
  skins = record { items = (5, knife) ∷ (6, glove) ∷ []; withdrawals = [] };
}

abbrev after_sale : InventoryDb
after_sale = record {
  vip = record (db.vip) { users = (1, record seller { balance = 1500 }) ∷ [] };
  skins = record (db.skins) { items = (5, sold knife) ∷ (6, glove) ∷ [] };
}

one_sale : sell_skin 5 1 db ≡ ok (sold knife, after_sale)
unfolding sell_skin
one_sale = refl

stranger : sell_skin 5 2 db ≡ err SellError.user_not_found
unfolding sell_skin
stranger = refl

both : sell_selected_skins (6 ∷ 5 ∷ 6 ∷ 9 ∷ []) 1 after_sale ≡ err SellError.already_sold
unfolding sell_selected_skins
both = refl

abbrev locked_skins : WithdrawDb
locked_skins = record (db.skins) {
  items = (5, sold knife) ∷ (6, record glove { is_withdrawn = true; withdrawn_at = some 7 }) ∷ [];
}

sale_and_withdrawal : History new_url db 0 (with_skins after_sale locked_skins)
unfolding sell_skin request_withdrawal parse_trade_url
sale_and_withdrawal =
    then_step {m = 0} {n = 0} (then_step {m = 0} {n = 0} start (sold_one 5 1 (sold knife) refl))
      (requested 1 (6 ∷ []) (codes "url") 7 ((6, glove) ∷ []) trade_url refl)

sales_conserve_example :
    (wealth (with_skins after_sale locked_skins) ≡ wealth db + 0)
    × IsValid (with_skins after_sale locked_skins)
sales_conserve_example =
    sales_conserve new_url db (with_skins after_sale locked_skins) 0 sale_and_withdrawal
      ((refl, (refl, tt)), (refl, (refl, tt)))

sold_once_example :
    Refused (sell_skin 5 1 after_sale)
    × Refused (sell_selected_skins (6 ∷ 5 ∷ []) 1 after_sale)
    × LeavesOut 5 (sell_all_read 1 after_sale)
sold_once_example =
    sold_once 5 1 1 (6 ∷ 5 ∷ []) (sold knife) db after_sale (refl, (refl, tt)) one_sale refl
