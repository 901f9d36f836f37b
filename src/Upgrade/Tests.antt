-- ===== src/Upgrade/Tests.antt =====
-- Upgrades of 5.00 to a skin of 10.00, with the balance and with an item.
use rabbit_backend.Prelude.{
  ◌+◌, ◌*◌, ◌≤◌, ◌≡◌, refl, true, false, none, some, [], ◌∷◌, ok, err, arith,
}
use rabbit_backend.Prelude.Money.{round_div}
use rabbit_backend.Prelude.Texts.{codes}
use rabbit_backend.Withdraw.{csgo, Item}
use rabbit_backend.Inventory.{Skin}
use rabbit_backend.Inventory.Tests.{seller, knife}
use rabbit_backend.Upgrade.{
  UpgradeDto, UpgradeDb, UpgradeError, calculate_upgrade_chance_by_price, calculate_chance_by_price,
  perform_upgrade,
}
use rabbit_backend.Upgrade.Return.{winning_rolls, winning_rolls_return}
use rabbit_backend.Upgrade.Trades.{Traded, perform_upgrade-Traded}

abbrev watch : Item
watch = record knife { market_price = 500 }

abbrev pub target : Skin
target = record { market_hash_name = codes "knife"; market_price = 1000; bid_price = 900 }

abbrev db : UpgradeDb
db = record {
  inventory = record {
    vip = record { users = (1, seller) ∷ []; ledger = []; claims = []; level_ups = [] };
    skins = record { items = (5, watch) ∷ []; withdrawals = [] };
  };
  csgo_skins = (90, target) ∷ [];
  dota_skins = [];
  history = [];
}

abbrev by_balance : UpgradeDto
by_balance = record {
  inventory_skin_ids = [];
  target_skin_id = 90;
  use_balance = true;
  upgrade_amount = 500;
  game_type = some csgo;
}

abbrev by_item : UpgradeDto
by_item = record by_balance { inventory_skin_ids = 5 ∷ []; use_balance = false; game_type = none }

even_chance : calculate_chance_by_price 500 1000 ≡ ok 4800
unfolding calculate_chance_by_price calculate_upgrade_chance_by_price round_div
even_chance = refl

near_target : calculate_chance_by_price 900 1000 ≡ err UpgradeError.chance_too_high
unfolding calculate_chance_by_price calculate_upgrade_chance_by_price round_div
near_target = refl

winning_rolls_return_example :
    100 * (winning_rolls 4800 1000 1000 * 1000) ≤ 96 * (500 * 1000) + 100 * 1000
winning_rolls_return_example = winning_rolls_return 500 1000 4800 1000 (omega arith) even_chance

perform_upgrade-Traded_example : Traded 1 db (perform_upgrade 1 by_item (4000, 10000) 7 8 db)
perform_upgrade-Traded_example =
    perform_upgrade-Traded 1 7 8 4000 10000 by_item db refl ((refl, tt), (refl, tt))
