-- ===== src/Giveaways/Tests.antt =====
-- A giveaway that two users join and one of them wins.
use rabbit_backend.Prelude.{
  ℕ, ◌+◌, ◌≤◌, ◌≡◌, refl, true, none, some, [], ◌∷◌, ◌++◌, ◌==◌, if◌then◌else◌, ok, err, arith,
}
use rabbit_backend.Prelude.Texts.{codes, decimal}
use rabbit_backend.Inventory.Tests.{seller}
use rabbit_backend.Upgrade.Tests.{target}
use rabbit_backend.Giveaways.{
  GiveawayType, active, completed, Giveaway, GiveawayDb, GiveawayError, pick_giveaway_winner_id,
  hash_to_unit, get_giveaway_bot_target, should_join_giveaway_bot, get_eligible_deposit_amount,
  eligible_deposit_amount, joined, participate, finalized, finalize_expired_giveaways,
}
use rabbit_backend.Giveaways.Sound.{AllSound}
use rabbit_backend.Giveaways.Steps.{
  History, start, then_step, participated, ended, giveaways-AllSound, Settled, decided_stays,
}
use rabbit_backend.Giveaways.Bots.{get_giveaway_bot_target_bounds}

abbrev daily : Giveaway
daily = record {
  giveaway_type = some GiveawayType.daily_10;
  skin_id = 90;
  required_deposit_amount = 100;
  participants = 2 ∷ [];
  participant_count = 1;
  start_time = 1000;
  end_time = 5000;
  status = active;
  winner_user_id = none;
}

abbrev db : GiveawayDb
db = record {
  inventory = record {
    vip = record { users = (1, seller) ∷ []; ledger = []; claims = []; level_ups = [] };
    skins = record { items = []; withdrawals = [] };
  };
  deposit_amounts = (1, 150) ∷ [];
  deposits = [];
  csgo_skins = (90, target) ∷ [];
  giveaways = (7, daily) ∷ [];
}

abbrev after_join : GiveawayDb
after_join = record db { giveaways = (7, joined 1 daily) ∷ [] }

join : participate 7 1 2000 db ≡ ok after_join
unfolding participate eligible_deposit_amount get_eligible_deposit_amount
join = refl

late : participate 7 1 5000 db ≡ err GiveawayError.already_ended
unfolding participate
late = refl

abbrev halves : ℕ → ℕ × ℕ
halves _ = (1, 2)

abbrev keys : ℕ → ℕ
keys id = id + 100

abbrev last : GiveawayDb
last = finalize_expired_giveaways halves keys 5000 after_join

drawn :
    finalized (joined 1 daily) (1, 2)
    ≡ record (joined 1 daily) { status = completed; winner_user_id = some 1 }
unfolding finalized pick_giveaway_winner_id
drawn = refl

one_day : History db last
one_day = then_step (then_step start (participated 7 1 2000 join)) (ended halves keys 5000)

giveaways-AllSound_example : AllSound last
giveaways-AllSound_example = giveaways-AllSound db last one_day ((refl, refl, refl), tt)

abbrev past : Giveaway
past = record daily { status = completed; winner_user_id = some 2 }

abbrev past_db : GiveawayDb
past_db = record db { giveaways = (7, past) ∷ [] }

decided_stays_example :
    Settled 7 past (finalize_expired_giveaways halves keys 6000 past_db).giveaways
decided_stays_example =
    decided_stays 7 past refl past_db (finalize_expired_giveaways halves keys 6000 past_db)
      (then_step start (ended halves keys 6000)) ((refl, tt), refl)

get_giveaway_bot_target_bounds_example :
    let hash = hash_to_unit (codes "giveaway:" ++ decimal 7 ++ codes ":bots") in
    (20 ≤ get_giveaway_bot_target 7 20 30)
    × (get_giveaway_bot_target 7 20 30 ≤ 30 + (if hash == 4294967295 then 1 else 0))
get_giveaway_bot_target_bounds_example = get_giveaway_bot_target_bounds 7 20 30 (omega arith)

half_time : should_join_giveaway_bot 9 20 2000 4000 (1, 2) ≡ true
unfolding should_join_giveaway_bot
half_time = refl
