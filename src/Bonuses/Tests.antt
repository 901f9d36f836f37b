-- ===== src/Bonuses/Tests.antt =====
-- A bonus of the wheel that pays 5.00 and one that opens a case.
use rabbit_backend.Prelude.{
  ℕ, ◌+◌, ◌≡◌, refl, ◌==◌, All, Bool-cases, inl, inr, arith, true, false, none, some, [], ◌∷◌, ok,
  err,
}
use rabbit_backend.Inventory.Tests.{seller}
use rabbit_backend.Cases.{comes_first, get_available_skins}
use rabbit_backend.Cases.Opening.{WithChance}
use rabbit_backend.Cases.Tests.{store}
use rabbit_backend.Bonuses.{
  RewardType, Reward, wheel, UserBonus, BonusDb, BonusError, Services, credit_user_balance,
  claim_bonus,
}
use rabbit_backend.Bonuses.Claims.{Claimed, claim_bonus-Claimed, claim_once}

-- A service that keeps the carrots of one user
abbrev services : Services ℕ
services = record { grant_wheel_reward_points = λ uid amount carrots. some (carrots + amount) }

abbrev coins : Reward
coins = record {
  reward_type = RewardType.money;
  value = 500;
  case_id = none;
  game_type = none;
  csgo_skin = none;
  dota_skin = none;
}

abbrev free_box : Reward
free_box = record coins { reward_type = RewardType.free_case; value = 0; case_id = some 3 }

abbrev bonus : UserBonus
bonus = record {
  user_id = 1;
  bonus_type = wheel;
  reward = some coins;
  promo_code_id = none;
  is_claimed = false;
  last_claimed_at = 0;
  expired_at = 100;
}

abbrev db : BonusDb ℕ
db = record {
  store = store;
  bonuses = (3, bonus) ∷ (4, record bonus { reward = some free_box }) ∷ [];
  cooldowns = [];
  rest = 0;
}

abbrev claimed : UserBonus
claimed = record bonus { is_claimed = true; last_claimed_at = 50 }

abbrev after : BonusDb ℕ
after = record db {
  store = record store {
    inventory = record (store.inventory) {
      vip = record (store.inventory.vip) { users = (1, record seller { balance = 1000 }) ∷ [] };
    };
  };
  bonuses = (3, claimed) ∷ (4, record bonus { reward = some free_box }) ∷ [];
}

claim : claim_bonus services 3 1 (0, 9) 50 db ≡ (ok claimed, after)
unfolding claim_bonus credit_user_balance
claim = refl

expired : claim_bonus services 3 1 (0, 9) 100 db ≡ (err BonusError.not_found, db)
unfolding claim_bonus
expired = refl

-- Every row of a lottery of the store has a chance.
chances : (case_id : ℕ) → All WithChance (get_available_skins case_id store)
unfolding get_available_skins comes_first
chances case_id = elim (Bool-cases (3 == case_id)) [
  | inl this ↦ rw this (refl, (refl, tt))
  | inr other ↦ rw other tt
]

-- The free case
claim_bonus-Claimed_example : Claimed 4 db (claim_bonus services 4 1 (7, 9) 50 db)
claim_bonus-Claimed_example =
    claim_bonus-Claimed services 4 1 50 (7, 9) db (refl, (tt, tt), omega arith, chances)

claim_once_example : claim_bonus services 3 1 (1, 10) 60 after ≡ (err BonusError.not_found, after)
claim_once_example = claim_once services services 3 1 50 1 60 (0, 9) (1, 10) claimed db after claim
