-- ===== src/Bonuses.antt =====
-- Bonuses: src/modules/userBonuses/userBonus.service.ts (claimBonus, and the makers of a bonus). A free
-- case is openCase of Cases, with its own writes, which an error of the claim does not undo. What the
-- clicker's service does for a reward of carrots is a parameter, on a state of its own: the state that it
-- leaves, or none if it throws. Money is in cents.
pub mod Claims
pub mod Tests
use rabbit_backend.Prelude.{
  ℕ, ◌+◌, ◌*◌, Bool, true, false, not, ◌&&◌, ◌||◌, Option, none, some, List, [], ◌∷◌, leb, ltb,
  length, ◌==◌, if◌then◌else◌, Result, ok, err, ◌>>=◌, ◌>>◌, throw_if, or_throw,
}
use rabbit_backend.Prelude.Table.{Table, find_row, save_row}
use rabbit_backend.Vip.Store.{VipUser, VipDb}
use rabbit_backend.Withdraw.{GameType, csgo, dota}
use rabbit_backend.Inventory.{InventoryDb, Skin, credited, create_inventory}
use rabbit_backend.Cases.{SkinCase, CaseError, CasesDb, open_case}

-- The wheel's rewards; a value that is no positive number is 0.
pub data RewardType : Type 0 where
  code balance money respin carrots free_case item : RewardType

pub record Reward : Type 0 where
  pub reward_type : RewardType
  pub value : ℕ
  pub case_id : Option ℕ
  pub game_type : Option GameType
  pub csgo_skin : Option (ℕ × Skin)
  pub dota_skin : Option (ℕ × Skin)

pub data BonusType : Type 0 where
  wheel promo : BonusType

pub record UserBonus : Type 0 where
  pub user_id : ℕ
  pub bonus_type : BonusType
  pub reward : Option Reward
  pub promo_code_id : Option ℕ
  pub is_claimed : Bool
  pub last_claimed_at : ℕ
  pub expired_at : ℕ

-- The rows that a claim reads and writes; `rest` is what the clicker keeps.
pub record BonusDb (S : Type 0) : Type 0 where
  pub store : CasesDb
  pub bonuses : Table UserBonus
  pub cooldowns : Table ℕ  -- `next_available`, by user
  pub rest : S

pub data BonusError : Type 0 where
  not_found user_not_found no_case no_skin service_failed case_failed : BonusError

-- What the clicker's service does
pub record Services (S : Type 0) : Type 0 where
  pub grant_wheel_reward_points : ℕ → ℕ → S → Option S

abbrev pub reward_skin : Reward → GameType → Option (ℕ × Skin)
reward_skin reward csgo = reward.csgo_skin
reward_skin reward dota = reward.dota_skin

abbrev pub reward_game : Option GameType → GameType
reward_game none = csgo
reward_game (some game_type) = game_type

-- The row that `claimBonus` locks
abbrev pub claimable : ℕ → ℕ → Option UserBonus → Option UserBonus
claimable uid now none = none
claimable uid now (some bonus) =
    if (bonus.user_id == uid) && (not bonus.is_claimed && ltb now bonus.expired_at)
    then some bonus
    else none

module _ {S : Type 0} where
  abbrev pub with_inventory : InventoryDb → BonusDb S → BonusDb S
  with_inventory inventory db = record db { store = record (db.store) { inventory = inventory } }

  -- `creditUserBalance`
  unfoldable pub credit_user_balance : ℕ → ℕ → BonusDb S → Result BonusError (BonusDb S)
  credit_user_balance uid amount db =
      let inventory = db.store.inventory in
      if leb amount 0
      then ok db
      else (or_throw (find_row uid inventory.vip.users) user_not_found >>= λ user.
          let paid : VipDb = credited uid user amount inventory.vip in
          ok (with_inventory (record inventory { vip = paid }) db))

  -- `resetWheelCooldown`
  abbrev pub reset_wheel_cooldown : ℕ → ℕ → Option ℕ → BonusDb S → BonusDb S
  reset_wheel_cooldown uid now none db = db
  reset_wheel_cooldown uid now (some _) db = record db { cooldowns = save_row uid now db.cooldowns }

  abbrev pub with_rest : BonusDb S → Option S → Result BonusError (BonusDb S)
  with_rest db none = err service_failed
  with_rest db (some rest) = ok (record db { rest = rest })

  abbrev pub give_reward_item :
      ℕ → GameType → ℕ → Option (ℕ × Skin) → BonusDb S → Result BonusError (BonusDb S)
  give_reward_item uid game_type key none db = err no_skin
  give_reward_item uid game_type key (some (skin_id, skin)) db =
      ok (with_inventory (create_inventory uid skin_id skin game_type key db.store.inventory).1 db)

  -- A payout of which an error leaves nothing
  abbrev pub settled :
      BonusDb S → Result BonusError (BonusDb S) → Result BonusError (Unit {0}) × BonusDb S
  settled db (err e) = (err e, db)
  settled db (ok after) = (ok tt, after)

  -- What the opening of a case has written stays, also after an error.
  abbrev pub with_opening :
      BonusDb S
      → Result CaseError (List SkinCase) × CasesDb
      → Result BonusError (Unit {0}) × BonusDb S
  with_opening db (err _, store) = (err case_failed, record db { store = store })
  with_opening db (ok _, store) = (ok tt, record db { store = store })

  -- `openFreeCase`, of a case that is named
  abbrev pub open_reward_case :
      ℕ → Option ℕ → ℕ × ℕ → ℕ → BonusDb S → Result BonusError (Unit {0}) × BonusDb S
  open_reward_case uid none draw now db = (err no_case, db)
  open_reward_case uid (some id) draw now db =
      if id == 0
      then (err no_case, db)
      else with_opening db (open_case id uid (draw ∷ []) true now db.store)

  abbrev pub pay_reward :
      Services S
      → ℕ
      → Reward
      → ℕ × ℕ
      → ℕ
      → BonusDb S
      → RewardType
      → Result BonusError (Unit {0}) × BonusDb S
  pay_reward services uid reward draw now db balance =
      settled db (credit_user_balance uid reward.value db)
  pay_reward services uid reward draw now db money =
      settled db (credit_user_balance uid reward.value db)
  pay_reward services uid reward draw now db respin =
      (ok tt, reset_wheel_cooldown uid now (find_row uid db.cooldowns) db)
  pay_reward services uid reward draw now db carrots =
      settled db (with_rest db (services.grant_wheel_reward_points uid reward.value db.rest))
  pay_reward services uid reward draw now db free_case =
      open_reward_case uid reward.case_id draw now db
  pay_reward services uid reward draw now db item =
      let game_type = reward_game reward.game_type in
      settled db (give_reward_item uid game_type (draw.1) (reward_skin reward game_type) db)
  pay_reward services uid reward draw now db code = (ok tt, db)

  -- `applyClaimPayout`, of a bonus of the type with the reward
  abbrev pub apply_claim_payout :
      Services S
      → ℕ
      → ℕ × ℕ
      → ℕ
      → BonusDb S
      → BonusType
      → Option Reward
      → Result BonusError (Unit {0}) × BonusDb S
  apply_claim_payout services uid draw now db wheel (some reward) =
      pay_reward services uid reward draw now db reward.reward_type
  apply_claim_payout services uid draw now db _ _ = (ok tt, db)

  -- What `claimBonus` does after the payout
  abbrev pub save_claimed :
      ℕ
      → UserBonus
      → Result BonusError (Unit {0}) × BonusDb S
      → Result BonusError UserBonus × BonusDb S
  save_claimed id claimed (err e, paid) = (err e, paid)
  save_claimed id claimed (ok _, paid) =
      (ok claimed, record paid { bonuses = save_row id claimed paid.bonuses })

  -- `claimBonus`; the draw is the random number of a free case and the key of the row of an item that
  -- the claim gives. The database is that after the call, also after an error.
  unfoldable pub claim_bonus :
      Services S → ℕ → ℕ → ℕ × ℕ → ℕ → BonusDb S → Result BonusError UserBonus × BonusDb S
  unfolding credit_user_balance
  claim_bonus services id uid draw now db = elim (claimable uid now (find_row id db.bonuses)) [
    | none ↦ (err not_found, db)
    | some bonus ↦
        let claimed : UserBonus = record bonus { is_claimed = true; last_claimed_at = now } in
        save_claimed id claimed
          (apply_claim_payout services uid draw now db bonus.bonus_type bonus.reward)
  ]

  -- `createWheelBonus` and `createPromoBonus`; the second names the promo code and no reward.
  abbrev pub new_bonus :
      ℕ → BonusType → Option Reward → Option ℕ → ℕ → ℕ → ℕ → BonusDb S → BonusDb S
  new_bonus uid bonus_type reward promo_code_id expired_at key now db = record db {
    bonuses =
        save_row key
          (record {
            user_id = uid;
            bonus_type = bonus_type;
            reward = reward;
            promo_code_id = promo_code_id;
            is_claimed = false;
            last_claimed_at = now;
            expired_at = expired_at;
          })
          db.bonuses;
  }
