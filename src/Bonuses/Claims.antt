-- ===== src/Bonuses/Claims.antt =====
-- A bonus is claimed once, and pays what its reward is worth.
use rabbit_backend.Prelude.{
  ℕ, ◌<◌, ◌≡◌, refl, sym, ap, true, false, not, ◌&&◌, Option, none, some, List, [], ◌∷◌, All, leb,
  ltb, ◌==◌, Result, ok, err, Bool-cases, Option-cases, inl, inr, arith,
}
use rabbit_backend.Prelude.Table.{Table, find_row, save_row, find_row-save_row_self}
use rabbit_backend.Withdraw.{GameType}
use rabbit_backend.Inventory.{Skin}
use rabbit_backend.Inventory.Wealth.{IsValid, credited_balances}
use rabbit_backend.Inventory.Steps.{Grants, create_inventory-Grants}
use rabbit_backend.Cases.{
  SkinCase, CaseError, CasesDb, get_available_skins, random_scale, open_case,
}
use rabbit_backend.Cases.Opening.{WithChance, Opened, refused, opened, open_case-Opened}
use rabbit_backend.Bonuses.{
  RewardType, code, balance, money, respin, carrots, free_case, item, Reward, BonusType, wheel,
  promo, UserBonus, BonusDb, BonusError, not_found, Services, credit_user_balance, reward_skin,
  reward_game, claimable, reset_wheel_cooldown, with_rest, settled, with_opening, open_reward_case,
  give_reward_item, pay_reward, apply_claim_payout, save_claimed, claim_bonus,
}

-- What the skin of a reward sells for
abbrev pub skin_worth : Option (ℕ × Skin) → ℕ
skin_worth none = 0
skin_worth (some (_, skin)) = skin.market_price

claimable-some :
    (uid now : ℕ) (o : Option UserBonus) (bonus : UserBonus)
    → claimable uid now o ≡ some bonus
    → (o ≡ some bonus) × (bonus.is_claimed ≡ false)
claimable-some uid now none bonus h = absurd (ground arith)
claimable-some uid now (some was) bonus h =
    elim (Bool-cases ((was.user_id == uid) && (not was.is_claimed && ltb now was.expired_at))) [
      | inr other ↦ absurd (ground arith)
      | inl meets ↦
          let this : was ≡ bonus = ground arith in (rw this refl, rw (sym this) (ground arith))
    ]

claimable_claimed :
    (uid now : ℕ) (bonus : UserBonus)
    → bonus.is_claimed ≡ true
    → claimable uid now (some bonus) ≡ none
claimable_claimed uid now bonus h = elim (Bool-cases (bonus.user_id == uid)) [
  | inl mine ↦ rw (mine, h) refl
  | inr other ↦ rw other refl
]

module _ {S : Type 0} where
  -- What the payout of a reward does: the opening of its case, or a grant of its worth
  abbrev pub Pays : BonusDb S → Reward → RewardType → BonusDb S → Type 0
  Pays db reward free_case after =
      (case_id : ℕ) × (winners : List SkinCase) × (reward.case_id ≡ some case_id)
      × Opened case_id 1 true db.store (ok winners, after.store)
  Pays db reward code after = Grants db.store.inventory 0 after.store.inventory
  Pays db reward respin after = Grants db.store.inventory 0 after.store.inventory
  Pays db reward carrots after = Grants db.store.inventory 0 after.store.inventory
  Pays db reward balance after = Grants db.store.inventory reward.value after.store.inventory
  Pays db reward money after = Grants db.store.inventory reward.value after.store.inventory
  Pays db reward item after =
      let skin = reward_skin reward (reward_game reward.game_type) in
      Grants db.store.inventory (skin_worth skin) after.store.inventory

  -- What a bonus pays: the reward of the wheel; a bonus of a promo code pays when it is activated.
  abbrev pub PaysBonus : BonusDb S → BonusType → Option Reward → BonusDb S → Type 0
  PaysBonus db wheel (some reward) after = Pays db reward reward.reward_type after
  PaysBonus db wheel none after = Grants db.store.inventory 0 after.store.inventory
  PaysBonus db promo reward after = Grants db.store.inventory 0 after.store.inventory

  -- A payout that is refused leaves all as it was; any other leaves the bonuses.
  abbrev Settled :
      (BonusDb S → Type 0) → BonusDb S → Result BonusError (Unit {0}) × BonusDb S → Type 0
  Settled What db (err _, after) = after ≡ db
  Settled What db (ok _, after) = What after × (after.bonuses ≡ db.bonuses)

  abbrev Gives : ℕ → BonusDb S → BonusDb S → Type 0
  Gives n db after = Grants db.store.inventory n after.store.inventory

  credit_user_balance-Gives :
      (uid amount : ℕ) (db : BonusDb S)
      → IsValid db.store.inventory
      → Settled (Gives amount db) db (settled db (credit_user_balance uid amount db))
  unfolding credit_user_balance
  credit_user_balance-Gives uid amount db valid = elim (Bool-cases (leb amount 0)) [
    | inl nothing ↦
        let none_paid : amount ≡ 0 = ground arith in rw nothing ((omega arith, valid), refl)
    | inr positive ↦ elim (Option-cases (find_row uid db.store.inventory.vip.users)) [
      | inl missing ↦ rw (positive, missing) refl
      | inr (user, row) ↦
          let paid = credited_balances uid amount user db.store.inventory.vip row in
          rw (positive, row) ((omega arith, valid), refl)
    ]
  ]

  with_rest-Gives :
      (db : BonusDb S) (rest : Option S)
      → IsValid db.store.inventory
      → Settled (Gives 0 db) db (settled db (with_rest db rest))
  with_rest-Gives db none valid = refl
  with_rest-Gives db (some rest) valid = ((omega arith, valid), refl)

  give_reward_item-Gives :
      (uid key : ℕ) (game_type : GameType) (skin : Option (ℕ × Skin)) (db : BonusDb S)
      → find_row key db.store.inventory.skins.items ≡ none
      → IsValid db.store.inventory
      → Settled
          (Gives (skin_worth skin) db)
          db
          (settled db (give_reward_item uid game_type key skin db))
  give_reward_item-Gives uid key game_type none db fresh valid = refl
  give_reward_item-Gives uid key game_type (some (skin_id, skin)) db fresh valid =
      (create_inventory-Grants uid skin_id skin game_type key db.store.inventory fresh valid, refl)

  reset_wheel_cooldown-Gives :
      (uid now : ℕ) (cooldown : Option ℕ) (db : BonusDb S)
      → IsValid db.store.inventory
      → Settled (Gives 0 db) db (ok tt, reset_wheel_cooldown uid now cooldown db)
  reset_wheel_cooldown-Gives uid now none db valid = ((omega arith, valid), refl)
  reset_wheel_cooldown-Gives uid now (some _) db valid = ((omega arith, valid), refl)

  with_opening-Pays :
      (case_id : ℕ) (reward : Reward) (db : BonusDb S)
      (r : Result CaseError (List SkinCase) × CasesDb)
      → reward.case_id ≡ some case_id
      → Opened case_id 1 true db.store r
      → Settled (Pays db reward free_case) db (with_opening db r)
  with_opening-Pays case_id reward db r named (refused e) = refl
  with_opening-Pays case_id reward db r named
        (opened row winners {after = after} found shown counted grown valid) =
      ((case_id, winners, named, opened row winners found shown counted grown valid), refl)

  -- What a claim may rely on: the key of a new item is free, no two items have the same key and none is
  -- both sold and withdrawn, the random number is not the greatest, and every row of a lottery has a
  -- chance.
  abbrev pub Ready : ℕ × ℕ → BonusDb S → Type 0
  Ready (random, key) db =
      (find_row key db.store.inventory.skins.items ≡ none)
      × IsValid db.store.inventory
      × (random < random_scale)
      × ((case_id : ℕ) → All WithChance (get_available_skins case_id db.store))

  open_reward_case-Pays :
      (uid now : ℕ) (reward : Reward) (case_id : Option ℕ) (draw : ℕ × ℕ) (db : BonusDb S)
      → reward.case_id ≡ case_id
      → Ready draw db
      → Settled (Pays db reward free_case) db (open_reward_case uid case_id draw now db)
  open_reward_case-Pays uid now reward none draw db named ready = refl
  open_reward_case-Pays uid now reward (some id) (random, key) db named (fresh, valid, small, all) =
      elim (Bool-cases (id == 0)) [
        | inl zero ↦ rw (open_reward_case, zero) refl
        | inr other ↦
            let draws = (random, key) ∷ [] in
            rw (open_reward_case, other)
              (with_opening-Pays id reward db (open_case id uid draws true now db.store) named (
                open_case-Opened id uid now draws true db.store (all id) (small, tt) (fresh, tt, tt)
                  valid))
      ]

  pay_reward-Pays :
      (services : Services S) (uid now : ℕ) (reward : Reward) (draw : ℕ × ℕ) (db : BonusDb S)
      (reward_type : RewardType)
      → Ready draw db
      → Settled
          (Pays db reward reward_type)
          db
          (pay_reward services uid reward draw now db reward_type)
  pay_reward-Pays services uid now reward draw db balance (fresh, valid, _, _) =
      credit_user_balance-Gives uid reward.value db valid
  pay_reward-Pays services uid now reward draw db money (fresh, valid, _, _) =
      credit_user_balance-Gives uid reward.value db valid
  pay_reward-Pays services uid now reward draw db respin (fresh, valid, _, _) =
      reset_wheel_cooldown-Gives uid now (find_row uid db.cooldowns) db valid
  pay_reward-Pays services uid now reward draw db carrots (fresh, valid, _, _) =
      with_rest-Gives db (services.grant_wheel_reward_points uid reward.value db.rest) valid
  pay_reward-Pays services uid now reward draw db free_case ready =
      open_reward_case-Pays uid now reward reward.case_id draw db refl ready
  pay_reward-Pays services uid now reward draw db item (fresh, valid, _, _) =
      let game_type = reward_game reward.game_type in
      give_reward_item-Gives uid (draw.1) game_type (reward_skin reward game_type) db fresh valid
  pay_reward-Pays services uid now reward draw db code (fresh, valid, _, _) =
      ((omega arith, valid), refl)

  apply_claim_payout-Pays :
      (services : Services S) (uid now : ℕ) (draw : ℕ × ℕ) (db : BonusDb S) (bonus_type : BonusType)
      (reward : Option Reward)
      → Ready draw db
      → Settled
          (PaysBonus db bonus_type reward)
          db
          (apply_claim_payout services uid draw now db bonus_type reward)
  apply_claim_payout-Pays services uid now draw db wheel none (fresh, valid, _, _) =
      ((omega arith, valid), refl)
  apply_claim_payout-Pays services uid now draw db wheel (some reward) ready =
      pay_reward-Pays services uid now reward draw db reward.reward_type ready
  apply_claim_payout-Pays services uid now draw db promo reward (fresh, valid, _, _) =
      ((omega arith, valid), refl)

  -- What a claim does: nothing, or the payment of a bonus that was not claimed yet, and is now
  abbrev pub Claimed : ℕ → BonusDb S → Result BonusError UserBonus × BonusDb S → Type 0
  Claimed id db (err _, after) = after ≡ db
  Claimed id db (ok bonus, after) =
      (was : UserBonus) × (find_row id db.bonuses ≡ some was)
      × (was.is_claimed ≡ false)
      × PaysBonus db was.bonus_type was.reward after
      × (after.bonuses ≡ save_row id bonus db.bonuses)
      × (bonus.is_claimed ≡ true)

  PaysBonus-save :
      (db paid : BonusDb S) (bonus_type : BonusType) (reward : Option Reward)
      (bonuses : Table UserBonus)
      → PaysBonus db bonus_type reward paid
      → PaysBonus db bonus_type reward (record paid { bonuses = bonuses })
  PaysBonus-save db paid wheel none bonuses pays = pays
  PaysBonus-save db paid promo reward bonuses pays = pays
  PaysBonus-save db paid wheel (some reward) bonuses pays = kept reward.reward_type pays
    where
      kept :
          (t : RewardType)
          → Pays db reward t paid
          → Pays db reward t (record paid { bonuses = bonuses })
      kept balance p = p
      kept money p = p
      kept respin p = p
      kept carrots p = p
      kept free_case p = p
      kept item p = p
      kept code p = p

  save_claimed-Claimed :
      (id now : ℕ) (was : UserBonus) (db : BonusDb S) (r : Result BonusError (Unit {0}) × BonusDb S)
      → find_row id db.bonuses ≡ some was
      → was.is_claimed ≡ false
      → Settled (PaysBonus db was.bonus_type was.reward) db r
      → Claimed id db (save_claimed id (record was { is_claimed = true; last_claimed_at = now }) r)
  save_claimed-Claimed id now was db (err e, paid) row open_bonus same = same
  save_claimed-Claimed id now was db (ok _, paid) row open_bonus (pays, same) =
      let claimed : UserBonus = record was { is_claimed = true; last_claimed_at = now } in
      (
        was,
        row,
        open_bonus,
        PaysBonus-save db paid was.bonus_type was.reward (save_row id claimed paid.bonuses) pays,
        ap (save_row id claimed) same,
        refl,
      )

  -- With any service of the clicker, when the key of a new item is free, no two items have the same key,
  -- none is both sold and withdrawn, every row of a lottery has a chance and the random number is not the
  -- greatest: a claim that is refused changes nothing; any other finds a bonus that is not claimed and
  -- marks it as claimed, alone of the bonuses. A free case is one opening of the case of the reward,
  -- which costs nothing and gives one skin; otherwise the balances and the unsold items together grow by
  -- just the value of a reward of money or the price of the skin of an item, or not at all.
  pub claim_bonus-Claimed :
      (services : Services S) (id uid now : ℕ) (draw : ℕ × ℕ) (db : BonusDb S)
      → Ready draw db
      → Claimed id db (claim_bonus services id uid draw now db)
  unfolding claim_bonus
  claim_bonus-Claimed services id uid now draw db ready =
      elim (Option-cases (claimable uid now (find_row id db.bonuses))) [
        | inl missing ↦ rw (claim_bonus, missing) refl
        | inr (was, e) ↦
            let (row, open_bonus) = claimable-some uid now (find_row id db.bonuses) was e in
            let pays =
              apply_claim_payout-Pays services uid now draw db was.bonus_type was.reward ready in
            rw (claim_bonus, e)
              (save_claimed-Claimed id now was db
                (apply_claim_payout services uid draw now db was.bonus_type was.reward) row
                open_bonus pays)
      ]

  claimed_row :
      (id now : ℕ) (was bonus : UserBonus) (after : BonusDb S)
      (r : Result BonusError (Unit {0}) × BonusDb S)
      → save_claimed id (record was { is_claimed = true; last_claimed_at = now }) r
        ≡ (ok bonus, after)
      → (find_row id after.bonuses ≡ some bonus) × (bonus.is_claimed ≡ true)
  claimed_row id now was bonus after (err e, paid) h = absurd (ground arith)
  claimed_row id now was bonus after (ok _, paid) h =
      let saved : after.bonuses ≡ save_row id bonus paid.bonuses = ground arith in
      (rw saved (find_row-save_row_self id bonus paid.bonuses), ground arith)

  -- A bonus that has been claimed: every further claim of it is refused and changes nothing, by
  -- whichever user, at whatever moment and with whatever services.
  pub claim_once :
      (services services' : Services S) (id uid now uid' now' : ℕ) (draw draw' : ℕ × ℕ)
      (bonus : UserBonus) (db after : BonusDb S)
      → claim_bonus services id uid draw now db ≡ (ok bonus, after)
      → claim_bonus services' id uid' draw' now' after ≡ (err not_found, after)
  unfolding claim_bonus
  claim_once services services' id uid now uid' now' draw draw' bonus db after h =
      elim (Option-cases (claimable uid now (find_row id db.bonuses))) [
        | inl missing ↦ absurd (let no = rw (claim_bonus, missing) at h in ground arith)
        | inr (was, e) ↦
            let (row, claimed) =
              claimed_row id now was bonus after
                (apply_claim_payout services uid draw now db was.bonus_type was.reward)
                (rw (claim_bonus, e) at h) in
            rw (claim_bonus, row, claimable_claimed uid' now' bonus claimed) refl
      ]
