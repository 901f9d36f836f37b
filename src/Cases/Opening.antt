-- ===== src/Cases/Opening.antt =====
-- The money of an opening: its payment, its prizes and its loop.
use mathlib.Core.Path.{subst}
use rabbit_backend.Prelude.{
  ℕ, ◌+◌, ◌-◌, ◌*◌, ◌≤◌, ◌<◌, ◌≡◌, ◌≢◌, refl, sym, ap, ◌∙◌, Bool, true, false, ◌||◌, Option, none,
  some, List, [], ◌∷◌, All, leb, ltb, length, Result, ok, err, ◌>>=◌, Bool-cases, Option-cases,
  Result-cases, inl, inr, arith,
}
use rabbit_backend.Prelude.Table.{Table, find_row, save_row, find_row-save_row_ne, total}
use rabbit_backend.Vip.Earning.{VipEarning}
use rabbit_backend.Vip.Store.{VipUser, VipDb}
use rabbit_backend.Vip.Store.Balances.{balance_of, recorded_balances}
use rabbit_backend.Withdraw.{GameType, Item}
use rabbit_backend.Inventory.{InventoryDb, Skin, new_item, create_inventory}
use rabbit_backend.Inventory.Wealth.{wealth, IsValid}
use rabbit_backend.Inventory.Steps.{Grants, create_inventory-Grants}
use rabbit_backend.Cases.Winner.{won, lost, select_winner-Drawn}
use rabbit_backend.Cases.{
  SkinCase, TicketRange, tickets_for, prepare_ticket_ranges, random_scale, CaseError,
  validate_and_deduct_balance, price_of_case_skin, reserve, pay_for_case, case_earning, CaseEntity,
  CasesDb, available, get_available_skins, start_opening, give_case_skin, draw_skin, draw_skins,
  open_case,
}

-- What a payment of so much does, if it is not refused
Deducted : ℕ → VipDb → Result CaseError VipDb → Type 0
Deducted amount vip (err _) = Unit
Deducted amount vip (ok after) = total balance_of after.users + amount ≡ total balance_of vip.users

validate_and_deduct_balance-Deducted :
    (uid amount now : ℕ) (earning : VipEarning) (vip : VipDb)
    → Deducted amount vip (validate_and_deduct_balance uid amount earning now vip)
unfolding validate_and_deduct_balance Deducted
validate_and_deduct_balance-Deducted uid amount now earning vip =
    elim (Option-cases (find_row uid vip.users)) [
      | inl missing ↦ rw (missing, Deducted) tt
      | inr (user, row) ↦ elim (Bool-cases (ltb user.balance amount)) [
        | inl poor ↦ rw (row, poor, Deducted) tt
        | inr rich ↦
            let user' : VipUser = record user { balance = user.balance - amount } in
            let saved = recorded_balances uid now user' user earning vip row in
            let enough : amount ≤ user.balance = ground arith in
            rw (row, rich, Deducted) (omega arith)
      ]
    ]

-- What the call charges for the draws
abbrev pub charged : Bool → ℕ → ℕ
charged true cost = 0
charged false cost = cost

-- What a payment does to the users and the items, if it is not refused
IsPaid : ℕ → CasesDb → Result CaseError CasesDb → Type 0
IsPaid cost db (err _) = Unit
IsPaid cost db (ok after) =
    (wealth after.inventory + cost ≡ wealth db.inventory)
    × (after.inventory.skins ≡ db.inventory.skins)

pay_for_case-IsPaid :
    (free : Bool) (uid cost now : ℕ) (earning : VipEarning) (db : CasesDb)
    → IsPaid (charged free cost) db (pay_for_case free uid cost earning now db)
unfolding Deducted IsPaid
pay_for_case-IsPaid true uid cost now earning db = (omega arith, refl)
pay_for_case-IsPaid false uid cost now earning db =
    let paid = validate_and_deduct_balance-Deducted uid cost now earning db.inventory.vip in
    elim (Result-cases (validate_and_deduct_balance uid cost earning now db.inventory.vip)) [
      | inl (_, e) ↦ rw (e, IsPaid) tt
      | inr (vip, e) ↦ let spent = rw (e, Deducted) at paid in rw (e, IsPaid) (omega arith, refl)
    ]

abbrev pub WithChance : SkinCase → Type 0
WithChance row = leb row.chance 0 ≡ false

prepare_returns :
    (ticket : ℕ) (rows : List SkinCase)
    → All WithChance rows
    → (ranges : List TicketRange) × (prepare_ticket_ranges ticket rows ≡ ok ranges)
unfolding prepare_ticket_ranges
prepare_returns ticket [] all = ([], refl)
prepare_returns ticket (row ∷ rows) (chance, all) =
    let (ranges, e) = prepare_returns (ticket + tickets_for row.chance) rows all in
    rw (chance, e) (_, refl)

-- The keys of the new items are free, and no two are the same.
abbrev pub Fresh : List (ℕ × ℕ) → Table Item → Type 0
Fresh [] items = Unit
Fresh ((_, key) ∷ draws) items =
    (find_row key items ≡ none) × All (λ draw. draw.1 ≢ key) draws × Fresh draws items

abbrev pub InRange : ℕ × ℕ → Type 0
InRange draw = draw.0 < random_scale

abbrev pub prizes : List SkinCase → ℕ
prizes [] = 0
prizes (row ∷ rows) = price_of_case_skin row.skin + prizes rows

give_case_skin-Grants :
    (uid key : ℕ) (game_type : GameType) (skin : Option (ℕ × Skin)) (db : InventoryDb)
    → find_row key db.skins.items ≡ none
    → IsValid db
    → Grants db (price_of_case_skin skin) (give_case_skin uid game_type skin key db)
give_case_skin-Grants uid key game_type none db fresh valid = (omega arith, valid)
give_case_skin-Grants uid key game_type (some (skin_id, skin)) db fresh valid =
    create_inventory-Grants uid skin_id skin game_type key db fresh valid

Fresh-save_row :
    (key : ℕ) (item : Item) (draws : List (ℕ × ℕ)) (items : Table Item)
    → All (λ draw. draw.1 ≢ key) draws
    → Fresh draws items
    → Fresh draws (save_row key item items)
Fresh-save_row key item [] items other fresh = tt
Fresh-save_row key item ((_, k) ∷ draws) items (differ, other) (free, once, fresh) = (
  find_row-save_row_ne k key item items differ ∙ free,
  once,
  Fresh-save_row key item draws items other fresh,
)

Fresh-give_case_skin :
    (uid key : ℕ) (game_type : GameType) (skin : Option (ℕ × Skin)) (draws : List (ℕ × ℕ))
    (db : InventoryDb)
    → All (λ draw. draw.1 ≢ key) draws
    → Fresh draws db.skins.items
    → Fresh draws (give_case_skin uid game_type skin key db).skins.items
unfolding create_inventory
Fresh-give_case_skin uid key game_type none draws db other fresh = fresh
Fresh-give_case_skin uid key game_type (some (skin_id, skin)) draws db other fresh =
    Fresh-save_row key (new_item uid skin_id skin game_type) draws db.skins.items other fresh

draw_skin_returns :
    (uid key random : ℕ) (game_type : GameType) (rows : List SkinCase) (db : InventoryDb)
    → leb (length rows) 0 ≡ false
    → All WithChance rows
    → random < random_scale
    → (winner : SkinCase) × (draw_skin uid game_type rows (random, key) db
        ≡ ok (winner, give_case_skin uid game_type winner.skin key db))
unfolding draw_skin
draw_skin_returns uid key random game_type [] db h all less = absurd (ground arith)
draw_skin_returns uid key random game_type (row ∷ rows) db h all less =
    let (ranges, e) = prepare_returns 1 (row ∷ rows) all in
    elim (select_winner-Drawn row rows ranges random e (omega arith)) [
      | lost greatest missing ↦ absurd (omega arith)
      | won winner _ _ chosen ↦ (winner, rw (e, chosen) refl)
    ]

-- The loop returns the winners of all draws.
Looped : List (ℕ × ℕ) → InventoryDb → Result CaseError (List SkinCase) × InventoryDb → Type 0
Looped draws db (err _, after) = ⊥
Looped draws db (ok winners, after) =
    Grants db (prizes winners) after × (length winners ≡ length draws)

draw_skins_step :
    (uid : ℕ) (game_type : GameType) (rows : List SkinCase) (draw : ℕ × ℕ) (draws : List (ℕ × ℕ))
    (winner : SkinCase) (db db' : InventoryDb)
    → draw_skin uid game_type rows draw db ≡ ok (winner, db')
    → draw_skins uid game_type rows (draw ∷ draws) db ≡ (
        let r = draw_skins uid game_type rows draws db' in
        (r.0 >>= λ winners. ok (winner ∷ winners), r.1))
draw_skins_step uid game_type rows draw draws winner db db' h = rw (draw_skins, h) refl

draw_skins-Looped :
    (uid : ℕ) (game_type : GameType) (rows : List SkinCase) (draws : List (ℕ × ℕ))
    (db : InventoryDb)
    → leb (length rows) 0 ≡ false
    → All WithChance rows
    → All InRange draws
    → Fresh draws db.skins.items
    → IsValid db
    → Looped draws db (draw_skins uid game_type rows draws db)
unfolding Looped
draw_skins-Looped uid game_type rows [] db h all less fresh valid = ((omega arith, valid), refl)
draw_skins-Looped uid game_type rows ((random, key) ∷ draws) db h all (small, less)
      (free, once, fresh) valid =
    let (winner, e) = draw_skin_returns uid key random game_type rows db h all small in
    let db' = give_case_skin uid game_type winner.skin key db in
    let (first, valid') = give_case_skin-Grants uid key game_type winner.skin db free valid in
    let later = Fresh-give_case_skin uid key game_type winner.skin draws db once fresh in
    let rest = draw_skins-Looped uid game_type rows draws db' h all less later valid' in
    let unrolled = draw_skins_step uid game_type rows (random, key) draws winner db db' e in
    subst (Looped ((random, key) ∷ draws) db) (sym unrolled)
      (one_more db' winner first (draw_skins uid game_type rows draws db') rest)
  where
    one_more :
        (db' : InventoryDb) (winner : SkinCase)
        → wealth db' ≡ wealth db + price_of_case_skin winner.skin
        → (r : Result CaseError (List SkinCase) × InventoryDb) → Looped draws db' r
        → Looped ((random, key) ∷ draws) db (r.0 >>= λ winners. ok (winner ∷ winners), r.1)
    one_more db' winner first (err _, after) rest = rest
    one_more db' winner first (ok winners, after) ((grown, valid''), counted) =
        ((omega arith, valid''), omega arith)

-- What is known of an opening once it is paid
Started : ℕ → ℕ → Bool → CasesDb → Result CaseError (CaseEntity × List SkinCase × CasesDb) → Type 0
Started case_id count free db (err _) = Unit
Started case_id count free db (ok (row, rows, paid)) =
    (find_row case_id db.cases ≡ some row)
    × (row.is_available ≡ true)
    × (rows ≡ get_available_skins case_id db)
    × (wealth paid.inventory + charged free (row.case_price * count) ≡ wealth db.inventory)
    × (paid.inventory.skins ≡ db.inventory.skins)
    × (leb (length rows) 0 ≡ false)

available-some :
    (o : Option CaseEntity) (row : CaseEntity)
    → available o ≡ some row
    → (o ≡ some row) × (row.is_available ≡ true)
available-some none row h = absurd (ground arith)
available-some (some was) row h = elim (Bool-cases was.is_available) [
  | inr hidden ↦ absurd (ground arith)
  | inl shown ↦ let this : was ≡ row = ground arith in (rw this refl, rw (sym this) shown)
]

reserve_keeps :
    (limited : Bool) (case_id count : ℕ) (row : CaseEntity) (db after : CasesDb)
    → reserve limited case_id count row db ≡ ok after
    → after.inventory ≡ db.inventory
reserve_keeps true case_id count row db after h = ground arith
reserve_keeps false case_id count row db after h = ground arith

start_opening-Started :
    (case_id uid count now : ℕ) (free : Bool) (db : CasesDb)
    → Started case_id count free db (start_opening case_id uid count free now db)
unfolding start_opening IsPaid Started
start_opening-Started case_id uid count now free db =
    let rows = get_available_skins case_id db in
    elim (Option-cases (available (find_row case_id db.cases))) [
      | inl missing ↦ rw (missing, Started) tt
      | inr (row, found) ↦ elim (Bool-cases (ltb count 1 || ltb 5 count)) [
        | inl bad ↦ rw (found, bad, Started) tt
        | inr good ↦ elim (Bool-cases (leb (length rows) 0)) [
          | inl no_rows ↦ rw (found, good, no_rows, Started) tt
          | inr some_rows ↦ elim (Result-cases (reserve row.is_limited case_id count row db)) [
            | inl (_, e) ↦ rw (found, good, some_rows, e, Started) tt
            | inr (reserved, e) ↦
                let (present, shown) = available-some (find_row case_id db.cases) row found in
                let cost = row.case_price * count in
                let earning = case_earning row.case_price cost rows in
                let same = reserve_keeps row.is_limited case_id count row db reserved e in
                let pays = pay_for_case-IsPaid free uid cost now earning reserved in
                elim (Result-cases (pay_for_case free uid cost earning now reserved)) [
                  | inl (_, refused) ↦ rw (found, good, some_rows, e, refused, Started) tt
                  | inr (paid, accepted) ↦
                      let (spent, kept) = rw (accepted, IsPaid) at pays in
                      rw (found, good, some_rows, e, accepted, Started)
                        (
                          present,
                          shown,
                          refl,
                          spent ∙ ap wealth same,
                          kept ∙ ap (λ i. i.skins) same,
                          some_rows,
                        )
                ]
          ]
        ]
      ]
    ]

-- What an opening does: nothing; or, where the case is there and available, as many skins as draws,
-- for the price of that case times the draws unless it is free
pub data Opened (case_id count : ℕ) (free : Bool) (db : CasesDb)
    : Result CaseError (List SkinCase) × CasesDb → Type 0 where
  refused : (e : CaseError) → Opened case_id count free db (err e, db)
  opened :
      (row : CaseEntity) (winners : List SkinCase) {after : CasesDb}
      → find_row case_id db.cases ≡ some row
      → row.is_available ≡ true
      → length winners ≡ count
      → wealth after.inventory + charged free (row.case_price * count)
        ≡ wealth db.inventory + prizes winners
      → IsValid after.inventory
      → Opened case_id count free db (ok winners, after)

loop_opens :
    (case_id : ℕ) (free : Bool) (row : CaseEntity) (draws : List (ℕ × ℕ)) (db paid : CasesDb)
    (r : Result CaseError (List SkinCase) × InventoryDb)
    → find_row case_id db.cases ≡ some row
    → row.is_available ≡ true
    → wealth paid.inventory + charged free (row.case_price * length draws) ≡ wealth db.inventory
    → Looped draws paid.inventory r
    → Opened case_id (length draws) free db (r.0, record paid { inventory = r.1 })
unfolding Looped
loop_opens case_id free row draws db paid (err _, after) present shown spent looped = absurd looped
loop_opens case_id free row draws db paid (ok winners, after) present shown spent
      ((grown, valid), counted) =
    opened row winners present shown counted (omega arith) valid

-- Where every row of the lottery of the case has a chance, the keys of the new items are free and
-- differ, no two items have the same key and none is both sold and withdrawn, and no draw is the
-- greatest number of 32 bits: an opening is refused and leaves the database as it was; or the case is
-- there and available, the opening has as many winners as draws, and the balances and the unsold items
-- together change by just the prices of the winners less, unless it is free, the price of this case
-- for each draw.
pub open_case-Opened :
    (case_id uid now : ℕ) (draws : List (ℕ × ℕ)) (free : Bool) (db : CasesDb)
    → All WithChance (get_available_skins case_id db)
    → All InRange draws
    → Fresh draws db.inventory.skins.items
    → IsValid db.inventory
    → Opened case_id (length draws) free db (open_case case_id uid draws free now db)
unfolding open_case Started
open_case-Opened case_id uid now draws free db all less fresh valid =
    let starts = start_opening-Started case_id uid (length draws) now free db in
    elim (Result-cases (start_opening case_id uid (length draws) free now db)) [
      | inl (e, stops) ↦ rw (open_case, stops) (refused e)
      | inr ((row, rows, paid), starts_ok) ↦
          let (present, shown, listed, spent, kept, some_rows) =
            rw (starts_ok, Started) at starts in
          let looped =
            draw_skins-Looped uid row.game_type rows draws paid.inventory some_rows (rw listed all)
              less (rw kept fresh) (rw kept valid) in
          rw (open_case, starts_ok)
            (loop_opens case_id free row draws db paid
              (draw_skins uid row.game_type rows draws paid.inventory) present shown spent looped)
    ]
