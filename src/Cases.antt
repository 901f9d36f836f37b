-- ===== src/Cases.antt =====
-- Paid cases: src/modules/cases/case.service.ts, the lottery of a case and openCase, which is no
-- transaction: what is paid before an error stays paid. The hash of the seeds is a parameter: each draw
-- is the number of 32 bits that generateRandomNumber divides by 0xffffffff. Money is in cents, a chance
-- in hundredths of a percent. The history, the seeds' rows and the feed are left out.
pub mod Lottery
pub mod Winner
pub mod Opening
pub mod Tests
use rabbit_backend.Prelude.{
  ℕ, ◌+◌, ◌-◌, ◌*◌, ◌/◌, Bool, true, false, not, ◌&&◌, ◌||◌, Option, none, some, List, [], ◌∷◌, leb,
  ltb, length, includes, keep, ◌==◌, if◌then◌else◌, Result, ok, err, ◌>>=◌, ◌>>◌, throw_if,
  or_throw,
}
use rabbit_backend.Prelude.Money.{Amount}
use rabbit_backend.Prelude.Table.{Table, find_row, save_row}
use rabbit_backend.Vip.Earning.{
  LedgerSource, CaseVipItem, case_product_xp_rate_bps, estimate_case_house_edge_bps, VipEarning,
  calculate_vip_earning,
}
use rabbit_backend.Vip.Store.{VipUser, VipDb, record_earning}
use rabbit_backend.Withdraw.{GameType}
use rabbit_backend.Inventory.{InventoryDb, Skin, create_inventory}

-- A row of skin_case, with the skin that its name finds in the catalogue of the game
pub record SkinCase : Type 0 where
  pub id : ℕ
  pub case_id : ℕ
  pub skin : Option (ℕ × Skin)
  pub chance : ℕ
  pub is_drop_out : Bool

pub record TicketRange : Type 0 where
  pub skin_case : SkinCase
  pub start : ℕ
  pub end : ℕ

-- The chances up to 100% whose double, times 1000, lies below the whole number that is meant
abbrev pub rounded_down : List ℕ
rounded_down =
    201 ∷ 203 ∷ 402 ∷ 406 ∷ 803 ∷ 804 ∷ 811 ∷ 812 ∷ 819 ∷ 1606 ∷ 1608 ∷ 1613 ∷ 1615 ∷ 1622 ∷ 1624
    ∷ 1631 ∷ 1633 ∷ 1638 ∷ 3201 ∷ 3205 ∷ 3212 ∷ 3216 ∷ 3219 ∷ 3223 ∷ 3226 ∷ 3230 ∷ 3237 ∷ 3241
    ∷ 3244 ∷ 3248 ∷ 3251 ∷ 3255 ∷ 3262 ∷ 3266 ∷ 3269 ∷ 3273 ∷ 3276 ∷ 6402 ∷ 6407 ∷ 6410 ∷ 6413
    ∷ 6421 ∷ 6424 ∷ 6427 ∷ 6432 ∷ 6435 ∷ 6438 ∷ 6446 ∷ 6449 ∷ 6452 ∷ 6457 ∷ 6460 ∷ 6463 ∷ 6471
    ∷ 6474 ∷ 6477 ∷ 6482 ∷ 6485 ∷ 6488 ∷ 6496 ∷ 6499 ∷ 6502 ∷ 6507 ∷ 6510 ∷ 6513 ∷ 6521 ∷ 6524
    ∷ 6527 ∷ 6532 ∷ 6535 ∷ 6538 ∷ 6546 ∷ 6549 ∷ 6552 ∷ []

-- `ticketsFor`: `Math.floor(chance * TICKETS_PER_PERCENT)`
unfoldable pub tickets_for : ℕ → ℕ
tickets_for chance = chance * 10 - (if includes rounded_down chance then 1 else 0)

abbrev pub price_of_case_skin : Option (ℕ × Skin) → ℕ
price_of_case_skin none = 0
price_of_case_skin (some (_, skin)) = skin.market_price

-- The order of `sortSkinCasesForLottery`
unfoldable pub comes_first : SkinCase → SkinCase → Bool
comes_first a b =
    ltb (price_of_case_skin b.skin) (price_of_case_skin a.skin)
    || ((price_of_case_skin a.skin == price_of_case_skin b.skin) && leb a.id b.id)

abbrev pub insert_skin_case : SkinCase → List SkinCase → List SkinCase
insert_skin_case a [] = a ∷ []
insert_skin_case a (b ∷ rows) =
    let rest = insert_skin_case a rows in if comes_first a b then a ∷ b ∷ rows else b ∷ rest

abbrev pub sort_skin_cases_for_lottery : List SkinCase → List SkinCase
sort_skin_cases_for_lottery [] = []
sort_skin_cases_for_lottery (a ∷ rows) = insert_skin_case a (sort_skin_cases_for_lottery rows)

pub data CaseError : Type 0 where
  not_found invalid_count no_skins no_copies user_not_found insufficient_balance invalid_chance
        no_winner :
      CaseError

-- `prepareTicketRanges`, from a ticket on
unfoldable pub prepare_ticket_ranges : ℕ → List SkinCase → Result CaseError (List TicketRange)
unfolding tickets_for
prepare_ticket_ranges ticket_start [] = ok []
prepare_ticket_ranges ticket_start (row ∷ rows) =
    let tickets = tickets_for row.chance in
    let range : TicketRange = record {
      skin_case = row;
      start = ticket_start;
      end = ticket_start + tickets - 1;
    } in
    let rest = prepare_ticket_ranges (ticket_start + tickets) rows in
    throw_if (leb row.chance 0) invalid_chance >> (rest >>= λ ranges. ok (range ∷ ranges))

-- `assignTicketRanges`, on rows in the order of the lottery: the ranges that the rows show
unfoldable pub assign_ticket_ranges : ℕ → List SkinCase → List TicketRange
unfolding tickets_for
assign_ticket_ranges ticket_start [] = []
assign_ticket_ranges ticket_start (row ∷ rows) =
    let tickets = tickets_for row.chance in
    let range : TicketRange = record {
      skin_case = row;
      start = ticket_start;
      end = ticket_start + tickets - 1;
    } in
    let skipped = assign_ticket_ranges ticket_start rows in
    let shown = assign_ticket_ranges (ticket_start + tickets) rows in
    if not row.is_drop_out || leb row.chance 0 then skipped else range ∷ shown

-- `ticketRanges[ticketRanges.length - 1].end`
abbrev pub total_tickets : List TicketRange → ℕ
total_tickets [] = 0
total_tickets (r ∷ []) = r.end
total_tickets (r ∷ s ∷ ranges) = total_tickets (s ∷ ranges)

abbrev pub find_range : ℕ → List TicketRange → Option SkinCase
find_range ticket [] = none
find_range ticket (r ∷ ranges) =
    if leb r.start ticket && leb ticket r.end then some r.skin_case else find_range ticket ranges

-- `generateRandomNumber`, which is the number over this one
abbrev pub random_scale : ℕ
random_scale = 4294967295

-- `selectWinner`, with the product as an exact fraction: the doubles of the source give the same ticket
-- of 100000 tickets, and for some other totals, such as 150, now and then the ticket below it.
unfoldable pub select_winner : List TicketRange → ℕ → Result CaseError SkinCase
select_winner ranges random =
    or_throw (find_range (random * total_tickets ranges / random_scale + 1) ranges) no_winner

-- The columns of `cases` that openCase uses
pub record CaseEntity : Type 0 where
  pub game_type : GameType
  pub case_price : ℕ
  pub remaining_count : ℕ
  pub is_limited : Bool
  pub is_available : Bool

pub record CasesDb : Type 0 where
  pub inventory : InventoryDb
  pub cases : Table CaseEntity
  pub skin_cases : List SkinCase

abbrev pub available : Option CaseEntity → Option CaseEntity
available none = none
available (some row) = if row.is_available then some row else none

abbrev pub has_skin : Option (ℕ × Skin) → Bool
has_skin none = false
has_skin (some _) = true

-- `getAvailableSkins`
unfoldable pub get_available_skins : ℕ → CasesDb → List SkinCase
get_available_skins case_id db =
    sort_skin_cases_for_lottery (
      keep (λ row. (row.case_id == case_id) && (row.is_drop_out && has_skin row.skin))
        db.skin_cases)

-- `reserveLimitedCopies`, which updates no row if there are too few copies
abbrev pub reserve_limited_copies : ℕ → ℕ → CaseEntity → CasesDb → Result CaseError CasesDb
reserve_limited_copies case_id count row db =
    throw_if (ltb row.remaining_count count) no_copies
    >> ok (record db {
      cases =
          save_row case_id (record row { remaining_count = row.remaining_count - count }) db.cases;
    })

-- A limited case reserves its copies; any other does nothing.
abbrev pub reserve : Bool → ℕ → ℕ → CaseEntity → CasesDb → Result CaseError CasesDb
reserve true case_id count row db = reserve_limited_copies case_id count row db
reserve false case_id count row db = ok db

abbrev pub vip_item : SkinCase → CaseVipItem
vip_item row = record {
  chance = some (Amount.at_least_zero (row.chance * 100));
  market_price = some (Amount.at_least_zero (price_of_case_skin row.skin));
}

abbrev pub vip_items : List SkinCase → List CaseVipItem
vip_items [] = []
vip_items (row ∷ rows) = vip_item row ∷ vip_items rows

abbrev pub case_earning : ℕ → ℕ → List SkinCase → VipEarning
case_earning case_price paid_cost rows =
    calculate_vip_earning LedgerSource.case_open (Amount.at_least_zero paid_cost)
      (estimate_case_house_edge_bps (Amount.at_least_zero case_price) (vip_items rows))
      case_product_xp_rate_bps

-- `validateAndDeductBalance` of users.service.ts
unfoldable pub validate_and_deduct_balance : ℕ → ℕ → VipEarning → ℕ → VipDb → Result CaseError VipDb
validate_and_deduct_balance uid amount earning now vip = do
  user ← or_throw (find_row uid vip.users) user_not_found
  throw_if (ltb user.balance amount) insufficient_balance
  let user' : VipUser = record user { balance = user.balance - amount }
  let (saved, vip') = record_earning uid user' earning now vip
  ok (record vip' { users = save_row uid saved vip'.users })

-- The payment of an opening, unless it is free
abbrev pub pay_for_case : Bool → ℕ → ℕ → VipEarning → ℕ → CasesDb → Result CaseError CasesDb
pay_for_case true uid cost earning now db = ok db
pay_for_case false uid cost earning now db =
    validate_and_deduct_balance uid cost earning now db.inventory.vip >>= λ vip.
    ok (record db { inventory = record (db.inventory) { vip = vip } })

abbrev pub give_case_skin : ℕ → GameType → Option (ℕ × Skin) → ℕ → InventoryDb → InventoryDb
give_case_skin uid game_type none key db = db
give_case_skin uid game_type (some (skin_id, skin)) key db =
    (create_inventory uid skin_id skin game_type key db).1

-- One round of the loop of `openCase`, for a draw and the key of the new item
unfoldable pub draw_skin :
    ℕ → GameType → List SkinCase → ℕ × ℕ → InventoryDb → Result CaseError (SkinCase × InventoryDb)
unfolding prepare_ticket_ranges select_winner
draw_skin uid game_type rows (random, key) db = do
  ranges ← prepare_ticket_ranges 1 rows
  winner ← select_winner ranges random
  ok (winner, give_case_skin uid game_type winner.skin key db)

-- The loop: what it has won up to the error that ends it, if any
abbrev pub draw_skins :
    ℕ
    → GameType
    → List SkinCase
    → List (ℕ × ℕ)
    → InventoryDb
    → Result CaseError (List SkinCase) × InventoryDb
draw_skins uid game_type rows [] db = (ok [], db)
draw_skins uid game_type rows (draw ∷ draws) db = elim (draw_skin uid game_type rows draw db) [
  | err e ↦ (err e, db)
  | ok (winner, db') ↦
      let (rest, db'') = draw_skins uid game_type rows draws db' in
      (rest >>= λ winners. ok (winner ∷ winners), db'')
]

-- What is checked and paid before the loop: the case, the rows of its lottery and the database. An
-- error leaves the database as it was, the reserved copies restored.
unfoldable pub start_opening :
    ℕ → ℕ → ℕ → Bool → ℕ → CasesDb → Result CaseError (CaseEntity × List SkinCase × CasesDb)
unfolding get_available_skins
start_opening case_id uid count free now db = do
  row ← or_throw (available (find_row case_id db.cases)) not_found
  throw_if (ltb count 1 || ltb 5 count) invalid_count
  let rows = get_available_skins case_id db
  throw_if (leb (length rows) 0) no_skins
  let cost = row.case_price * count
  reserved ← reserve row.is_limited case_id count row db
  paid ← pay_for_case free uid cost (case_earning row.case_price cost rows) now reserved
  ok (row, rows, paid)

-- `openCase`, for as many draws as the count says; the database is that after the call, also after an
-- error.
unfoldable pub open_case :
    ℕ → ℕ → List (ℕ × ℕ) → Bool → ℕ → CasesDb → Result CaseError (List SkinCase) × CasesDb
unfolding start_opening
open_case case_id uid draws free now db =
    elim (start_opening case_id uid (length draws) free now db) [
      | err e ↦ (err e, db)
      | ok (row, rows, paid) ↦
          let (winners, inventory) = draw_skins uid row.game_type rows draws paid.inventory in
          (winners, record paid { inventory = inventory })
    ]
