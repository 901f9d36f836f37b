-- ===== src/Inventory/Wealth.antt =====
-- A sale trades an item for its price, and never an item that is withdrawn.
use rabbit_backend.Prelude.{
  ℕ, ◌+◌, ◌≡◌, refl, false, ◌&&◌, none, some, List, [], ◌∷◌, All, keep, includes, ◌==◌,
  if◌then◌else◌, ok, Bool-cases, Option-cases, Result-cases, inl, inr, arith,
}
use rabbit_backend.Prelude.Table.{Table, find_row, save_row, total, total-save_row_over}
use rabbit_backend.Prelude.Rows.{
  save_rows, Distinct, keep-Known, total-save_rows, save_row-All, save_row-Distinct,
  save_rows-Distinct,
}
use rabbit_backend.Vip.Store.{VipUser, VipDb}
use rabbit_backend.Vip.Store.Balances.{balance_of}
use rabbit_backend.Withdraw.{Item}
use rabbit_backend.Inventory.{
  InventoryDb, SellResult, credited, sold, check_sellable, sell_skin, price_of, find_in,
  check_all_sellable, mark_sold, sell_selected_skins, is_sellable, sell_all_read, sell_all_write,
  sell_all_skins,
}

-- What the user can still sell the item for
abbrev pub value_of : Item → ℕ
value_of item = if item.is_sold then 0 else item.market_price

-- The balances, and the items that are not sold
abbrev pub wealth : InventoryDb → ℕ
wealth db = total balance_of db.vip.users + total value_of db.skins.items

-- Not both sold and withdrawn
abbrev pub Apart : Item → Type 0
Apart item = (item.is_sold && item.is_withdrawn) ≡ false

abbrev pub AllApart : Table Item → Type 0
AllApart items = All (λ row. Apart row.1) items

abbrev pub IsValid : InventoryDb → Type 0
IsValid db = AllApart db.skins.items × Distinct db.skins.items

-- What each call keeps
abbrev pub Keeps : InventoryDb → InventoryDb → Type 0
Keeps db after = (wealth after ≡ wealth db) × IsValid after

check_sellable-Apart :
    (uid : ℕ) (item : Item)
    → check_sellable uid item ≡ ok tt
    → (item.is_sold ≡ false) × (item.is_withdrawn ≡ false)
check_sellable-Apart uid item h = (ground arith, ground arith)

-- The user whom a sale credits has more by the price.
pub credited_balances :
    (uid price : ℕ) (user : VipUser) (vip : VipDb)
    → find_row uid vip.users ≡ some user
    → total balance_of (credited uid user price vip).users ≡ total balance_of vip.users + price
credited_balances uid price user vip row =
    let paid : VipUser = record user { balance = user.balance + price } in
    let traded = total-save_row_over balance_of uid paid user vip.users row in omega arith

sell_one :
    (id uid : ℕ) (user : VipUser) (item : Item) (db after : InventoryDb)
    → find_row uid db.vip.users ≡ some user
    → find_row id db.skins.items ≡ some item
    → check_sellable uid item ≡ ok tt
    → after.vip ≡ credited uid user item.market_price db.vip
    → after.skins.items ≡ save_row id (sold item) db.skins.items
    → IsValid db
    → Keeps db after
sell_one id uid user item db after row found sellable vip items (apart, distinct) =
    let (kept, here) = check_sellable-Apart uid item sellable in
    let paid = credited_balances uid item.market_price user db.vip row in
    let traded = total-save_row_over value_of id (sold item) item db.skins.items found in
    let worth : value_of item ≡ item.market_price = rw kept refl in
    let still : Apart (sold item) = rw here refl in
    (
      rw (vip, items) (omega arith),
      rw items (
        save_row-All Apart id (sold item) db.skins.items still apart,
        save_row-Distinct id (sold item) db.skins.items distinct,
      ),
    )

pub sell_skin-Keeps :
    (id uid : ℕ) (s : Item) (db after : InventoryDb)
    → sell_skin id uid db ≡ ok (s, after)
    → IsValid db
    → Keeps db after
unfolding sell_skin
sell_skin-Keeps id uid s db after h valid = elim (Option-cases (find_row uid db.vip.users)) [
  | inl missing ↦ absurd (ground arith)
  | inr (user, row) ↦ elim (Option-cases (find_row id db.skins.items)) [
    | inl missing ↦ absurd (ground arith)
    | inr (item, found) ↦
        sell_one id uid user item db after row found (ground arith) (ground arith) (ground arith)
          valid
  ]
]

mark_sold-total :
    (uid : ℕ) (ids : List ℕ) (items : Table Item)
    → check_all_sellable uid (find_in ids items) ≡ ok tt
    → total value_of (mark_sold ids items) + total price_of (find_in ids items)
      ≡ total value_of items
unfolding total
mark_sold-total uid ids [] h = refl
mark_sold-total uid ids ((id, item) ∷ items) h = elim (Bool-cases (includes ids id)) [
  | inr other ↦ let rest = mark_sold-total uid ids items (rw other at h) in rw other (omega arith)
  | inl named ↦ elim (Result-cases (check_sellable uid item)) [
    | inl (e, fails) ↦ absurd (ground arith)
    | inr (_, sellable) ↦
        let rest = mark_sold-total uid ids items (ground arith) in
        let (kept, here) = check_sellable-Apart uid item sellable in rw (named, kept) (omega arith)
  ]
]

mark_sold-AllApart :
    (uid : ℕ) (ids : List ℕ) (items : Table Item)
    → check_all_sellable uid (find_in ids items) ≡ ok tt
    → AllApart items
    → AllApart (mark_sold ids items)
mark_sold-AllApart uid ids [] h all = tt
mark_sold-AllApart uid ids ((id, item) ∷ items) h (apart, all) =
    elim (Bool-cases (includes ids id)) [
      | inr other ↦ rw other (apart, mark_sold-AllApart uid ids items (rw other at h) all)
      | inl named ↦ elim (Result-cases (check_sellable uid item)) [
        | inl (e, fails) ↦ absurd (ground arith)
        | inr (_, sellable) ↦
            let (_, here) = check_sellable-Apart uid item sellable in
            let still : Apart (sold item) = rw here refl in
            rw named (still, mark_sold-AllApart uid ids items (ground arith) all)
      ]
    ]

find_row-mark_sold :
    (k : ℕ) (ids : List ℕ) (items : Table Item)
    → find_row k items ≡ none
    → find_row k (mark_sold ids items) ≡ none
find_row-mark_sold k ids [] h = refl
find_row-mark_sold k ids ((id, item) ∷ items) h = elim (Bool-cases (k == id)) [
  | inl same ↦ absurd (ground arith)
  | inr other ↦ rw other (find_row-mark_sold k ids items (rw other at h))
]

mark_sold-Distinct :
    (ids : List ℕ) (items : Table Item) → Distinct items → Distinct (mark_sold ids items)
mark_sold-Distinct ids [] distinct = tt
mark_sold-Distinct ids ((id, item) ∷ items) (fresh, distinct) =
    (find_row-mark_sold id ids items fresh, mark_sold-Distinct ids items distinct)

sell_named :
    (ids : List ℕ) (uid : ℕ) (user : VipUser) (db after : InventoryDb)
    → find_row uid db.vip.users ≡ some user
    → check_all_sellable uid (find_in ids db.skins.items) ≡ ok tt
    → after.vip ≡ credited uid user (total price_of (find_in ids db.skins.items)) db.vip
    → after.skins.items ≡ mark_sold ids db.skins.items
    → IsValid db
    → Keeps db after
sell_named ids uid user db after row sellable vip items (apart, distinct) =
    let price = total price_of (find_in ids db.skins.items) in
    let paid = credited_balances uid price user db.vip row in
    let traded = mark_sold-total uid ids db.skins.items sellable in
    (
      rw (vip, items) (omega arith),
      rw items (
        mark_sold-AllApart uid ids db.skins.items sellable apart,
        mark_sold-Distinct ids db.skins.items distinct,
      ),
    )

pub sell_selected_skins-Keeps :
    (ids : List ℕ) (uid : ℕ) (s : SellResult) (db after : InventoryDb)
    → sell_selected_skins ids uid db ≡ ok (s, after)
    → IsValid db
    → Keeps db after
unfolding sell_selected_skins
sell_selected_skins-Keeps ids uid s db after h valid =
    elim (Option-cases (find_row uid db.vip.users)) [
      | inl missing ↦ absurd (ground arith)
      | inr (user, row) ↦
          sell_named ids uid user db after row (ground arith) (ground arith) (ground arith) valid
    ]

-- What sellAllSkins finds is worth its prices, and nothing when it is sold.
unsold-total :
    (uid : ℕ) (items : Table Item)
    → let unsold = keep (λ row. is_sellable uid row.1) items in
      (total value_of unsold ≡ total price_of unsold)
      × (total (λ item. value_of (sold item)) unsold ≡ 0)
      × All (λ row. Apart (sold row.1)) unsold
unfolding total
unsold-total uid [] = (refl, refl, tt)
unsold-total uid ((id, item) ∷ items) =
    let (value, nothing, apart) = unsold-total uid items in
    elim (Bool-cases (is_sellable uid item)) [
      | inr other ↦ rw other (value, nothing, apart)
      | inl sellable ↦
          let kept : item.is_sold ≡ false = ground arith in
          let here : item.is_withdrawn ≡ false = ground arith in
          rw sellable (rw kept (omega arith), omega arith, (rw here refl, apart))
    ]

save_rows-AllApart :
    (rows items : Table Item)
    → All (λ row. Apart (sold row.1)) rows
    → AllApart items
    → AllApart (save_rows sold rows items)
save_rows-AllApart [] items apart all = all
save_rows-AllApart ((id, item) ∷ rows) items (first, apart) all =
    save_row-All Apart id (sold item) (save_rows sold rows items) first
      (save_rows-AllApart rows items apart all)

pub sell_all_skins-Keeps :
    (uid : ℕ) (s : SellResult) (db after : InventoryDb)
    → sell_all_skins uid db ≡ ok (s, after)
    → IsValid db
    → Keeps db after
unfolding sell_all_skins sell_all_read sell_all_write
sell_all_skins-Keeps uid s db after h (apart, distinct) =
    elim (Option-cases (find_row uid db.vip.users)) [
      | inl missing ↦ absurd (ground arith)
      | inr (user, row) ↦
          let unsold = keep (λ row. is_sellable uid row.1) db.skins.items in
          let paid = credited_balances uid (total price_of unsold) user db.vip row in
          let (value, nothing, later) = unsold-total uid db.skins.items in
          let known = keep-Known (λ row. is_sellable uid row.1) db.skins.items distinct in
          let traded = total-save_rows value_of sold unsold db.skins.items known in
          let vip : after.vip ≡ credited uid user (total price_of unsold) db.vip = ground arith in
          let items : after.skins.items ≡ save_rows sold unsold db.skins.items = ground arith in
          (
            rw (vip, items) (omega arith),
            rw items (
              save_rows-AllApart unsold db.skins.items later apart,
              save_rows-Distinct sold unsold db.skins.items distinct,
            ),
          )
    ]
