-- ===== src/Inventory/Once.antt =====
-- An item is sold once, whichever of the three ways of selling comes later.
use rabbit_backend.Prelude.{
  ℕ, ◌≡◌, refl, true, false, ◌||◌, none, some, List, [], ◌∷◌, includes, keep, length, leb, ◌==◌,
  Result, ok, err, Bool-cases, Option-cases, Result-cases, inl, inr, arith,
}
use rabbit_backend.Prelude.Table.{Table, find_row, save_row, find_row-save_row_self}
use rabbit_backend.Prelude.Rows.{Distinct, find_row-keep, save_row-Distinct}
use rabbit_backend.Vip.Store.{VipUser}
use rabbit_backend.Withdraw.{Item}
use rabbit_backend.Inventory.{
  InventoryDb, SellError, sold, check_sellable, sell_skin, find_in, check_all_sellable,
  sell_selected_skins, is_sellable, sell_all_read,
}

abbrev pub Refused : {A : Type 0} → Result SellError A → Type 0
Refused r = (e : SellError) × (r ≡ err e)

-- What sellAllSkins is going to sell does not have the item.
abbrev pub LeavesOut : ℕ → Result SellError (VipUser × Table Item) → Type 0
LeavesOut id (err _) = Unit
LeavesOut id (ok (_, rows)) = find_row id rows ≡ none

check_sellable_sold :
    (uid : ℕ) (item : Item) → item.is_sold ≡ true → Refused (check_sellable uid item)
check_sellable_sold uid item h = elim (Bool-cases (item.user_id == uid)) [
  | inl mine ↦ rw (mine, h) (SellError.already_sold, refl)
  | inr other ↦ rw other (SellError.not_owner, refl)
]

check_all_sellable_sold :
    (uid id : ℕ) (ids : List ℕ) (item : Item) (items : Table Item)
    → find_row id items ≡ some item
    → item.is_sold ≡ true
    → includes ids id ≡ true
    → Refused (check_all_sellable uid (find_in ids items))
check_all_sellable_sold uid id ids item [] found gone named = absurd (ground arith)
check_all_sellable_sold uid id ids item ((j, first) ∷ items) found gone named =
    elim (Bool-cases (id == j)) [
      | inl same ↦
          let here : includes ids j ≡ true = ground arith in
          let is_first : first.is_sold ≡ true = ground arith in
          let (e, refused) = check_sellable_sold uid first is_first in rw (here, refused) (e, refl)
      | inr other ↦
          let (e, later) =
            check_all_sellable_sold uid id ids item items (rw other at found) gone named in
          elim (Bool-cases (includes ids j)) [
            | inr skip ↦ rw skip (e, later)
            | inl also ↦ elim (Result-cases (check_sellable uid first)) [
              | inl (e', refused) ↦ rw (also, refused) (e', refl)
              | inr (_, sellable) ↦ rw (also, sellable) (e, later)
            ]
          ]
    ]

keep_sold :
    (uid id : ℕ) (item : Item) (items : Table Item)
    → Distinct items
    → find_row id items ≡ some item
    → item.is_sold ≡ true
    → find_row id (keep (λ row. is_sellable uid row.1) items) ≡ none
keep_sold uid id item [] distinct found gone = refl
keep_sold uid id item ((j, first) ∷ items) (fresh, distinct) found gone =
    elim (Bool-cases (id == j)) [
      | inl same ↦
          let is_first : first.is_sold ≡ true = ground arith in
          let not_offered : is_sellable uid first ≡ false = ground arith in
          let later : find_row id items ≡ none = ground arith in
          rw not_offered (find_row-keep (λ row. is_sellable uid row.1) id items later)
      | inr other ↦
          let later = keep_sold uid id item items distinct (rw other at found) gone in
          elim (Bool-cases (is_sellable uid first)) [
            | inl offered ↦ rw (offered, other) later
            | inr skipped ↦ rw skipped later
          ]
    ]

sell_skin_row :
    (id uid : ℕ) (s : Item) (db after : InventoryDb)
    → sell_skin id uid db ≡ ok (s, after)
    → (find_row id after.skins.items ≡ some s)
      × (s.is_sold ≡ true)
      × (after.skins.items ≡ save_row id s db.skins.items)
unfolding sell_skin
sell_skin_row id uid s db after h = elim (Option-cases (find_row uid db.vip.users)) [
  | inl missing ↦ absurd (ground arith)
  | inr (user, row) ↦ elim (Option-cases (find_row id db.skins.items)) [
    | inl missing ↦ absurd (ground arith)
    | inr (item, found) ↦
        let items : after.skins.items ≡ save_row id (sold item) db.skins.items = ground arith in
        let this : sold item ≡ s = ground arith in
        (
          rw (items, this) (find_row-save_row_self id s db.skins.items),
          ground arith,
          rw (items, this) refl,
        )
  ]
]

sell_skin_sold :
    (id uid : ℕ) (item : Item) (db : InventoryDb)
    → find_row id db.skins.items ≡ some item
    → item.is_sold ≡ true
    → Refused (sell_skin id uid db)
unfolding sell_skin
sell_skin_sold id uid item db found gone = elim (Bool-cases ((id == 0) || (uid == 0))) [
  | inl zero ↦ rw zero (SellError.ids_required, refl)
  | inr named ↦ elim (Option-cases (find_row uid db.vip.users)) [
    | inl missing ↦ rw (named, missing) (SellError.user_not_found, refl)
    | inr (user, row) ↦
        let (e, refused) = check_sellable_sold uid item gone in
        rw (named, row, found, refused) (e, refl)
  ]
]

sell_selected_skins_sold :
    (id uid : ℕ) (ids : List ℕ) (item : Item) (db : InventoryDb)
    → find_row id db.skins.items ≡ some item
    → item.is_sold ≡ true
    → includes ids id ≡ true
    → Refused (sell_selected_skins ids uid db)
unfolding sell_selected_skins
sell_selected_skins_sold id uid ids item db found gone named =
    let rows = find_in ids db.skins.items in
    elim (Bool-cases (leb (length ids) 0)) [
      | inl none_named ↦ rw none_named (SellError.ids_required, refl)
      | inr some_ids ↦ elim (Bool-cases (uid == 0)) [
        | inl zero ↦ rw (some_ids, zero) (SellError.user_required, refl)
        | inr known ↦ elim (Option-cases (find_row uid db.vip.users)) [
          | inl missing ↦ rw (some_ids, known, missing) (SellError.user_not_found, refl)
          | inr (user, row) ↦ elim (Bool-cases (leb (length rows) 0)) [
            | inl no_rows ↦ rw (some_ids, known, row, no_rows) (SellError.no_items, refl)
            | inr some_rows ↦
                let (e, refused) =
                  check_all_sellable_sold uid id ids item db.skins.items found gone named in
                rw (some_ids, known, row, some_rows, refused) (e, refl)
          ]
        ]
      ]
    ]

sell_all_read_sold :
    (id uid : ℕ) (item : Item) (db : InventoryDb)
    → Distinct db.skins.items
    → find_row id db.skins.items ≡ some item
    → item.is_sold ≡ true
    → LeavesOut id (sell_all_read uid db)
unfolding sell_all_read
sell_all_read_sold id uid item db distinct found gone =
    let rows = keep (λ row. is_sellable uid row.1) db.skins.items in
    elim (Bool-cases (uid == 0)) [
      | inl zero ↦ rw (zero, LeavesOut) tt
      | inr known ↦ elim (Option-cases (find_row uid db.vip.users)) [
        | inl missing ↦ rw (known, missing, LeavesOut) tt
        | inr (user, row) ↦ elim (Bool-cases (leb (length rows) 0)) [
          | inl no_rows ↦ rw (known, row, no_rows, LeavesOut) tt
          | inr some_rows ↦
              rw (known, row, some_rows, LeavesOut)
                (keep_sold uid id item db.skins.items distinct found gone)
        ]
      ]
    ]

-- An item that has just been sold, in a table without two rows of the same key: every user's sale of
-- it is refused, and so is every sale of selected items that names it, whatever else it names; and a
-- sale of all items leaves it out.
pub sold_once :
    (id uid uid' : ℕ) (ids : List ℕ) (s : Item) (db after : InventoryDb)
    → Distinct db.skins.items
    → sell_skin id uid db ≡ ok (s, after)
    → includes ids id ≡ true
    → Refused (sell_skin id uid' after)
      × Refused (sell_selected_skins ids uid' after)
      × LeavesOut id (sell_all_read uid' after)
sold_once id uid uid' ids s db after distinct h named =
    let (found, gone, items) = sell_skin_row id uid s db after h in
    let distinct' : Distinct after.skins.items =
      rw items (save_row-Distinct id s db.skins.items distinct) in
    (
      sell_skin_sold id uid' s after found gone,
      sell_selected_skins_sold id uid' ids s after found gone named,
      sell_all_read_sold id uid' s after distinct' found gone,
    )
