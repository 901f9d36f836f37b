-- ===== src/Withdraw/Locks.antt =====
-- An item is locked exactly while a withdrawal of it is under way or done.
use mathlib.Core.Path.{subst}
use rabbit_backend.Prelude.{
  ℕ, ◌+◌, ◌≤◌, ◌≡◌, refl, ap, ◌∙◌, sym, Bool, true, false, Option, none, some, List, [], ◌∷◌, leb,
  length, includes, ◌==◌, ==_refl, ==→eq, if◌then◌else◌, Result, ok, err, ◌>>=◌, ◌>>◌, throw_if,
  or_throw, Bool-cases, Option-cases, Result-cases, ltb, inl, inr, arith,
}
use rabbit_backend.Prelude.Table.{Table, find_row, save_row, find_row-save_row, total}
use rabbit_backend.Prelude.Texts.{Text}
use rabbit_backend.Withdraw.{
  Item, Withdrawal, WithdrawalStatus, failed, WithdrawDb, TradeUrl, ParsedUrl, WithdrawError,
  items_not_found, parse_trade_url, check_one_game, find_items, owned_item, check_free, lock_rows,
  request_withdrawal,
}

abbrev pub row_lock : Option Item → ℕ
row_lock none = 0
row_lock (some item) = if item.is_withdrawn then 1 else 0

-- 1 if the item is locked, or else 0
abbrev pub locked : ℕ → Table Item → ℕ
locked id items = row_lock (find_row id items)

abbrev pub is_failed : WithdrawalStatus → Bool
is_failed failed = true
is_failed _ = false

-- A withdrawal of the item that has not failed
abbrev pub live_one : ℕ → Withdrawal → ℕ
live_one id w = if is_failed w.status then 0 else (if w.inventory_item_id == id then 1 else 0)

abbrev pub live : ℕ → Table Withdrawal → ℕ
live id withdrawals = total (live_one id) withdrawals

-- How often a request is about to buy an item that its batch has locked
abbrev pub Hands : Type 0
Hands = ℕ → ℕ

abbrev pub count_rows : ℕ → List (ℕ × Item) → ℕ
count_rows id [] = 0
count_rows id ((j, _) ∷ rows) = (if j == id then 1 else 0) + count_rows id rows

unfoldable pub Sound : WithdrawDb → Hands → Type 0
Sound db hands = (id : ℕ) → locked id db.items ≡ live id db.withdrawals + hands id

pub locked-save_row :
    (j id : ℕ) (item : Item) (items : Table Item)
    → locked j (save_row id item items) ≡ (if id == j then row_lock (some item) else locked j items)
locked-save_row j id item items = elim (find_row-save_row j id item items) [
  | inl (same, hit) ↦ let key : (id == j) ≡ true = ground (arith, ==_refl j) in rw (key, hit) refl
  | inr (other, kept) ↦ let key : (id == j) ≡ false = ground arith in rw (key, kept) refl
]

pub lock_le : (o : Option Item) → row_lock o ≤ 1
lock_le none = omega arith
lock_le (some item) = ground arith

-- The rows of a batch: those of the table, free, and each once
unfoldable pub Free : Table Item → List (ℕ × Item) → Type 0
Free items [] = Unit
Free items ((id, item) ∷ rows) =
    (find_row id items ≡ some item)
    × (item.is_sold ≡ false)
    × (item.is_withdrawn ≡ false)
    × (count_rows id rows ≡ 0)
    × Free items rows

pub locked-lock_rows :
    (j now : ℕ) (rows : List (ℕ × Item)) (items : Table Item)
    → Free items rows
    → locked j (lock_rows now rows items) ≡ locked j items + count_rows j rows
unfolding Free
locked-lock_rows j now [] items free = omega arith
locked-lock_rows j now ((id, item) ∷ rows) items (row, kept, open_item, once, free) =
    let rest = locked-lock_rows j now rows items free in
    let saved =
      locked-save_row j id (record item { is_withdrawn = true; withdrawn_at = some now })
        (lock_rows now rows items) in
    elim (Bool-cases (id == j)) [
      | inl same ↦
          let key = ==→eq id j same in
          let before : locked j items ≡ 0 =
            ap (λ i. locked i items) (sym key) ∙ ap row_lock row ∙ rw open_item refl in
          let later : count_rows j rows ≡ 0 = ap (λ i. count_rows i rows) (sym key) ∙ once in
          saved ∙ rw same (omega arith)
      | inr other ↦ saved ∙ rw other (omega arith)
    ]

count_ids : ℕ → List ℕ → ℕ
count_ids j [] = 0
count_ids j (id ∷ ids) = (if id == j then 1 else 0) + count_ids j ids

includes_count : (id : ℕ) (ids : List ℕ) → includes ids id ≡ false → count_ids id ids ≡ 0
unfolding count_ids
includes_count id [] h = refl
includes_count id (j ∷ ids) h = ground (arith, includes_count id ids)

Known : Table Item → List (ℕ × Item) → Type 0
Known items [] = Unit
Known items ((id, item) ∷ rows) =
    (find_row id items ≡ some item) × (count_rows id rows ≡ 0) × Known items rows

-- What `find_items` finds
FoundRows : Table Item → List ℕ → Result WithdrawError (List (ℕ × Item)) → Type 0
FoundRows items ids (err _) = Unit
FoundRows items ids (ok rows) = Known items rows × ((j : ℕ) → count_rows j rows ≡ count_ids j ids)

owned_item-some :
    (uid : ℕ) (o : Option Item) (item : Item) → owned_item uid o ≡ some item → o ≡ some item
owned_item-some uid none item h = absurd (ground arith)
owned_item-some uid (some i) item h = ground arith

find_items-FoundRows :
    (uid : ℕ) (ids : List ℕ) (items : Table Item) → FoundRows items ids (find_items uid ids items)
unfolding FoundRows Known count_ids
find_items-FoundRows uid [] items = (tt, λ j. refl)
find_items-FoundRows uid (id ∷ ids) items =
    one_more (find_items uid ids items) (find_items-FoundRows uid ids items)
  where
    one_more :
        (r : Result WithdrawError (List (ℕ × Item)))
        → FoundRows items ids r
        → FoundRows items (id ∷ ids) (
            r >>= λ rows.
            throw_if (includes ids id) items_not_found
            >> (or_throw (owned_item uid (find_row id items)) items_not_found >>= λ item.
                ok ((id, item) ∷ rows)))
    one_more (err _) h = tt
    one_more (ok rows) (known, counted) = elim (Bool-cases (includes ids id)) [
      | inl twice ↦ rw (twice, FoundRows) tt
      | inr fresh ↦ elim (Option-cases (owned_item uid (find_row id items))) [
        | inl missing ↦ rw (fresh, missing, FoundRows) tt
        | inr (item, found) ↦
            let none_later = counted id ∙ includes_count id ids fresh in
            rw (fresh, found, FoundRows)
              (
                (owned_item-some uid (find_row id items) item found, none_later, known),
                λ j. let later = counted j in omega arith,
              )
      ]
    ]

check_free-Free :
    (items : Table Item) (rows : List (ℕ × Item))
    → Known items rows
    → check_free rows ≡ ok tt
    → Free items rows
unfolding Known Free
check_free-Free items [] known h = tt
check_free-Free items ((id, item) ∷ rows) (row, once, known) h = elim (Bool-cases item.is_sold) [
  | inl sold ↦ absurd (ground arith)
  | inr kept ↦ elim (Bool-cases item.is_withdrawn) [
    | inl gone ↦ absurd (ground arith)
    | inr open_item ↦ (row, kept, open_item, once, check_free-Free items rows known (ground arith))
  ]
]

-- What a batch does: it locks rows that were free, each once.
unfoldable pub Batched :
    ℕ → WithdrawDb → Result WithdrawError (List (ℕ × Item) × TradeUrl × WithdrawDb) → Type 0
Batched now db (err _) = Unit
Batched now db (ok (rows, _, after)) =
    Free db.items rows
    × (after.items ≡ lock_rows now rows db.items)
    × (after.withdrawals ≡ db.withdrawals)

pub request_withdrawal-Batched :
    (new_url : Text → Option ParsedUrl) (uid : ℕ) (ids : List ℕ) (trade_url_raw : Text) (now : ℕ)
    (db : WithdrawDb)
    → Batched now db (request_withdrawal new_url uid ids trade_url_raw now db)
unfolding request_withdrawal Batched FoundRows
request_withdrawal-Batched new_url uid ids trade_url_raw now db =
    elim (Bool-cases (leb (length ids) 0)) [
      | inl e ↦ rw (e, Batched) tt
      | inr some_ids ↦ elim (Bool-cases (ltb 50 (length ids))) [
        | inl e ↦ rw (some_ids, e, Batched) tt
        | inr few ↦ elim (Option-cases (parse_trade_url new_url trade_url_raw)) [
          | inl e ↦ rw (some_ids, few, e, Batched) tt
          | inr (url, parsed) ↦ elim (Result-cases (find_items uid ids db.items)) [
            | inl (_, e) ↦ rw (some_ids, few, parsed, e, Batched) tt
            | inr (rows, found) ↦ elim (Result-cases (check_free rows)) [
              | inl (_, e) ↦ rw (some_ids, few, parsed, found, e, Batched) tt
              | inr (_, free) ↦ elim (Result-cases (check_one_game rows)) [
                | inl (_, e) ↦ rw (some_ids, few, parsed, found, free, e, Batched) tt
                | inr (_, game) ↦
                    let known = found_rows (find_items-FoundRows uid ids db.items) found in
                    let batch = check_free-Free db.items rows known free in
                    rw (some_ids, few, parsed, found, free, game, Batched) (batch, refl, refl)
              ]
            ]
          ]
        ]
      ]
    ]
  where
    found_rows :
        {rows : List (ℕ × Item)} {r : Result WithdrawError (List (ℕ × Item))}
        → FoundRows db.items ids r
        → r ≡ ok rows
        → Known db.items rows
    found_rows h e = (subst (FoundRows db.items ids) e h).0
