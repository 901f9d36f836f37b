-- ===== src/Inventory/Withdrawn.antt =====
-- The withdrawal of skins leaves the prices and the sold items alone, and locks no sold item.
use mathlib.Core.Path.{subst}
use rabbit_backend.Prelude.{
  ℕ, ◌≡◌, refl, true, false, not, ◌||◌, Option, none, some, List, [], ◌∷◌, leb, ◌==◌, ok, ◌⊎◌,
  Bool-cases, inl, inr, arith,
}
use rabbit_backend.Prelude.Table.{Table, find_row, total, total-save_row_over}
use rabbit_backend.Prelude.Rows.{
  Distinct, Known, total-save_rows, save_row-All, save_row-Distinct, save_rows-Distinct,
}
use rabbit_backend.Prelude.Texts.{Text, is_filled}
use rabbit_backend.Withdraw.{
  Item, Withdrawal, WithdrawalStatus, pending, purchasing, delivering, completed, failed,
  WithdrawDb, TradeUrl, ParsedUrl, BuyResult, network_error, rejected, accepted, request_withdrawal,
  lock_rows, unlocked, unlock_row, mark_failed_and_refund, finish_one, try_withdraw_one, TmOrder,
  derive_withdrawal_status, same_status, move_to, advance_one,
}
use rabbit_backend.Withdraw.Locks.{count_rows, Free, Batched, request_withdrawal-Batched}
use rabbit_backend.Inventory.Wealth.{value_of, Apart, AllApart}

-- What the items keep through a withdrawal
abbrev pub KeepsItems : Table Item → Table Item → Type 0
KeepsItems items after =
    (total value_of after ≡ total value_of items) × AllApart after × Distinct after

abbrev locked_item : ℕ → Item → Item
locked_item now item = record item { is_withdrawn = true; withdrawn_at = some now }

count_rows-find_row :
    (id : ℕ) (rows : List (ℕ × Item)) → count_rows id rows ≡ 0 → find_row id rows ≡ none
count_rows-find_row id [] h = refl
count_rows-find_row id ((j, item) ∷ rows) h = elim (Bool-cases (j == id)) [
  | inl same ↦ absurd (let counted = rw same at h in omega arith)
  | inr other ↦
      let differ : (id == j) ≡ false = ground arith in
      rw differ (count_rows-find_row id rows (let counted = rw other at h in omega arith))
]

Free-Known : (items rows : Table Item) → Free items rows → Known items rows
unfolding Free
Free-Known items [] free = tt
Free-Known items ((id, item) ∷ rows) (row, kept, here, once, free) =
    (row, count_rows-find_row id rows once, Free-Known items rows free)

lock_rows-AllApart :
    (now : ℕ) (rows items : Table Item)
    → Free items rows
    → AllApart items
    → AllApart (lock_rows now rows items)
unfolding Free
lock_rows-AllApart now [] items free all = all
lock_rows-AllApart now ((id, item) ∷ rows) items (row, kept, here, once, free) all =
    let still : Apart (locked_item now item) = rw kept refl in
    save_row-All Apart id (locked_item now item) (lock_rows now rows items) still
      (lock_rows-AllApart now rows items free all)

lock_rows-KeepsItems :
    (now : ℕ) (rows items : Table Item)
    → Free items rows
    → AllApart items
    → Distinct items
    → KeepsItems items (lock_rows now rows items)
lock_rows-KeepsItems now rows items free apart distinct =
    let traded =
      total-save_rows value_of (locked_item now) rows items (Free-Known items rows free) in
    (
      omega arith,
      lock_rows-AllApart now rows items free apart,
      save_rows-Distinct (locked_item now) rows items distinct,
    )

-- A batch that is accepted
pub request_withdrawal-KeepsItems :
    (new_url : Text → Option ParsedUrl) (uid : ℕ) (ids : List ℕ) (raw : Text) (now : ℕ)
    (rows : List (ℕ × Item)) (trade_url : TradeUrl) (db after : WithdrawDb)
    → request_withdrawal new_url uid ids raw now db ≡ ok (rows, trade_url, after)
    → AllApart db.items
    → Distinct db.items
    → KeepsItems db.items after.items
unfolding Batched
request_withdrawal-KeepsItems new_url uid ids raw now rows trade_url db after h apart distinct =
    let (free, items, _) : Batched now db (ok (rows, trade_url, after)) =
      subst (Batched now db) h (request_withdrawal-Batched new_url uid ids raw now db) in
    rw items (lock_rows-KeepsItems now rows db.items free apart distinct)

unlock_row-KeepsItems :
    (id : ℕ) (items : Table Item) (o : Option Item)
    → find_row id items ≡ o
    → AllApart items
    → Distinct items
    → KeepsItems items (unlock_row id o items)
unlock_row-KeepsItems id items none e apart distinct = (refl, apart, distinct)
unlock_row-KeepsItems id items (some item) e apart distinct =
    let traded = total-save_row_over value_of id (unlocked item) item items e in
    let free : Apart (unlocked item) = ground arith in
    (
      omega arith,
      save_row-All Apart id (unlocked item) items free apart,
      save_row-Distinct id (unlocked item) items distinct,
    )

-- What becomes of the items: nothing, or a refund
abbrev pub Refunds : Table Item → Table Item → Type 0
Refunds items after =
    (after ≡ items) ⊎ ((id : ℕ) × (after ≡ unlock_row id (find_row id items) items))

pub Refunds-KeepsItems :
    (items after : Table Item)
    → Refunds items after
    → AllApart items
    → Distinct items
    → KeepsItems items after
Refunds-KeepsItems items after (inl same) apart distinct = rw same (refl, apart, distinct)
Refunds-KeepsItems items after (inr (id, e)) apart distinct =
    rw e (unlock_row-KeepsItems id items (find_row id items) refl apart distinct)

finish_one-Refunds :
    (id : ℕ) (item : Item) (url : TradeUrl) (custom_id : Text) (key now : ℕ) (db : WithdrawDb)
    (answer : BuyResult)
    → Refunds db.items (finish_one id item url custom_id key now db answer).items
unfolding mark_failed_and_refund
finish_one-Refunds id item url custom_id key now db network_error = inr (id, refl)
finish_one-Refunds id item url custom_id key now db (rejected code error) = inr (id, refl)
finish_one-Refunds id item url custom_id key now db (accepted order) = inl refl

pub try_withdraw_one-Refunds :
    (id : ℕ) (item : Item) (url : TradeUrl) (custom_id : Text) (answer : BuyResult) (key now : ℕ)
    (db : WithdrawDb)
    → Refunds db.items (try_withdraw_one id item url custom_id answer key now db).items
unfolding try_withdraw_one mark_failed_and_refund
try_withdraw_one-Refunds id item url custom_id answer key now db =
    elim (Bool-cases (not (is_filled item.market_hash_name) || leb item.price 0)) [
      | inl no_price ↦ rw no_price (inr (id, refl))
      | inr priced ↦ rw priced (finish_one-Refunds id item url custom_id key now db answer)
    ]

move_to-Refunds :
    (key : ℕ) (w : Withdrawal) (order : TmOrder) (now : ℕ) (db : WithdrawDb)
    (status : WithdrawalStatus)
    → Refunds db.items (move_to key w order now db status).items
move_to-Refunds key w order now db completed = inl refl
move_to-Refunds key w order now db failed = inr (w.inventory_item_id, refl)
move_to-Refunds key w order now db pending = inl refl
move_to-Refunds key w order now db purchasing = inl refl
move_to-Refunds key w order now db delivering = inl refl

pub advance_one-Refunds :
    (key : ℕ) (w : Withdrawal) (order : Option TmOrder) (now : ℕ) (db : WithdrawDb)
    → Refunds db.items (advance_one key w order now db).items
unfolding advance_one
advance_one-Refunds key w none now db = inl refl
advance_one-Refunds key w (some order) now db =
    let status = derive_withdrawal_status order in
    elim (Bool-cases (same_status status w.status)) [
      | inl same ↦ rw (advance_one, same) (inl refl)
      | inr other ↦ rw (advance_one, other) (move_to-Refunds key w order now db status)
    ]
