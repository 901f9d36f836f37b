-- ===== src/Withdraw/Moves.antt =====
-- What each call of the withdrawals does to the locks and to the rows that a poll has read.
use mathlib.Core.Path.{subst}
use rabbit_backend.Prelude.{
  ℕ, ◌+◌, ◌-◌, ◌<◌, ◌≡◌, refl, ap, ◌∙◌, sym, true, false, not, ◌||◌, Option, none, some, List, leb,
  ◌==◌, ==→eq, if◌then◌else◌, ok, Bool-cases, inl, inr, arith,
}
use rabbit_backend.Prelude.Table.{
  Table, find_row, save_row, total-save_row_over, total-save_row_new,
}
use rabbit_backend.Prelude.Rows.{Known, Known-save_row}
use rabbit_backend.Prelude.Texts.{Text, codes, is_filled}
use rabbit_backend.Withdraw.{
  Item, Withdrawal, WithdrawalStatus, pending, purchasing, delivering, completed, failed,
  WithdrawDb, TradeUrl, BuyResult, network_error, rejected, accepted, resolve_buy_for_failure_key,
  unlocked, unlock_row, new_withdrawal, mark_failed_and_refund, finish_one, try_withdraw_one,
  or_trade_id, causer_reason, TmOrder, derive_withdrawal_status, same_status, move_to, advance_one,
  is_in_flight,
}
use rabbit_backend.Withdraw.Locks.{
  row_lock, locked, is_failed, live_one, live, Hands, count_rows, Sound, locked-save_row, lock_le,
  Batched, locked-lock_rows,
}

locked-unlock_row :
    (j id : ℕ) (o : Option Item) (items : Table Item)
    → find_row id items ≡ o
    → locked j (unlock_row id o items) ≡ (if id == j then 0 else locked j items)
locked-unlock_row j id none items e = elim (Bool-cases (id == j)) [
  | inl same ↦
      let missing : locked j items ≡ 0 =
        ap (λ i. locked i items) (sym (==→eq id j same)) ∙ ap row_lock e in
      rw same missing
  | inr other ↦ rw other refl
]
locked-unlock_row j id (some item) items e = locked-save_row j id (unlocked item) items

mark_failed_and_refund-Sound :
    (id key now : ℕ) (item : Item) (trade_url : TradeUrl) (custom_id reason : Text)
    (db : WithdrawDb) (hands : Hands)
    → Sound db hands
    → 0 < hands id
    → find_row key db.withdrawals ≡ none
    → Sound
        (mark_failed_and_refund id item trade_url custom_id reason key now db)
        (λ j. hands j - (if id == j then 1 else 0))
unfolding mark_failed_and_refund Sound
mark_failed_and_refund-Sound id key now item trade_url custom_id reason db hands sound held fresh
      j =
    let w : Withdrawal = record (new_withdrawal id item trade_url custom_id failed) {
      failure_reason = some reason;
      completed_at = some now;
    } in
    let added = total-save_row_new (live_one j) key w db.withdrawals fresh in
    let opened = locked-unlock_row j id (find_row id db.items) db.items refl in
    elim (Bool-cases (id == j)) [
      | inl same ↦
          let key_same = ==→eq id j same in
          let lone' : locked j db.items ≡ live j db.withdrawals + hands j = sound j in
          let most' = lock_le (find_row j db.items) in
          let held' : 0 < hands j = subst (λ i. 0 < hands i) key_same held in
          opened ∙ rw same (omega arith)
      | inr other ↦ opened ∙ rw other (omega arith)
    ]

finish_one-Sound :
    (id key now : ℕ) (item : Item) (trade_url : TradeUrl) (custom_id : Text) (answer : BuyResult)
    (db : WithdrawDb) (hands : Hands)
    → Sound db hands
    → 0 < hands id
    → find_row key db.withdrawals ≡ none
    → Sound
        (finish_one id item trade_url custom_id key now db answer)
        (λ j. hands j - (if id == j then 1 else 0))
unfolding Sound
finish_one-Sound id key now item trade_url custom_id network_error db hands sound held fresh j =
    mark_failed_and_refund-Sound id key now item trade_url custom_id (codes "tm_network_error") db
      hands sound held fresh j
finish_one-Sound id key now item trade_url custom_id (rejected code error) db hands sound held fresh
      j =
    mark_failed_and_refund-Sound id key now item trade_url custom_id
      (resolve_buy_for_failure_key code error) db hands sound held fresh j
finish_one-Sound id key now item trade_url custom_id (accepted order) db hands sound held fresh j =
    let w : Withdrawal = record (new_withdrawal id item trade_url custom_id purchasing) {
      tm_order_id = order;
    } in
    let added = total-save_row_new (live_one j) key w db.withdrawals fresh in
    let here = sound j in
    elim (Bool-cases (id == j)) [
      | inl same ↦
          let held' : 0 < hands j = subst (λ i. 0 < hands i) (==→eq id j same) held in
          let weight : live_one j w ≡ 1 = rw same refl in rw same (omega arith)
      | inr other ↦ let weight : live_one j w ≡ 0 = rw other refl in rw other (omega arith)
    ]

pub try_withdraw_one-Sound :
    (id key now : ℕ) (item : Item) (trade_url : TradeUrl) (custom_id : Text) (answer : BuyResult)
    (db : WithdrawDb) (hands : Hands)
    → Sound db hands
    → 0 < hands id
    → find_row key db.withdrawals ≡ none
    → Sound
        (try_withdraw_one id item trade_url custom_id answer key now db)
        (λ j. hands j - (if id == j then 1 else 0))
unfolding try_withdraw_one
try_withdraw_one-Sound id key now item trade_url custom_id answer db hands sound held fresh =
    elim (Bool-cases (not (is_filled item.market_hash_name) || leb item.price 0)) [
      | inl unpriced ↦
          rw (try_withdraw_one, unpriced)
            (mark_failed_and_refund-Sound id key now item trade_url custom_id
              (codes "skin_no_price") db hands sound held fresh)
      | inr priced ↦
          rw (try_withdraw_one, priced)
            (finish_one-Sound id key now item trade_url custom_id answer db hands sound held fresh)
    ]

-- A row that is saved with a status of no other weight
moved_row :
    (key : ℕ) (w w' : Withdrawal) (db : WithdrawDb) (hands : Hands)
    → Sound db hands
    → find_row key db.withdrawals ≡ some w
    → ((j : ℕ) → live_one j w' ≡ live_one j w)
    → Sound (record db { withdrawals = save_row key w' db.withdrawals }) hands
unfolding Sound
moved_row key w w' db hands sound row same j =
    let traded = total-save_row_over (live_one j) key w' w db.withdrawals row in
    let weight = same j in let here = sound j in omega arith

move_to-Sound :
    (key now : ℕ) (w : Withdrawal) (order : TmOrder) (status : WithdrawalStatus) (db : WithdrawDb)
    (hands : Hands)
    → Sound db hands
    → find_row key db.withdrawals ≡ some w
    → is_failed w.status ≡ false
    → Sound (move_to key w order now db status) hands
unfolding Sound
move_to-Sound key now w order pending db hands sound row going j =
    rw row
      (moved_row key w (record w { status = pending }) db hands sound row (λ i. rw going refl) j)
move_to-Sound key now w order purchasing db hands sound row going j =
    rw row
      (moved_row key w (record w { status = purchasing }) db hands sound row (λ i. rw going refl) j)
move_to-Sound key now w order delivering db hands sound row going j =
    rw row
      (moved_row key w (record w { status = delivering }) db hands sound row (λ i. rw going refl) j)
move_to-Sound key now w order completed db hands sound row going j =
    let w' : Withdrawal = record w {
      status = completed;
      actual_price = order.paid;
      completed_at = some now;
      tm_order_id = or_trade_id w.tm_order_id order.trade_id;
    } in
    rw row (moved_row key w w' db hands sound row (λ i. rw going refl) j)
move_to-Sound key now w order failed db hands sound row going j =
    let w' : Withdrawal = record w {
      status = failed;
      failure_reason = some (causer_reason order.causer);
      completed_at = some now;
    } in
    let id = w.inventory_item_id in
    let traded = total-save_row_over (live_one j) key w' w db.withdrawals row in
    let opened = locked-unlock_row j id (find_row id db.items) db.items refl in
    let here = sound j in
    let most = lock_le (find_row j db.items) in
    elim (Bool-cases (id == j)) [
      | inl same ↦
          let weight : live_one j w ≡ 1 = rw (going, same) refl in
          rw row (opened ∙ rw same (omega arith))
      | inr other ↦
          let weight : live_one j w ≡ 0 = rw (going, other) refl in
          rw row (opened ∙ rw other (omega arith))
    ]

in_flight : (s : WithdrawalStatus) → is_in_flight s ≡ true → is_failed s ≡ false
in_flight failed h = absurd (ground arith)
in_flight pending h = refl
in_flight purchasing h = refl
in_flight delivering h = refl
in_flight completed h = refl

pub advance_one-Sound :
    (key now : ℕ) (w : Withdrawal) (order : Option TmOrder) (db : WithdrawDb) (hands : Hands)
    → Sound db hands
    → find_row key db.withdrawals ≡ some w
    → is_in_flight w.status ≡ true
    → Sound (advance_one key w order now db) hands
unfolding advance_one
advance_one-Sound key now w none db hands sound row going = sound
advance_one-Sound key now w (some order) db hands sound row going =
    let status = derive_withdrawal_status order in
    elim (Bool-cases (same_status status w.status)) [
      | inl same ↦ rw (advance_one, same) sound
      | inr other ↦
          rw (advance_one, other)
            (move_to-Sound key now w order status db hands sound row (in_flight w.status going))
    ]

pub batch_step :
    (now : ℕ) (rows : List (ℕ × Item)) (trade_url : TradeUrl) (db after : WithdrawDb)
    (hands : Hands)
    → Sound db hands
    → Batched now db (ok (rows, trade_url, after))
    → Sound after (λ j. hands j + count_rows j rows)
unfolding Sound Batched
batch_step now rows trade_url db after hands sound (free, items, withdrawals) j =
    let grown = ap (locked j) items ∙ locked-lock_rows j now rows db.items free in
    let here = sound j in let same = ap (live j) withdrawals in omega arith

-- What the purchase of an item and an advance write of the withdrawals
finish_one-saves :
    (id key now : ℕ) (item : Item) (trade_url : TradeUrl) (custom_id : Text) (answer : BuyResult)
    (db : WithdrawDb)
    → (w : Withdrawal) × ((finish_one id item trade_url custom_id key now db answer).withdrawals
        ≡ save_row key w db.withdrawals)
unfolding mark_failed_and_refund
finish_one-saves id key now item trade_url custom_id network_error db = (_, refl)
finish_one-saves id key now item trade_url custom_id (rejected code error) db = (_, refl)
finish_one-saves id key now item trade_url custom_id (accepted order) db = (_, refl)

pub try_withdraw_one-saves :
    (id key now : ℕ) (item : Item) (trade_url : TradeUrl) (custom_id : Text) (answer : BuyResult)
    (db : WithdrawDb)
    → (w : Withdrawal) × ((try_withdraw_one id item trade_url custom_id answer key now
          db).withdrawals
        ≡ save_row key w db.withdrawals)
unfolding try_withdraw_one mark_failed_and_refund
try_withdraw_one-saves id key now item trade_url custom_id answer db =
    elim (Bool-cases (not (is_filled item.market_hash_name) || leb item.price 0)) [
      | inl unpriced ↦ rw (try_withdraw_one, unpriced) (_, refl)
      | inr priced ↦
          rw (try_withdraw_one, priced)
            (finish_one-saves id key now item trade_url custom_id answer db)
    ]

move_to-Known :
    (key now : ℕ) (w : Withdrawal) (order : TmOrder) (status : WithdrawalStatus) (db : WithdrawDb)
    (rest : Table Withdrawal)
    → find_row key db.withdrawals ≡ some w
    → find_row key rest ≡ none
    → Known db.withdrawals rest
    → Known (move_to key w order now db status).withdrawals rest
move_to-Known key now w order pending db rest row once known =
    rw row (Known-save_row key _ rest db.withdrawals once known)
move_to-Known key now w order purchasing db rest row once known =
    rw row (Known-save_row key _ rest db.withdrawals once known)
move_to-Known key now w order delivering db rest row once known =
    rw row (Known-save_row key _ rest db.withdrawals once known)
move_to-Known key now w order completed db rest row once known =
    rw row (Known-save_row key _ rest db.withdrawals once known)
move_to-Known key now w order failed db rest row once known =
    rw row (Known-save_row key _ rest db.withdrawals once known)

pub advance_one-Known :
    (key now : ℕ) (w : Withdrawal) (order : Option TmOrder) (db : WithdrawDb)
    (rest : Table Withdrawal)
    → find_row key db.withdrawals ≡ some w
    → find_row key rest ≡ none
    → Known db.withdrawals rest
    → Known (advance_one key w order now db).withdrawals rest
unfolding advance_one
advance_one-Known key now w none db rest row once known = known
advance_one-Known key now w (some order) db rest row once known =
    let status = derive_withdrawal_status order in
    elim (Bool-cases (same_status status w.status)) [
      | inl same ↦ rw (advance_one, same) known
      | inr other ↦
          rw (advance_one, other) (move_to-Known key now w order status db rest row once known)
    ]
