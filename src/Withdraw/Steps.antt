-- ===== src/Withdraw/Steps.antt =====
-- The steps of the withdrawals of all users, in any order.
use mathlib.Core.Path.{subst}
use rabbit_backend.Prelude.{
  ℕ, ◌+◌, ◌-◌, ◌<◌, ◌≡◌, sym, true, Option, none, List, [], ◌∷◌, All, length, ◌≤◌, ◌==◌,
  if◌then◌else◌, ok,
}
use rabbit_backend.Prelude.Table.{Table, find_row}
use rabbit_backend.Prelude.Rows.{Known, Known-missing, Known-save_row}
use rabbit_backend.Prelude.Texts.{Text}
use rabbit_backend.Withdraw.{
  Item, Withdrawal, WithdrawDb, TradeUrl, ParsedUrl, request_withdrawal, BuyResult,
  try_withdraw_one, TmOrder, advance_one, is_in_flight, most_polled,
}
use rabbit_backend.Withdraw.Locks.{Hands, count_rows, Sound, Batched, request_withdrawal-Batched}
use rabbit_backend.Withdraw.Moves.{
  try_withdraw_one-Sound, advance_one-Sound, batch_step, try_withdraw_one-saves, advance_one-Known,
}

-- The rows, the items that batches still have to buy, and the objects that a poll has read and not yet
-- advanced
pub record Moment : Type 0 where
  pub db : WithdrawDb
  pub hands : Hands
  pub poll : Table Withdrawal

abbrev GoesOn : ℕ × Withdrawal → Type 0
GoesOn row = is_in_flight (row.1).status ≡ true

-- One step: a batch that is accepted; the purchase of an item that some batch still has to buy, with
-- any answer of the market; the read of a poll, of rows that are in flight, in any order and at most
-- 200 of them, when no other poll is under way; or the advance of the next object that the poll read.
pub data Step (new_url : Text → Option ParsedUrl) (s : Moment) : Moment → Type 0 where
  requested :
      (uid : ℕ) (ids : List ℕ) (raw : Text) (now : ℕ) (rows : List (ℕ × Item))
      (trade_url : TradeUrl) {after : WithdrawDb}
      → request_withdrawal new_url uid ids raw now s.db ≡ ok (rows, trade_url, after)
      → Step new_url s (record s { db = after; hands = λ j. s.hands j + count_rows j rows })
  tried :
      (id key now : ℕ) (item : Item) (trade_url : TradeUrl) (custom_id : Text) (answer : BuyResult)
      → 0 < s.hands id
      → find_row key s.db.withdrawals ≡ none
      → Step new_url s (record s {
        db = try_withdraw_one id item trade_url custom_id answer key now s.db;
        hands = λ j. s.hands j - (if id == j then 1 else 0);
      })
  poll_read :
      (rows : Table Withdrawal)
      → s.poll ≡ []
      → Known s.db.withdrawals rows
      → All GoesOn rows
      → length rows ≤ most_polled
      → Step new_url s (record s { poll = rows })
  advanced :
      (key now : ℕ) (seen : Withdrawal) (order : Option TmOrder) (rest : Table Withdrawal)
      → s.poll ≡ (key, seen) ∷ rest
      → Step new_url s (record s { db = advance_one key seen order now s.db; poll = rest })

pub data History (new_url : Text → Option ParsedUrl) (first : Moment) : Moment → Type 0 where
  start : History new_url first first
  then_step :
      {middle last : Moment}
      → History new_url first middle
      → Step new_url middle last
      → History new_url first last

-- What a poll has read is still so.
abbrev Fresh : Moment → Type 0
Fresh s = Known s.db.withdrawals s.poll × All GoesOn s.poll

module _ (new_url : Text → Option ParsedUrl) where
  Step-Sound :
      (s after : Moment)
      → Step new_url s after
      → Fresh s
      → Sound s.db s.hands
      → Fresh after × Sound after.db after.hands
  unfolding Batched
  Step-Sound s after (requested uid ids raw now rows trade_url {after = db} e) (known, going)
        sound =
      let batched : Batched now s.db (ok (rows, trade_url, db)) =
        subst (Batched now s.db) e (request_withdrawal-Batched new_url uid ids raw now s.db) in
      let (_, _, same) = batched in
      ((rw same known, going), batch_step now rows trade_url s.db db s.hands sound batched)
  Step-Sound s after (tried id key now item trade_url custom_id answer held free) (known, going)
        sound =
      let (w, saved) = try_withdraw_one-saves id key now item trade_url custom_id answer s.db in
      let other = Known-missing key s.poll s.db.withdrawals free known in
      let still = Known-save_row key w s.poll s.db.withdrawals other known in
      (
        (subst (λ t. Known t s.poll) (sym saved) still, going),
        try_withdraw_one-Sound id key now item trade_url custom_id answer s.db s.hands sound held
            free,
      )
  Step-Sound s after (poll_read rows idle known going few) fresh sound = ((known, going), sound)
  Step-Sound s after (advanced key now seen order rest e) (known, going) sound =
      let (row, once, later) = subst (Known s.db.withdrawals) e known in
      let (this, others) = subst (All GoesOn) e going in
      (
        (advance_one-Known key now seen order s.db rest row once later, others),
        advance_one-Sound key now seen order s.db s.hands sound row this,
      )

  History-Sound :
      (first last : Moment)
      → History new_url first last
      → Fresh first
      → Sound first.db first.hands
      → Fresh last × Sound last.db last.hands
  History-Sound first last start fresh sound = (fresh, sound)
  History-Sound first last (then_step {middle = middle} before step) fresh sound =
      let (still, so_far) = History-Sound first middle before fresh sound in
      Step-Sound middle last step still so_far

  -- Requests of all users, purchases and polls in any order, where a poll reads its rows at once and
  -- advances them later, between other steps, and no poll starts before the one before it is through:
  -- from rows in which an item is locked just if one withdrawal of it has not failed or one batch has it
  -- to buy, so it is at the end. So no item is in two withdrawals that have not failed, nor locked
  -- without a withdrawal or a batch that holds it.
  pub withdrawals-Sound :
      (db : WithdrawDb) (hands : Hands) (last : Moment)
      → History new_url (record { db = db; hands = hands; poll = [] }) last
      → Sound db hands
      → Sound last.db last.hands
  withdrawals-Sound db hands last history sound =
      (History-Sound (record { db = db; hands = hands; poll = [] }) last history (tt, tt) sound).1
