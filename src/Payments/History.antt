-- ===== src/Payments/History.antt =====
-- Notifications in any order, delivered any number of times.
use rabbit_backend.Prelude.{
  ℕ, ◌+◌, ◌≡◌, ◌≢◌, ap, ◌∙◌, true, false, Option, none, some, List, [], ◌∷◌, All, Result, ok, err,
  inl, inr, arith,
}
use rabbit_backend.Prelude.Table.{total, total-save_row_over}
use rabbit_backend.Prelude.Texts.{Text}
use rabbit_backend.Payments.{Payload, get_skinsback_credit_amount}
use rabbit_backend.Payments.Deposits.{
  DepositDb, Config, Headers, WebhookError, WebhookReply, credited_account,
  calculate_vip_deposit_bonus, handle_webhook,
}
use rabbit_backend.Payments.Webhook.{
  is_credited, KeepsCredited, balance_of, Paid, Handled, handle_webhook-Handled,
}

-- The headers, the payload and the moment of a notification
abbrev pub Notification : Type 0
Notification = Headers × Payload × ℕ

-- A payment that a reply names: the deposit and the sum
abbrev pub Payment : Type 0
Payment = ℕ × ℕ

abbrev pub payment_of : WebhookReply → List Payment → List Payment
payment_of reply rest = elim reply.notify_success [
  | none ↦ rest
  | some (paid, _) ↦ (reply.deposit_id, paid) ∷ rest
]

abbrev pub payments_of :
    Result WebhookError (WebhookReply × DepositDb) → List Payment → List Payment
payments_of (err _) rest = rest
payments_of (ok (reply, _)) rest = payment_of reply rest

-- A refused notification is rolled back.
abbrev pub rows_after : DepositDb → Result WebhookError (WebhookReply × DepositDb) → DepositDb
rows_after db (err _) = db
rows_after db (ok (_, after)) = after

unfoldable pub run_webhooks :
    (Text → Text) → Config → List Notification → DepositDb → List Payment × DepositDb
run_webhooks md5 config [] db = ([], db)
run_webhooks md5 config ((headers, payload, now) ∷ rest) db =
    let r = handle_webhook md5 config headers payload now db in
    let (payments, last) = run_webhooks md5 config rest (rows_after db r) in
    (payments_of r payments, last)

abbrev pub paid_total : List Payment → ℕ
paid_total [] = 0
paid_total ((_, paid) ∷ rest) = paid + paid_total rest

-- No deposit is in two payments.
abbrev pub PaidOnce : List Payment → Type 0
PaidOnce [] = Unit
PaidOnce ((id, _) ∷ rest) = All (λ p. p.0 ≢ id) rest × PaidOnce rest

-- What a run does: the balances grow by the payments, no two of which are of one deposit or of one
-- that was credited before.
pub Settled : List Payment → DepositDb → DepositDb → Type 0
Settled payments db last =
    (total balance_of last.partners.users
      ≡ total balance_of db.partners.users + paid_total payments)
    × PaidOnce payments
    × All (λ p. is_credited (p.0) db ≡ false) payments

fresh_before :
    (db after : DepositDb) (payments : List Payment)
    → KeepsCredited db after
    → All (λ p. is_credited (p.0) after ≡ false) payments
    → All (λ p. is_credited (p.0) db ≡ false) payments
fresh_before db after [] kept h = tt
fresh_before db after ((id, _) ∷ rest) kept (here, later) = (
  elim (kept id) [ inl e ↦ e | inr still ↦ absurd (ground arith) ],
  fresh_before db after rest kept later,
)

other_deposits :
    (id : ℕ) (after : DepositDb) (payments : List Payment)
    → is_credited id after ≡ true
    → All (λ p. is_credited (p.0) after ≡ false) payments
    → All (λ p. p.0 ≢ id) payments
other_deposits id after [] h fresh = tt
other_deposits id after ((j, _) ∷ rest) h (here, later) = (
  λ same. let this = ap (λ i. is_credited i after) same in absurd (ground arith),
  other_deposits id after rest h later,
)

Handled-Settled :
    (payload : Payload) (db last : DepositDb) (r : Result WebhookError (WebhookReply × DepositDb))
    (payments : List Payment)
    → Handled payload db r
    → Settled payments (rows_after db r) last
    → Settled (payments_of r payments) db last
unfolding Handled Paid Settled
Handled-Settled payload db last (err _) payments h settled = settled
Handled-Settled payload db last (ok (reply, after)) payments (deposit, _, _, h) settled =
    paid_case reply.notify_success h settled
  where
    paid_case :
        (success : Option (ℕ × ℕ))
        → Paid payload deposit db reply.deposit_id success after
        → Settled payments after last
        → Settled (payment_of (record reply { notify_success = success }) payments) db last
    paid_case none (same, kept) (sum, once, fresh) = (
      sum ∙ ap (λ p. total balance_of p.users + paid_total payments) same,
      once,
      fresh_before db after payments kept fresh,
    )
    paid_case (some (paid, uid)) (_, user, row, (amount, users, _), was_open, done, kept) settled =
        let (sum, once, fresh) = settled in
        let credit = get_skinsback_credit_amount payload in
        let user' = credited_account credit (calculate_vip_deposit_bonus user credit) user in
        let traded = total-save_row_over balance_of uid user' user db.partners.users row in
        let added = ap (total balance_of) users in
        (
          omega arith,
          (other_deposits reply.deposit_id after payments done fresh, once),
          (was_open, fresh_before db after payments kept fresh),
        )

-- Notifications in any order, some of them refused, some delivered again: the sum of all balances
-- grows by exactly what the replies name as paid, no deposit is paid twice, and none that was
-- credited before is paid.
pub run_webhooks-Settled :
    (md5 : Text → Text) (config : Config) (notifications : List Notification) (db : DepositDb)
    → let (payments, last) = run_webhooks md5 config notifications db in Settled payments db last
unfolding run_webhooks Settled
run_webhooks-Settled md5 config [] db = (omega arith, tt, tt)
run_webhooks-Settled md5 config ((headers, payload, now) ∷ rest) db =
    let r = handle_webhook md5 config headers payload now db in
    let (payments, last) = run_webhooks md5 config rest (rows_after db r) in
    Handled-Settled payload db last r payments
      (handle_webhook-Handled md5 config headers payload now db)
      (run_webhooks-Settled md5 config rest (rows_after db r))
