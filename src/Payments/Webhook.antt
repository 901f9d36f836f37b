-- ===== src/Payments/Webhook.antt =====
-- What a notification does to the accounts, the partners and the deposits.
use mathlib.Core.Path.{subst, sym}
use rabbit_backend.Prelude.{
  ℕ, ◌+◌, ◌≡◌, refl, ap, ◌∙◌, Bool, true, false, not, ◌&&◌, ◌||◌, Option, none, some, leb, Result,
  ok, err, Bool-cases, Option-cases, ◌⊎◌, inl, inr,
}
use rabbit_backend.Prelude.Table.{
  find_row, find_where, find_among-find_row, keys, save_row, find_row-save_row_self,
  find_row-save_row, total,
}
use rabbit_backend.Prelude.Texts.{Text, codes, is_filled, trim}
use rabbit_backend.Partners.{Account, PartnerDb, partner_of, record_referral_deposit}
use rabbit_backend.Partners.Deposits.{deposits_of, partner_share, record_referral_deposit_adds}
use rabbit_backend.Payments.{
  DepositStatus, Payload, map_skinsback_status, is_skinsback_final_success,
  get_skinsback_credit_amount, verify_skinsback_signature,
}
use rabbit_backend.Payments.Deposits.{
  Deposit, DepositDb, Config, Headers, WebhookError, not_configured, invalid_signature,
  missing_order_identifier, deposit_not_found, mismatched_transaction, WebhookReply,
  calculate_vip_deposit_bonus, was_credited, credited_account, credit_deposit, handle_deposit,
  handle_webhook, noted, is_named, is_mismatched, trimmed_or_empty, provided_sign, skinsback_source,
}

abbrev pub row_credited : Option Deposit → Bool
row_credited none = false
row_credited (some d) = was_credited d

abbrev pub is_credited : ℕ → DepositDb → Bool
is_credited id db = row_credited (find_row id db.deposits)

-- No credited deposit is ever open again.
abbrev pub KeepsCredited : DepositDb → DepositDb → Type 0
KeepsCredited db after = (id : ℕ) → (is_credited id db ≡ false) ⊎ (is_credited id after ≡ true)

abbrev pub balance_of : Account → ℕ
balance_of u = u.balance

-- What an accepted notification of a deposit does, by the payment that its reply names: nothing to the
-- accounts and the partners; or the deposit, open before and credited after, has paid its amount and
-- the bonus to its user, and its amount to the totals of the partners.
unfoldable pub Paid : Payload → Deposit → DepositDb → ℕ → Option (ℕ × ℕ) → DepositDb → Type 0
Paid payload deposit db id none after = (after.partners ≡ db.partners) × KeepsCredited db after
Paid payload deposit db id (some (paid, uid)) after =
    (uid ≡ deposit.user_id)
    × (user : Account) × (find_row uid db.partners.users ≡ some user)
    × (let amount = get_skinsback_credit_amount payload in
        let bonus = calculate_vip_deposit_bonus user amount in
        let user' = credited_account amount bonus user in
        (paid ≡ amount + bonus)
        × (after.partners.users ≡ save_row uid user' db.partners.users)
        × (total deposits_of after.partners.profiles
            ≡ total deposits_of db.partners.profiles
              + partner_share amount (partner_of uid user' amount)))
    × (is_credited id db ≡ false)
    × (is_credited id after ≡ true)
    × KeepsCredited db after

unfoldable pub Handled :
    Payload → DepositDb → Result WebhookError (WebhookReply × DepositDb) → Type 0
Handled payload db (err _) = Unit
Handled payload db (ok (reply, after)) =
    (deposit : Deposit) × (find_row reply.deposit_id db.deposits ≡ some deposit)
    × (is_named (trim payload.order_id) (trim payload.transaction_id) deposit ≡ true)
    × Paid payload deposit db reply.deposit_id reply.notify_success after

save-KeepsCredited :
    (id : ℕ) (d d' : Deposit) (partners : PartnerDb) (db : DepositDb)
    → find_row id db.deposits ≡ some d
    → (was_credited d ≡ false) ⊎ (was_credited d' ≡ true)
    → KeepsCredited db (record { partners = partners; deposits = save_row id d' db.deposits })
save-KeepsCredited id d d' partners db row kept j = elim (find_row-save_row j id d' db.deposits) [
  | inl (same, hit) ↦
      let this : find_row j db.deposits ≡ some d = ap (λ i. find_row i db.deposits) same ∙ row in
      elim kept [
        | inl opened ↦ inl (ap row_credited this ∙ opened)
        | inr done ↦ inr (ap row_credited hit ∙ done)
      ]
  | inr (_, before) ↦ elim (Bool-cases (is_credited j db)) [
    | inl done ↦ inr (ap row_credited before ∙ done)
    | inr opened ↦ inl opened
  ]
]

credit_deposit-Handled :
    (payload : Payload) (id : ℕ) (deposit : Deposit) (now : ℕ) (db : DepositDb)
    → find_row id db.deposits ≡ some deposit
    → was_credited deposit ≡ false
    → is_named (trim payload.order_id) (trim payload.transaction_id) deposit ≡ true
    → Handled payload db (credit_deposit payload id deposit now db)
unfolding credit_deposit Handled Paid
credit_deposit-Handled payload id deposit now db row open_row named =
    elim (Option-cases (find_row deposit.user_id db.partners.users)) [
      | inl missing ↦ rw (missing, Handled) tt
      | inr (user, account) ↦
          let amount = get_skinsback_credit_amount payload in
          let bonus = calculate_vip_deposit_bonus user amount in
          let user' = credited_account amount bonus user in
          let saved : PartnerDb = record (db.partners) {
            users = save_row deposit.user_id user' db.partners.users;
          } in
          let credited : Deposit = record (noted payload deposit) {
            bonus_amount = bonus;
            status = DepositStatus.success;
            credited_at = some now;
          } in
          let (users, added, _) =
            record_referral_deposit_adds deposit.user_id user' amount id (leb user.deposit_amount 0)
              skinsback_source now saved in
          let recorded =
            record_referral_deposit deposit.user_id user' amount id (leb user.deposit_amount 0)
              skinsback_source now saved in
          rw (account, Handled)
            (
              deposit,
              row,
              named,
              (
                refl,
                user,
                account,
                (refl, users, added),
                ap row_credited row ∙ open_row,
                ap row_credited (find_row-save_row_self id credited db.deposits),
                save-KeepsCredited id deposit credited (recorded.1) db row (inr refl),
              ),
            )
    ]

was_credited-noted :
    (payload : Payload) (d : Deposit) → was_credited (noted payload d) ≡ was_credited d
unfolding noted
was_credited-noted payload d = refl

handle_deposit-Handled :
    (payload : Payload) (id : ℕ) (deposit : Deposit) (now : ℕ) (db : DepositDb)
    → find_row id db.deposits ≡ some deposit
    → is_named (trim payload.order_id) (trim payload.transaction_id) deposit ≡ true
    → Handled payload db (handle_deposit payload id deposit now db)
unfolding handle_deposit Handled Paid
handle_deposit-Handled payload id deposit now db row named =
    let raw = trim payload.status in
    let kept : (was_credited deposit ≡ false) ⊎ (was_credited (noted payload deposit) ≡ true) =
      elim (Bool-cases (was_credited deposit)) [
        | inl done ↦ inr (was_credited-noted payload deposit ∙ done)
        | inr opened ↦ inl opened
      ] in
    let with_status : DepositStatus → Deposit =
      λ s. record (noted payload deposit) { status = s } in
    let invalid : Deposit = record (with_status DepositStatus.error) {
      failure_reason = some (codes "invalid_amount");
    } in
    elim (Bool-cases (is_skinsback_final_success raw)) [
      | inr other ↦
          rw (handle_deposit, other, Handled)
            (
              deposit,
              row,
              named,
              (
                refl,
                save-KeepsCredited id deposit (with_status (map_skinsback_status raw)) db.partners
                    db row kept,
              ),
            )
      | inl final ↦ elim (Bool-cases (leb (get_skinsback_credit_amount payload) 0)) [
        | inl nothing ↦
            rw (handle_deposit, final, nothing, Handled)
              (
                deposit,
                row,
                named,
                (refl, save-KeepsCredited id deposit invalid db.partners db row kept),
              )
        | inr positive ↦ elim (Bool-cases (was_credited deposit)) [
          | inl done ↦
              rw (handle_deposit, final, positive, done, Handled)
                (
                  deposit,
                  row,
                  named,
                  (
                    refl,
                    save-KeepsCredited id deposit (with_status DepositStatus.success) db.partners db
                        row kept,
                  ),
                )
          | inr open_row ↦
              rw (handle_deposit, final, positive, open_row)
                (credit_deposit-Handled payload id deposit now db row open_row named)
        ]
      ]
    ]

module _ (md5 : Text → Text) (config : Config) (headers : Headers) (payload : Payload)
    (now : ℕ) where
  -- A refusal, or the checks that are passed and the handler on the row that is found.
  pub webhook_cases :
      (db : DepositDb)
      → ((e : WebhookError) × (handle_webhook md5 config headers payload now db ≡ err e))
        ⊎ ((id : ℕ) × (d : Deposit) × (find_where
                (is_named (trim payload.order_id) (trim payload.transaction_id))
                db.deposits
              ≡ some (id, d))
            × ((not (is_filled (trimmed_or_empty config.client_id))
                  || not (is_filled (trimmed_or_empty config.client_secret)))
                ≡ false)
            × (not (
                  verify_skinsback_signature md5
                    (trimmed_or_empty config.client_id)
                    (trimmed_or_empty config.client_secret)
                    (provided_sign headers payload))
                ≡ false)
            × ((not (is_filled (trim payload.order_id))
                  && not (is_filled (trim payload.transaction_id)))
                ≡ false)
            × (is_mismatched (trim payload.transaction_id) d.external_id ≡ false)
            × (handle_webhook md5 config headers payload now db
                ≡ handle_deposit payload id d now db))
  unfolding handle_webhook
  webhook_cases db =
      let order_id = trim payload.order_id in
      let transaction_id = trim payload.transaction_id in
      let client_id = trimmed_or_empty config.client_id in
      let secret = trimmed_or_empty config.client_secret in
      let sign = provided_sign headers payload in
      elim (Bool-cases (not (is_filled client_id) || not (is_filled secret))) [
        | inl e ↦ inl (not_configured, rw e refl)
        | inr configured ↦
            elim (Bool-cases (not (verify_skinsback_signature md5 client_id secret sign))) [
              | inl e ↦ inl (invalid_signature, rw (configured, e) refl)
              | inr signed ↦
                  elim (Bool-cases (not (is_filled order_id) && not (is_filled transaction_id))) [
                    | inl e ↦ inl (missing_order_identifier, rw (configured, signed, e) refl)
                    | inr named ↦
                        elim (Option-cases
                          (find_where (is_named order_id transaction_id) db.deposits)) [
                            | inl e ↦
                                inl (deposit_not_found, rw (configured, signed, named, e) refl)
                            | inr ((id, d), found) ↦
                                elim (Bool-cases (is_mismatched transaction_id d.external_id)) [
                                  | inl e ↦ inl (
                                    mismatched_transaction,
                                    rw (configured, signed, named, found, e) refl,
                                  )
                                  | inr known ↦ inr (
                                    id,
                                    d,
                                    found,
                                    configured,
                                    signed,
                                    named,
                                    known,
                                    rw (configured, signed, named, found, known) refl,
                                  )
                                ]
                          ]
                  ]
            ]
      ]

-- Any notification, on any rows: it is refused; or the deposit of its reply is one that the payload
-- names, by its order or its transaction, and it pays nobody and leaves the accounts and the partners as
-- they are, or the deposit was open, is credited now, and has paid the amount with the VIP bonus to the
-- user of its row and to no other account, and the amount to the totals of the partners. A deposit that
-- is credited stays so.
pub handle_webhook-Handled :
    (md5 : Text → Text) (config : Config) (headers : Headers) (payload : Payload) (now : ℕ)
    (db : DepositDb)
    → Handled payload db (handle_webhook md5 config headers payload now db)
unfolding Handled
handle_webhook-Handled md5 config headers payload now db =
    elim (webhook_cases md5 config headers payload now db) [
      | inl (e, refused) ↦ subst (Handled payload db) (sym refused) tt
      | inr (id, deposit, found, _, _, _, _, handled) ↦
          let test = is_named (trim payload.order_id) (trim payload.transaction_id) in
          let (row, meets) =
            find_among-find_row test db.deposits (keys db.deposits) id deposit found in
          subst (Handled payload db) (sym handled)
            (handle_deposit-Handled payload id deposit now db row meets)
    ]
