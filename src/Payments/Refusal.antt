-- ===== src/Payments/Refusal.antt =====
-- The errors of a notification.
use rabbit_backend.Prelude.{
  ℕ, ◌≡◌, refl, Bool, true, false, not, ◌&&◌, ◌||◌, Option, none, some, List, [], ◌∷◌, leb,
  if◌then◌else◌, Result, ok, err, Bool-cases, Option-cases, inl, inr, arith,
}
use rabbit_backend.Prelude.Table.{find_row, find_where}
use rabbit_backend.Prelude.Texts.{Text, is_filled, trim}
use rabbit_backend.Payments.{
  Payload, is_skinsback_final_success, get_skinsback_credit_amount, verify_skinsback_signature,
}
use rabbit_backend.Payments.Deposits.{
  Deposit, DepositDb, Config, Headers, WebhookError, not_configured, invalid_signature,
  missing_order_identifier, deposit_not_found, mismatched_transaction, no_such_user, WebhookReply,
  was_credited, credit_deposit, handle_deposit, handle_webhook, is_named, is_mismatched,
  trimmed_or_empty, provided_sign,
}

-- The error of the first test that fails
abbrev pub first_failure : List (Bool × WebhookError) → Option WebhookError
first_failure [] = none
first_failure ((passes, e) ∷ rest) = if passes then first_failure rest else some e

abbrev pub error_of : Result WebhookError (WebhookReply × DepositDb) → Option WebhookError
error_of (err e) = some e
error_of (ok _) = none

abbrev pub is_there {ℓ} : {A : Type ℓ} → Option A → Bool
is_there none = false
is_there (some _) = true

abbrev pub fits : Text → Option (ℕ × Deposit) → Bool
fits transaction_id none = true
fits transaction_id (some (_, d)) = not (is_mismatched transaction_id d.external_id)

-- The deposit is to be paid, and to nobody.
abbrev pub payable : Payload → DepositDb → Option (ℕ × Deposit) → Bool
payable payload db none = true
payable payload db (some (_, d)) =
    not (is_skinsback_final_success (trim payload.status))
    || (leb (get_skinsback_credit_amount payload) 0
        || (was_credited d || is_there (find_row d.user_id db.partners.users)))

handle_deposit_error :
    (payload : Payload) (id : ℕ) (d : Deposit) (now : ℕ) (db : DepositDb)
    → error_of (handle_deposit payload id d now db)
      ≡ (if payable payload db (some (id, d)) then none else some no_such_user)
unfolding handle_deposit credit_deposit
handle_deposit_error payload id d now db =
    elim (Bool-cases (is_skinsback_final_success (trim payload.status))) [
      | inr other ↦ rw (handle_deposit, other) refl
      | inl final ↦ elim (Bool-cases (leb (get_skinsback_credit_amount payload) 0)) [
        | inl nothing ↦ rw (handle_deposit, final, nothing) refl
        | inr positive ↦ elim (Bool-cases (was_credited d)) [
          | inl done ↦ rw (handle_deposit, final, positive, done) refl
          | inr opened ↦ elim (Option-cases (find_row d.user_id db.partners.users)) [
            | inl missing ↦ rw (handle_deposit, final, positive, opened, missing) refl
            | inr (user, row) ↦ rw (handle_deposit, final, positive, opened, row) refl
          ]
        ]
      ]
    ]

-- A notification is refused with the error of the first of these tests that it fails, and accepted if
-- it passes all: the provider is configured; the signature is right; an order or a transaction is
-- named; there is such a deposit; its transaction, if known, is the one named; and the user to be paid,
-- if there is a payment to make, exists.
pub handle_webhook_error :
    (md5 : Text → Text) (config : Config) (headers : Headers) (payload : Payload) (now : ℕ)
    (db : DepositDb)
    → let client_id = trimmed_or_empty config.client_id in
      let secret = trimmed_or_empty config.client_secret in
      let order_id = trim payload.order_id in
      let transaction_id = trim payload.transaction_id in
      let deposit = find_where (is_named order_id transaction_id) db.deposits in
      error_of (handle_webhook md5 config headers payload now db)
      ≡ first_failure (
          (is_filled client_id && is_filled secret, not_configured)
          ∷ (
            verify_skinsback_signature md5 client_id secret (provided_sign headers payload),
            invalid_signature,
          )
          ∷ (is_filled order_id || is_filled transaction_id, missing_order_identifier)
          ∷ (is_there deposit, deposit_not_found)
          ∷ (fits transaction_id deposit, mismatched_transaction)
          ∷ (payable payload db deposit, no_such_user)
          ∷ [])
unfolding handle_webhook
handle_webhook_error md5 config headers payload now db =
    let order_id = trim payload.order_id in
    let transaction_id = trim payload.transaction_id in
    let client_id = trimmed_or_empty config.client_id in
    let secret = trimmed_or_empty config.client_secret in
    let sign = provided_sign headers payload in
    elim (Bool-cases (is_filled client_id)) [
      | inr e ↦ rw e refl
      | inl one ↦ elim (Bool-cases (is_filled secret)) [
        | inr e ↦ rw (one, e) refl
        | inl two ↦ elim (Bool-cases (verify_skinsback_signature md5 client_id secret sign)) [
          | inr e ↦ rw (one, two, e) refl
          | inl signed ↦ elim (Bool-cases (is_filled order_id || is_filled transaction_id)) [
            | inr e ↦
                let unnamed : (not (is_filled order_id) && not (is_filled transaction_id)) ≡ true =
                  ground arith in
                rw (one, two, signed, e, unnamed) refl
            | inl e ↦
                let named : (not (is_filled order_id) && not (is_filled transaction_id)) ≡ false =
                  ground arith in
                elim (Option-cases (find_where (is_named order_id transaction_id) db.deposits)) [
                  | inl missing ↦ rw (one, two, signed, e, named, missing) refl
                  | inr ((id, d), found) ↦
                      elim (Bool-cases (is_mismatched transaction_id d.external_id)) [
                        | inl differs ↦ rw (one, two, signed, e, named, found, differs) refl
                        | inr known ↦
                            rw (one, two, signed, e, named, found, known)
                              (handle_deposit_error payload id d now db)
                      ]
                ]
          ]
        ]
      ]
    ]
