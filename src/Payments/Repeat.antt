-- ===== src/Payments/Repeat.antt =====
-- The provider delivers a notification again.
use mathlib.Core.Path.{subst}
use rabbit_backend.Prelude.{
  ℕ, ◌+◌, ◌≡◌, refl, ap, ◌∙◌, sym, Bool, true, false, Option, none, some, [], ◌∷◌, leb,
  if◌then◌else◌, Result, ok, err, Bool-cases, Option-cases, inl, inr,
}
use rabbit_backend.Prelude.Table.{find_row, save_row, save_row_twice}
use rabbit_backend.Prelude.Texts.{Text, codes, is_filled, trim, text_eq_refl}
use rabbit_backend.Partners.{PartnerDb, record_referral_deposit}
use rabbit_backend.Payments.{
  DepositStatus, Payload, map_skinsback_status, is_skinsback_final_success,
  get_skinsback_credit_amount, get_skinsback_failure_reason,
}
use rabbit_backend.Payments.Deposits.{
  Deposit, DepositDb, WebhookError, WebhookReply, was_credited, handle_deposit, noted, is_named,
  is_mismatched, filled_or, is_text, finish, credit_deposit, calculate_vip_deposit_bonus,
  credited_account, skinsback_source,
}

if_twice :
    {A : Type 0} (b : Bool) (x y : A)
    → (if b then x else (if b then x else y)) ≡ (if b then x else y)
if_twice true x y = refl
if_twice false x y = refl

if_twice_then :
    {A : Type 0} (b : Bool) (x y : A)
    → (if b then (if b then y else x) else x) ≡ (if b then y else x)
if_twice_then true x y = refl
if_twice_then false x y = refl

noted-noted : (payload : Payload) (d : Deposit) → noted payload (noted payload d) ≡ noted payload d
unfolding noted
noted-noted payload d =
    let t = trim payload.transaction_id in
    let o = trim payload.order_id in
    let raw = trim payload.status in
    let credit = get_skinsback_credit_amount payload in
    rw
      (
        if_twice (is_filled t) (some t) d.external_id,
        if_twice (is_filled o) (some o) d.external_order_id,
        if_twice (is_filled raw) raw d.provider_status,
        if_twice_then (leb credit 0) credit d.amount,
      )
      refl

is_text-filled_or :
    (t : Text) (old : Option Text) → is_text t old ≡ true → is_text t (filled_or t old) ≡ true
is_text-filled_or [] old h = h
is_text-filled_or (c ∷ s) old h = text_eq_refl (c ∷ s)

is_mismatched-filled_or :
    (t : Text) (old : Option Text)
    → is_mismatched t old ≡ false
    → is_mismatched t (filled_or t old) ≡ false
is_mismatched-filled_or [] old h = h
is_mismatched-filled_or (c ∷ s) old h = rw (text_eq_refl (c ∷ s)) refl

named_again :
    (o t : Text) (x y : Option Text)
    → (if is_filled o then is_text o x else is_text t y) ≡ true
    → (if is_filled o then is_text o (filled_or o x) else is_text t (filled_or t y)) ≡ true
named_again [] t x y h = is_text-filled_or t y h
named_again (c ∷ s) t x y h = is_text-filled_or (c ∷ s) x h

is_named-noted :
    (payload : Payload) (d : Deposit)
    → is_named (trim payload.order_id) (trim payload.transaction_id) d ≡ true
    → is_named (trim payload.order_id) (trim payload.transaction_id) (noted payload d) ≡ true
unfolding noted
is_named-noted payload d =
    named_again (trim payload.order_id) (trim payload.transaction_id) d.external_order_id
      d.external_id

is_mismatched-noted :
    (payload : Payload) (d : Deposit)
    → is_mismatched (trim payload.transaction_id) d.external_id ≡ false
    → is_mismatched (trim payload.transaction_id) (noted payload d).external_id ≡ false
unfolding noted
is_mismatched-noted payload d = is_mismatched-filled_or (trim payload.transaction_id) d.external_id

-- The row that a notification leaves, on which the same one has the same result.
left_again :
    (payload : Payload) (d : Deposit) (bonus : ℕ) (s : DepositStatus) (credited : Option ℕ)
    (reason : Option Text)
    → let d' : Deposit = record (noted payload d) {
      bonus_amount = bonus;
      status = s;
      credited_at = credited;
      failure_reason = reason;
    } in
      record (noted payload d') { status = s; failure_reason = reason } ≡ d'
unfolding noted
left_again payload d bonus s credited reason =
    ap {A = Deposit} {B = Deposit}
      (λ e. record e {
        bonus_amount = bonus;
        status = s;
        credited_at = credited;
        failure_reason = reason;
      })
      (noted-noted payload d)

-- The handler on the row `d'` of the rows that it has left
abbrev pub StaysAt : Payload → ℕ → ℕ → Deposit → DepositDb → Type 0
StaysAt payload now' id d' after =
    (reply : WebhookReply) × (handle_deposit payload id d' now' after ≡ ok (reply, after))
    × (reply.notify_success ≡ none)
    × (reply.partner_postback ≡ none)

unfoldable pub Repeats :
    Payload → ℕ → ℕ → DepositDb → Result WebhookError (WebhookReply × DepositDb) → Type 0
Repeats payload now' id db (err _) = Unit
Repeats payload now' id db (ok (_, after)) =
    (d' : Deposit) × (after.deposits ≡ save_row id d' db.deposits)
    × (is_named (trim payload.order_id) (trim payload.transaction_id) d' ≡ true)
    × (is_mismatched (trim payload.transaction_id) d'.external_id ≡ false)
    × StaysAt payload now' id d' after

-- A row that the handler only saves again
saved_again :
    (payload : Payload) (now' id : ℕ) (d' : Deposit) (partners : PartnerDb) (db : DepositDb)
    → let after : DepositDb = record {
      partners = partners;
      deposits = save_row id d' db.deposits;
    } in
      handle_deposit payload id d' now' after
        ≡ ok (finish payload id d' d' none none partners after)
      → StaysAt payload now' id d' after
saved_again payload now' id d' partners db h = (
  (finish payload id d' d' none none partners db).0,
  h
      ∙ ap
          (λ t. ok (
            (finish payload id d' d' none none partners db).0,
            record { partners = partners; deposits = t },
          ))
          (save_row_twice id d' d' db.deposits),
  refl,
  refl,
)

-- The branches of the handler
module _ (payload : Payload) (id : ℕ) (d : Deposit) (now : ℕ) (db : DepositDb) where
  abbrev pub kept : Deposit → Result WebhookError (WebhookReply × DepositDb)
  kept e = ok (finish payload id d e none none db.partners db)

  handle_other :
      is_skinsback_final_success (trim payload.status) ≡ false
      → handle_deposit payload id d now db
        ≡ kept (record (noted payload d) { status = map_skinsback_status (trim payload.status) })
  unfolding handle_deposit
  handle_other other = rw (handle_deposit, other) refl

  handle_nothing :
      is_skinsback_final_success (trim payload.status) ≡ true
      → leb (get_skinsback_credit_amount payload) 0 ≡ true
      → handle_deposit payload id d now db
        ≡ kept (record (noted payload d) {
          status = DepositStatus.error;
          failure_reason = some (codes "invalid_amount");
        })
  unfolding handle_deposit
  handle_nothing final nothing = rw (handle_deposit, final, nothing) refl

  handle_done :
      is_skinsback_final_success (trim payload.status) ≡ true
      → leb (get_skinsback_credit_amount payload) 0 ≡ false
      → was_credited d ≡ true
      → handle_deposit payload id d now db
        ≡ kept (record (noted payload d) { status = DepositStatus.success })
  unfolding handle_deposit
  handle_done final positive done = rw (handle_deposit, final, positive, done) refl

  handle_credit :
      is_skinsback_final_success (trim payload.status) ≡ true
      → leb (get_skinsback_credit_amount payload) 0 ≡ false
      → was_credited d ≡ false
      → handle_deposit payload id d now db ≡ credit_deposit payload id d now db
  unfolding handle_deposit
  handle_credit final positive opened = rw (handle_deposit, final, positive, opened) refl

module _ (payload : Payload) (now' id : ℕ) (d : Deposit) (db : DepositDb)
    (named : is_named (trim payload.order_id) (trim payload.transaction_id) d ≡ true)
    (known : is_mismatched (trim payload.transaction_id) d.external_id ≡ false) where
  -- What is left with these columns stays, if the handler then only sets the status and the reason.
  again_at :
      (bonus : ℕ) (s : DepositStatus) (credited : Option ℕ) (reason : Option Text)
      (reply : WebhookReply) (partners : PartnerDb)
      → let d' : Deposit = record (noted payload d) {
        bonus_amount = bonus;
        status = s;
        credited_at = credited;
        failure_reason = reason;
      } in
        let after : DepositDb = record {
          partners = partners;
          deposits = save_row id d' db.deposits;
        } in
        handle_deposit payload id d' now' after
          ≡ kept payload id d' now' after
              (record (noted payload d') { status = s; failure_reason = reason })
        → Repeats payload now' id db (ok (reply, after))
  unfolding Repeats noted
  again_at bonus s credited reason reply partners h =
      let d' : Deposit = record (noted payload d) {
        bonus_amount = bonus;
        status = s;
        credited_at = credited;
        failure_reason = reason;
      } in
      let after : DepositDb = record {
        partners = partners;
        deposits = save_row id d' db.deposits;
      } in
      (
        d',
        refl,
        is_named-noted payload d named,
        is_mismatched-noted payload d known,
        saved_again payload now' id d' partners db
            (h ∙ ap (kept payload id d' now' after) (left_again payload d bonus s credited reason)),
      )

  -- The case of a first notification that pays nothing
  kept_again :
      (now : ℕ) (s : DepositStatus) (f : Option Text)
      → let e : Deposit = record (noted payload d) { status = s; failure_reason = f } in
        handle_deposit payload id d now db ≡ kept payload id d now db e
        → let after : DepositDb = record db { deposits = save_row id e db.deposits } in
          handle_deposit payload id e now' after
            ≡ kept payload id e now' after
                (record (noted payload e) { status = s; failure_reason = f })
          → Repeats payload now' id db (handle_deposit payload id d now db)
  unfolding noted
  kept_again now s f first second =
      let e : Deposit = record (noted payload d) { status = s; failure_reason = f } in
      subst (Repeats payload now' id db) (sym first) (
        again_at d.bonus_amount s d.credited_at f (finish payload id d e none none db.partners db).0
          db.partners second)

  -- The case of a first notification that credits the deposit
  credited_again :
      (now : ℕ)
      → is_skinsback_final_success (trim payload.status) ≡ true
      → leb (get_skinsback_credit_amount payload) 0 ≡ false
      → Repeats payload now' id db (credit_deposit payload id d now db)
  unfolding credit_deposit Repeats noted
  credited_again now final positive = elim (Option-cases (find_row d.user_id db.partners.users)) [
    | inl missing ↦ rw (missing, Repeats) tt
    | inr (user, row) ↦
        let amount = get_skinsback_credit_amount payload in
        let bonus = calculate_vip_deposit_bonus user amount in
        let user' = credited_account amount bonus user in
        let saved : PartnerDb = record (db.partners) {
          users = save_row d.user_id user' db.partners.users;
        } in
        let (postback, partners) =
          record_referral_deposit d.user_id user' amount id (leb user.deposit_amount 0)
            skinsback_source now saved in
        let e : Deposit = record (noted payload d) {
          bonus_amount = bonus;
          status = DepositStatus.success;
          credited_at = some now;
        } in
        let after : DepositDb = record {
          partners = partners;
          deposits = save_row id e db.deposits;
        } in
        rw row (
          again_at bonus DepositStatus.success (some now) (get_skinsback_failure_reason payload)
            (finish payload id d e (some (amount + bonus, d.user_id)) postback partners db).0
            partners (handle_done payload id e now' after final positive refl))
  ]

  pub handle_deposit-Repeats :
      (now : ℕ) → Repeats payload now' id db (handle_deposit payload id d now db)
  unfolding noted
  handle_deposit-Repeats now =
      let raw = trim payload.status in
      let reason = get_skinsback_failure_reason payload in
      let left : DepositStatus → Option Text → Deposit =
        λ s f. record (noted payload d) { status = s; failure_reason = f } in
      let rows : Deposit → DepositDb = λ e. record db { deposits = save_row id e db.deposits } in
      elim (Bool-cases (is_skinsback_final_success raw)) [
        | inr other ↦
            let e = left (map_skinsback_status raw) reason in
            kept_again now (map_skinsback_status raw) reason
              (handle_other payload id d now db other)
              (handle_other payload id e now' (rows e) other)
        | inl final ↦ elim (Bool-cases (leb (get_skinsback_credit_amount payload) 0)) [
          | inl nothing ↦
              let invalid = some (codes "invalid_amount") in
              let e = left DepositStatus.error invalid in
              kept_again now DepositStatus.error invalid
                (handle_nothing payload id d now db final nothing)
                (handle_nothing payload id e now' (rows e) final nothing)
          | inr positive ↦ elim (Bool-cases (was_credited d)) [
            | inl done ↦
                let e = left DepositStatus.success reason in
                kept_again now DepositStatus.success reason
                  (handle_done payload id d now db final positive done)
                  (handle_done payload id e now' (rows e) final positive done)
            | inr opened ↦
                subst (Repeats payload now' id db)
                  (sym (handle_credit payload id d now db final positive opened))
                  (credited_again now final positive)
          ]
        ]
      ]
