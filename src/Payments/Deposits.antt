-- ===== src/Payments/Deposits.antt =====
-- The deposits and the operations of skinsback.service.ts, createDeposit and handleWebhook. The
-- provider's payload is kept in the row for the record only and left out. MD5, the configuration,
-- the reading of a URL and the reply of the provider's client are parameters.
use rabbit_backend.Prelude.{
  ℕ, ◌+◌, ◌*◌, min, Bool, true, false, not, ◌&&◌, ◌||◌, Option, none, some, [], ◌++◌, leb, ltb,
  if◌then◌else◌, Result, ok, err, ◌>>=◌, ◌>>◌, throw_if, or_throw,
}
use rabbit_backend.Prelude.Money.{Amount, round_div}
use rabbit_backend.Prelude.Table.{Table, find_row, find_where, save_row}
use rabbit_backend.Prelude.Texts.{Text, codes, text_eq, is_filled, take_units, trim, decimal}
use rabbit_backend.Vip.Tiers.{get_vip_tier_for_xp}
use rabbit_backend.Vip.Store.{xp_or_volume}
use rabbit_backend.Partners.{Account, PartnerDb, Postback, record_referral_deposit}
use rabbit_backend.Payments.{
  DepositStatus, Payload, map_skinsback_status, is_skinsback_final_failure,
  is_skinsback_final_success, get_skinsback_credit_amount, get_skinsback_failure_reason,
  extract_skinsback_trade_token, verify_skinsback_signature,
}

pub record Deposit : Type 0 where
  pub user_id : ℕ
  pub amount : ℕ
  pub bonus_amount : ℕ
  pub status : DepositStatus
  pub source : Text
  pub external_id : Option Text
  pub external_order_id : Option Text
  pub provider_status : Text
  pub credited_at : Option ℕ
  pub steam_id : Option Text
  pub trade_offer_id : Option Text
  pub failure_reason : Option Text

pub record DepositDb : Type 0 where
  pub partners : PartnerDb  -- with the users
  pub deposits : Table Deposit

abbrev pub skinsback_source : Text
skinsback_source = codes "skinsback"

pub data CreateError : Type 0 where
  user_not_found steam_account_required min_above_max : CreateError
  create_failed : Option Text → CreateError  -- the message of the client's error

pub record CreateResult : Type 0 where
  pub deposit_id : ℕ
  pub order_id : Text
  pub transaction_id : Text
  pub url : Text

-- `dto.minAmount` and `dto.maxAmount`
abbrev pub is_min_above_max : Option ℕ → Option ℕ → Bool
is_min_above_max (some low) (some high) = ltb high low
is_min_above_max _ _ = false

abbrev pub order_id_of : ℕ → Text
order_id_of id = codes "bunny-" ++ decimal id

-- The row that `createDeposit` saves first, with its order id
abbrev pub new_deposit : ℕ → ℕ → Deposit
new_deposit uid id = record {
  user_id = uid;
  amount = 0;
  bonus_amount = 0;
  status = DepositStatus.waiting;
  source = skinsback_source;
  external_id = none;
  external_order_id = some (order_id_of id);
  provider_status = codes "created";
  credited_at = none;
  steam_id = none;
  trade_offer_id = none;
  failure_reason = none;
}

abbrev pub message_or : Option Text → Text
message_or none = codes "create_failed"
message_or (some message) = take_units 255 message

-- What the client's order depends on of the user and the request
pub record OrderRequest : Type 0 where
  pub order_id : Text
  pub steam_id : Text
  pub trade_token : Option Text
  pub min_amount : Option ℕ
  pub max_amount : Option ℕ

-- The rest of `createDeposit`, after the order has been answered by a transaction id and a URL, or by
-- an error: the call throws then, but the row stays.
unfoldable pub finish_create :
    ℕ
    → ℕ
    → Result (Option Text) (Text × Text)
    → DepositDb
    → Result CreateError CreateResult × DepositDb
finish_create uid id (ok (transaction_id, url)) db =
    let deposit : Deposit = record (new_deposit uid id) {
      external_id = some transaction_id;
      provider_status = codes "pending";
    } in
    (
      ok (record {
        deposit_id = id;
        order_id = order_id_of id;
        transaction_id = transaction_id;
        url = url;
      }),
      record db { deposits = save_row id deposit db.deposits },
    )
finish_create uid id (err message) db =
    let deposit : Deposit = record (new_deposit uid id) {
      status = DepositStatus.error;
      provider_status = codes "create_failed";
      failure_reason = some (message_or message);
    } in
    (err (create_failed message), record db { deposits = save_row id deposit db.deposits })

abbrev pub steam_id_of : Account → Option Text
steam_id_of user = elim user.steam_id [
  | none ↦ none
  | some id ↦ if is_filled id then some id else none
]

-- `createDeposit`; `id` is the key of the new row.
unfoldable pub create_deposit :
    (Text → Option Text)
    → (OrderRequest → Result (Option Text) (Text × Text))
    → ℕ
    → Option ℕ
    → Option ℕ
    → ℕ
    → DepositDb
    → Result CreateError CreateResult × DepositDb
create_deposit url_token create_order uid min_amount max_amount id db =
    elim (find_row uid db.partners.users) [
      | none ↦ (err user_not_found, db)
      | some user ↦ elim (steam_id_of user) [
        | none ↦ (err steam_account_required, db)
        | some steam_id ↦
            let request : OrderRequest = record {
              order_id = order_id_of id;
              steam_id = steam_id;
              trade_token = extract_skinsback_trade_token url_token user.trade_link;
              min_amount = min_amount;
              max_amount = max_amount;
            } in
            if is_min_above_max min_amount max_amount
            then (err min_above_max, db)
            else finish_create uid id (create_order request) db
      ]
    ]

-- `calculateVipDepositBonus`
unfoldable pub calculate_vip_deposit_bonus : Account → ℕ → ℕ
calculate_vip_deposit_bonus user amount =
    let xp = xp_or_volume user.vip_xp user.vip_qualifying_volume in
    let tier = get_vip_tier_for_xp (Amount.at_least_zero xp) in
    if leb tier.deposit_bonus_rate 0 || (ltb amount tier.deposit_min_amount || leb amount 0)
    then 0
    else round_div (min (amount * tier.deposit_bonus_rate) (tier.deposit_bonus_cap * 100)) 100

-- The two spellings of the header, of which the framework gives the lower one.
pub record Headers : Type 0 where
  pub x_sign : Option Text
  pub upper_x_sign : Option Text

pub record Config : Type 0 where
  pub client_id : Option Text
  pub client_secret : Option Text

pub data WebhookError : Type 0 where
  not_configured invalid_signature missing_order_identifier deposit_not_found mismatched_transaction
        no_such_user :
      WebhookError

pub record WebhookReply : Type 0 where
  pub credited : Bool
  pub deposit_id : ℕ
  pub status : DepositStatus
  pub notify_success : Option (ℕ × ℕ)  -- the amount and the user
  pub notify_failure : Option (Text × ℕ)  -- the reason and the user
  pub partner_postback : Option Postback

abbrev pub or_text : Option Text → Text → Text
or_text none t = t
or_text (some s) t = s

abbrev pub provided_sign : Headers → Payload → Text
provided_sign headers payload = or_text headers.x_sign (or_text headers.upper_x_sign payload.sign)

abbrev pub trimmed_or_empty : Option Text → Text
trimmed_or_empty none = []
trimmed_or_empty (some s) = trim s

abbrev pub is_text : Text → Option Text → Bool
is_text s none = false
is_text s (some t) = text_eq t s

-- The `where` of the query
abbrev pub is_named : Text → Text → Deposit → Bool
is_named order_id transaction_id d =
    if is_filled order_id
    then is_text order_id d.external_order_id
    else is_text transaction_id d.external_id

abbrev pub is_mismatched : Text → Option Text → Bool
is_mismatched transaction_id none = false
is_mismatched transaction_id (some known) =
    is_filled transaction_id && (is_filled known && not (text_eq known transaction_id))

-- `s || old`
abbrev pub filled_or : Text → Option Text → Option Text
filled_or s old = if is_filled s then some s else old

-- `s || null`
abbrev pub filled : Text → Option Text
filled s = filled_or s none

-- What the handler writes to the row before it looks at the status.
unfoldable pub noted : Payload → Deposit → Deposit
noted payload d = record d {
  external_id = filled_or (trim payload.transaction_id) d.external_id;
  external_order_id = filled_or (trim payload.order_id) d.external_order_id;
  provider_status =
      let raw = trim payload.status in if is_filled raw then raw else d.provider_status;
  steam_id = filled (trim payload.steam_id);
  trade_offer_id = filled (trim payload.trade_offer_id);
  failure_reason = get_skinsback_failure_reason payload;
  amount =
      let credit = get_skinsback_credit_amount payload in if leb credit 0 then d.amount else credit;
}

abbrev pub same_status : DepositStatus → DepositStatus → Bool
same_status DepositStatus.waiting DepositStatus.waiting = true
same_status DepositStatus.success DepositStatus.success = true
same_status DepositStatus.error DepositStatus.error = true
same_status DepositStatus.cancelled DepositStatus.cancelled = true
same_status _ _ = false

-- `Boolean(deposit.credited_at)`
abbrev pub was_credited : Deposit → Bool
was_credited d = elim d.credited_at [ none ↦ false | some _ ↦ true ]

abbrev pub failure_notice : Payload → Deposit → Deposit → Option (Text × ℕ)
failure_notice payload before after =
    let raw = trim payload.status in
    let failed =
      is_skinsback_final_failure raw
      || same_status (map_skinsback_status raw) DepositStatus.error in
    if failed && not (same_status before.status after.status)
    then some (or_text after.failure_reason (codes "generic"), after.user_id)
    else none

-- The end of the handler: the row is saved, and the reply made.
abbrev pub finish :
    Payload
    → ℕ
    → Deposit
    → Deposit
    → Option (ℕ × ℕ)
    → Option Postback
    → PartnerDb
    → DepositDb
    → WebhookReply × DepositDb
finish payload id before after paid postback partners db = (
  record {
    credited = is_skinsback_final_success (trim payload.status) && not (was_credited before);
    deposit_id = id;
    status = after.status;
    notify_success = paid;
    notify_failure = failure_notice payload before after;
    partner_postback = postback;
  },
  record { partners = partners; deposits = save_row id after db.deposits },
)

-- The user after the credit
abbrev pub credited_account : ℕ → ℕ → Account → Account
credited_account amount bonus user = record user {
  balance = user.balance + amount + bonus;
  deposit_amount = user.deposit_amount + amount;
}

-- The handler on a deposit that is not credited yet, with a positive amount
unfoldable pub credit_deposit :
    Payload → ℕ → Deposit → ℕ → DepositDb → Result WebhookError (WebhookReply × DepositDb)
credit_deposit payload id deposit now db = do
  user ← or_throw (find_row deposit.user_id db.partners.users) no_such_user
  let amount = get_skinsback_credit_amount payload
  let bonus = calculate_vip_deposit_bonus user amount
  let user' = credited_account amount bonus user
  let saved : PartnerDb = record db.partners {
    users = save_row deposit.user_id user' db.partners.users;
  }
  let credited : Deposit = record (noted payload deposit) {
    bonus_amount = bonus;
    status = DepositStatus.success;
    credited_at = some now;
  }
  let first = leb user.deposit_amount 0
  let (postback, partners) =
      record_referral_deposit deposit.user_id user' amount id first skinsback_source now saved
  ok (
      finish payload id deposit credited (some (amount + bonus, deposit.user_id)) postback partners
        db)

-- The handler on the row that it has found
unfoldable pub handle_deposit :
    Payload → ℕ → Deposit → ℕ → DepositDb → Result WebhookError (WebhookReply × DepositDb)
handle_deposit payload id deposit now db =
    let raw = trim payload.status in
    let with_status : DepositStatus → Deposit =
      λ s. record (noted payload deposit) { status = s } in
    let invalid : Deposit = record (with_status DepositStatus.error) {
      failure_reason = some (codes "invalid_amount");
    } in
    let credit = credit_deposit payload id deposit now db in
    let keep : Deposit → Result WebhookError (WebhookReply × DepositDb) =
      λ d. ok (finish payload id deposit d none none db.partners db) in
    if is_skinsback_final_success raw
    then (if leb (get_skinsback_credit_amount payload) 0
        then keep invalid
        else (if was_credited deposit then keep (with_status DepositStatus.success) else credit))
    else keep (with_status (map_skinsback_status raw))

-- `handleWebhook`
unfoldable pub handle_webhook :
    (Text → Text)
    → Config
    → Headers
    → Payload
    → ℕ
    → DepositDb
    → Result WebhookError (WebhookReply × DepositDb)
handle_webhook md5 config headers payload now db = do
  let client_id = trimmed_or_empty config.client_id
  let secret = trimmed_or_empty config.client_secret
  let order_id = trim payload.order_id
  let transaction_id = trim payload.transaction_id
  throw_if (not (is_filled client_id) || not (is_filled secret)) not_configured
  throw_if (not (verify_skinsback_signature md5 client_id secret (provided_sign headers payload)))
      invalid_signature
  throw_if (not (is_filled order_id) && not (is_filled transaction_id)) missing_order_identifier
  (id, deposit) ←
      or_throw (find_where (is_named order_id transaction_id) db.deposits) deposit_not_found
  throw_if (is_mismatched transaction_id deposit.external_id) mismatched_transaction
  handle_deposit payload id deposit now db
