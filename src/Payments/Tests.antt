-- ===== src/Payments/Tests.antt =====
-- A concrete deposit and its notifications, and what the theorems say of them.
use rabbit_backend.Prelude.{◌≡◌, refl, true, false, none, some, List, [], ◌∷◌, Result, ok, err}
use rabbit_backend.Prelude.Money.{Amount, round_div}
use rabbit_backend.Prelude.Table.{find_where}
use rabbit_backend.Prelude.Texts.{Text, codes, digits}
use rabbit_backend.Vip.Tiers.{get_vip_tier_for_xp}
use rabbit_backend.Partners.{Account, PartnerDb}
use rabbit_backend.Payments.{
  DepositStatus, Payload, verify_skinsback_signature, is_skinsback_final_success,
  get_skinsback_credit_amount,
}
use rabbit_backend.Payments.Deposits.{
  Deposit, DepositDb, Config, Headers, WebhookError, WebhookReply, not_configured,
  invalid_signature, missing_order_identifier, deposit_not_found, mismatched_transaction,
  no_such_user, new_deposit, order_id_of, calculate_vip_deposit_bonus, handle_webhook,
  handle_deposit, credit_deposit, noted, is_named,
}
use rabbit_backend.Payments.Webhook.{Handled, handle_webhook-Handled}
use rabbit_backend.Payments.History.{Settled, Notification, run_webhooks, run_webhooks-Settled}
use rabbit_backend.Payments.Refusal.{
  error_of, first_failure, is_there, fits, payable, handle_webhook_error,
}

abbrev player : Account
player = record {
  display_name = codes "player";
  balance = 5000;
  deposit_amount = 0;
  vip_xp = some 60000;
  vip_qualifying_volume = none;
  steam_id = some (codes "765");
  trade_link = none;
  referral_parent_id = some 9;
  referral_campaign_id = none;
  referral_source = none;
  referral_sub_id = none;
}

abbrev partners : PartnerDb
partners = record {
  users = (1, player) ∷ [];
  profiles = [];
  levels = [];
  stats = [];
  promo_codes = [];
  campaigns = [];
}

abbrev waiting_deposit : Deposit
waiting_deposit = record (new_deposit 1 12) { external_id = some (codes "t-7") }

abbrev db : DepositDb
db = record { partners = partners; deposits = (12, waiting_deposit) ∷ [] }

-- A digest that returns its text
abbrev md5 : Text → Text
md5 t = t

abbrev config : Config
config = record { client_id = some (codes " id "); client_secret = some (codes "secret") }

abbrev headers : Headers
headers = record { x_sign = some (codes "idsecret"); upper_x_sign = none }

-- 30.00 for the user
abbrev payload : Payload
payload = record {
  order_id = codes "bunny-12 ";
  transaction_id = codes "t-7";
  status = codes "success";
  reason = [];
  steam_id = [];
  trade_offer_id = [];
  sign = [];
  amount = Amount.not_finite;
  user_amount = Amount.at_least_zero 300000000000;
}

order_id_of_12 : order_id_of 12 ≡ codes "bunny-12"
unfolding digits
order_id_of_12 = refl

bonus_of_30 : calculate_vip_deposit_bonus player 3000 ≡ 210
unfolding calculate_vip_deposit_bonus get_vip_tier_for_xp round_div
bonus_of_30 = refl

handle_webhook-Handled_example :
    Handled payload db (handle_webhook md5 config headers payload 77 db)
handle_webhook-Handled_example = handle_webhook-Handled md5 config headers payload 77 db

abbrev notifications : List Notification
notifications = (headers, payload, 77) ∷ (headers, payload, 78) ∷ []

run_webhooks-Settled_example :
    let (payments, last) = run_webhooks md5 config notifications db in Settled payments db last
run_webhooks-Settled_example = run_webhooks-Settled md5 config notifications db

-- The first of the two notifications pays 30.00 and the bonus, the second nothing.
paid_by_two : (run_webhooks md5 config notifications db).0 ≡ (12, 3210) ∷ []
unfolding run_webhooks handle_webhook digits verify_skinsback_signature handle_deposit
    is_skinsback_final_success get_skinsback_credit_amount round_div credit_deposit
    calculate_vip_deposit_bonus noted get_vip_tier_for_xp
paid_by_two = refl

abbrev no_reply : WebhookReply
no_reply = record {
  credited = false;
  deposit_id = 0;
  status = DepositStatus.waiting;
  notify_success = none;
  notify_failure = none;
  partner_postback = none;
}

abbrev result_or : Result WebhookError (WebhookReply × DepositDb) → WebhookReply × DepositDb
result_or (ok r) = r
result_or (err _) = (no_reply, db)

abbrev first : WebhookReply × DepositDb
first = result_or (handle_webhook md5 config headers payload 77 db)

-- A notification that another client signed
abbrev forged : Headers
forged = record { x_sign = some (codes "idsecrets"); upper_x_sign = none }

handle_webhook_error_example :
    let deposit = find_where (is_named (codes "bunny-12") (codes "t-7")) db.deposits in
    error_of (handle_webhook md5 config forged payload 77 db)
    ≡ first_failure (
        (true, not_configured)
        ∷ (
          verify_skinsback_signature md5 (codes "id") (codes "secret") (codes "idsecrets"),
          invalid_signature,
        )
        ∷ (true, missing_order_identifier)
        ∷ (is_there deposit, deposit_not_found)
        ∷ (fits (codes "t-7") deposit, mismatched_transaction)
        ∷ (payable payload db deposit, no_such_user)
        ∷ [])
handle_webhook_error_example = handle_webhook_error md5 config forged payload 77 db

forged_refused : error_of (handle_webhook md5 config forged payload 77 db) ≡ some invalid_signature
unfolding handle_webhook verify_skinsback_signature
forged_refused = refl
