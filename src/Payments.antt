-- ===== src/Payments.antt =====
-- Deposits by skins: src/modules/payments. This file is skinsback.logic.ts, the reading of what the
-- provider sends; Payments/Deposits has the rows and the operations of skinsback.service.ts.
pub mod Deposits
pub mod Bonus
pub mod Webhook
pub mod History
pub mod Repeat
pub mod Delivery
pub mod Refusal
pub mod Tests
use rabbit_backend.Prelude.{
  ℕ, Bool, true, false, not, ◌&&◌, ◌||◌, Option, none, some, [], ◌∷◌, ◌++◌, leb, length, ◌==◌,
  if◌then◌else◌,
}
use rabbit_backend.Prelude.Money.{Amount, normalize_positive, round_div, units_per_cent}
use rabbit_backend.Prelude.Texts.{Text, codes, text_eq, is_filled, take_units, trim}

-- `UserDepositStatus`
pub data DepositStatus : Type 0 where
  waiting success error cancelled : DepositStatus

-- The fields that the service reads of a notification, after `normalizePayload` and as `String` of
-- `?? ''` gives them; the two amounts are in units of 10^-10.
pub record Payload : Type 0 where
  pub order_id : Text
  pub transaction_id : Text
  pub status : Text
  pub reason : Text
  pub steam_id : Text
  pub trade_offer_id : Text
  pub sign : Text
  pub amount : Amount
  pub user_amount : Amount

abbrev pub is_one_of : Text → Text → Text → Bool
is_one_of a b s = text_eq s a || text_eq s b

-- `mapSkinsbackStatus`
unfoldable pub map_skinsback_status : Text → DepositStatus
map_skinsback_status status =
    if text_eq status (codes "success")
    then success
    else (if is_one_of (codes "fail") (codes "hold_returned") status
        then cancelled
        else (if text_eq status (codes "pending")
              || is_one_of (codes "in_hold") (codes "hold_approved") status
            then waiting
            else error))

-- `isSkinsbackFinalFailure`
unfoldable pub is_skinsback_final_failure : Text → Bool
is_skinsback_final_failure status = is_one_of (codes "fail") (codes "hold_returned") status

-- `isSkinsbackFinalSuccess`
unfoldable pub is_skinsback_final_success : Text → Bool
is_skinsback_final_success status = text_eq status (codes "success")

-- `getSkinsbackCreditAmount`, in cents
unfoldable pub get_skinsback_credit_amount : Payload → ℕ
get_skinsback_credit_amount payload =
    let user_amount = normalize_positive payload.user_amount in
    if leb user_amount 0
    then round_div (normalize_positive payload.amount) units_per_cent
    else round_div user_amount units_per_cent

-- `getSkinsbackFailureReason`
unfoldable pub get_skinsback_failure_reason : Payload → Option Text
get_skinsback_failure_reason payload =
    let reason = trim payload.reason in
    let status = trim payload.status in
    if is_filled reason
    then some (take_units 255 reason)
    else (if is_skinsback_final_failure status then some (take_units 255 status) else none)

-- `/^[A-Za-z0-9_-]{8}$/`
abbrev pub is_token_unit : ℕ → Bool
is_token_unit c =
    (leb b'a' c && leb c b'z')
    || ((leb b'A' c && leb c b'Z') || ((leb b'0' c && leb c b'9') || ((c == b'_') || (c == b'-'))))

abbrev pub every_token_unit : Text → Bool
every_token_unit [] = true
every_token_unit (c ∷ s) = is_token_unit c && every_token_unit s

abbrev pub is_trade_token : Text → Bool
is_trade_token s = every_token_unit s && (length s == 8)

abbrev pub trimmed_token : Option Text → Option Text
trimmed_token none = none
trimmed_token (some raw) = let token = trim raw in if is_trade_token token then some token else none

-- `extractSkinsbackTradeToken`; `url_token` is `new URL(value).searchParams.get('token')`, and none
-- where the constructor throws.
unfoldable pub extract_skinsback_trade_token : (Text → Option Text) → Option Text → Option Text
extract_skinsback_trade_token url_token none = none
extract_skinsback_trade_token url_token (some link) =
    let value = trim link in
    if not (is_filled value)
    then none
    else (if is_trade_token value then some value else trimmed_token (url_token value))

-- `verifySkinsbackSignature`; `md5` is the digest in hexadecimal.
unfoldable pub verify_skinsback_signature : (Text → Text) → Text → Text → Text → Bool
verify_skinsback_signature md5 client_id client_secret sign =
    let provided = trim sign in
    is_filled provided && text_eq (md5 (client_id ++ client_secret)) provided
