-- ===== src/Partners/Attach.antt =====
-- The binding of a user to a partner by a referral code: attachReferralParent and attachAndBump of
-- partner.service.ts. PostgreSQL's UPPER and JavaScript's toLowerCase are parameters. The
-- statements of a call are one step; its postback request to the partner is left out.
use rabbit_backend.Prelude.{
  ℕ, suc, Bool, true, false, ◌&&◌, ◌||◌, Option, none, some, List, [], ◌∷◌, map, leb, length, ◌==◌,
  if◌then◌else◌, Result, ok, err, ◌>>=◌, ◌>>◌, throw_if,
}
use rabbit_backend.Prelude.Table.{find_row, save_row}
use rabbit_backend.Prelude.Texts.{Text, text_eq, is_filled, take_units, trim}
use rabbit_backend.Partners.{
  Account, PromoCodeType, PromoCodeStatus, PromoCode, Campaign, PartnerDb, increment_stat, day_of,
}

-- `AttachReferralInput`; a string as the input is a code without the rest.
pub record AttachInput : Type 0 where
  pub code : Text
  pub campaign : Option Text
  pub source : Option Text
  pub sub_id : Option Text

pub data AttachError : Type 0 where
  own_code user_not_found already_bound : AttachError

-- `[A-Z0-9_-]` with the flag `i`
abbrev pub is_slug_unit : ℕ → Bool
is_slug_unit c =
    (leb b'a' c && leb c b'z')
    || ((leb b'A' c && leb c b'Z') || ((leb b'0' c && leb c b'9') || ((c == b'_') || (c == b'-'))))

abbrev pub every_unit : (ℕ → Bool) → Text → Bool
every_unit p [] = true
every_unit p (c ∷ s) = p c && every_unit p s

-- `CAMPAIGN_SLUG_REGEX`
unfoldable pub is_campaign_slug : Text → Bool
is_campaign_slug s = every_unit is_slug_unit s && (leb 2 (length s) && leb (length s) 64)

-- `CPM_SOURCE_REGEX`
unfoldable pub is_cpm_source : Text → Bool
is_cpm_source s = every_unit is_slug_unit s && (leb 1 (length s) && leb (length s) 64)

-- `normalizeCpmSource`
unfoldable pub normalize_cpm_source : Option Text → Option Text
unfolding is_cpm_source
normalize_cpm_source none = none
normalize_cpm_source (some source) =
    let normalized = trim source in
    if is_cpm_source normalized then some (take_units 64 normalized) else none

abbrev pub find_campaign : ℕ → Text → List Campaign → Option Campaign
find_campaign uid slug [] = none
find_campaign uid slug (c ∷ cs) =
    if (c.user_id == uid) && (text_eq c.slug slug && c.is_active)
    then some c
    else find_campaign uid slug cs

-- `resolveCampaignForTracking`
unfoldable pub resolve_campaign : (Text → Text) → ℕ → Option Text → List Campaign → Option Campaign
resolve_campaign lower uid none campaigns = none
resolve_campaign lower uid (some raw) campaigns =
    let slug = lower (trim raw) in
    if is_campaign_slug slug then find_campaign uid slug campaigns else none

-- `where('UPPER(p.code) = UPPER(:code)', { code })`
abbrev pub find_promo_code : (Text → Text) → Text → List PromoCode → Option PromoCode
find_promo_code upper code [] = none
find_promo_code upper code (p ∷ ps) =
    if text_eq (upper p.code) (upper code) then some p else find_promo_code upper code ps

abbrev pub is_referral : PromoCodeType → Bool
is_referral PromoCodeType.referral = true
is_referral _ = false

abbrev pub is_active_code : PromoCodeStatus → Bool
is_active_code PromoCodeStatus.active = true
is_active_code _ = false

-- The owner of an active referral code
abbrev pub owner_of : Option PromoCode → Option ℕ
owner_of none = none
owner_of (some p) = if is_referral p.type && is_active_code p.status then p.created_by else none

-- The owner of the code that the request names, if the code is not blank
unfoldable pub code_owner : (Text → Text) → Text → List PromoCode → Option ℕ
code_owner upper code promo_codes =
    let normalized = trim code in
    if is_filled normalized then owner_of (find_promo_code upper normalized promo_codes) else none

abbrev pub campaign_id : Option Campaign → Option ℕ
campaign_id none = none
campaign_id (some c) = some c.id

-- The columns that the update sets
abbrev pub bound_account : ℕ → Option Campaign → AttachInput → Account → Account
bound_account parent campaign input user = record user {
  referral_parent_id = some parent;
  referral_campaign_id = campaign_id campaign;
  referral_source = normalize_cpm_source input.source;
  referral_sub_id = normalize_cpm_source input.sub_id;
}

-- `UPDATE ... WHERE id = :id AND referral_parent_id IS NULL`, and the errors where no row is affected
abbrev pub unbound : Option Account → Result AttachError Account
unbound none = err user_not_found
unbound (some u) = elim u.referral_parent_id [ none ↦ ok u | some _ ↦ err already_bound ]

module _ (upper lower : Text → Text) where
  -- `attachReferralParent` at the moment `now`
  unfoldable pub attach_referral_parent :
      ℕ → AttachInput → ℕ → PartnerDb → Result AttachError (Bool × PartnerDb)
  attach_referral_parent uid input now db = elim (code_owner upper input.code db.promo_codes) [
    | none ↦ ok (false, db)
    | some parent ↦
        (throw_if (parent == uid) own_code
          >> (unbound (find_row uid db.users) >>= λ user.
              let campaign = resolve_campaign lower parent input.campaign db.campaigns in
              ok (
                true,
                record db {
                  users = save_row uid (bound_account parent campaign input user) db.users;
                  stats = elim campaign [
                    | none ↦ db.stats
                    | some c ↦ increment_stat parent c.id (day_of now) 1 0 db.stats
                  ];
                },
              )))
  ]

  -- `SET current_uses = current_uses + 1 WHERE UPPER(code) = UPPER(:code)`
  abbrev pub bump_uses : Text → PromoCode → PromoCode
  bump_uses code p =
      if text_eq (upper p.code) (upper (trim code))
      then record p { current_uses = suc p.current_uses }
      else p

  -- `attachAndBump`
  unfoldable pub attach_and_bump :
      ℕ → AttachInput → ℕ → PartnerDb → Result AttachError (Bool × PartnerDb)
  attach_and_bump uid input now db = do
    (attached, bound) ← attach_referral_parent uid input now db
    let promo_codes = map (bump_uses input.code) bound.promo_codes
    ok (attached, if attached then record bound { promo_codes = promo_codes } else bound)
