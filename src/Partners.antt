-- ===== src/Partners.antt =====
-- The partner programme: src/modules/partners/partner.service.ts, the levels (recomputeLevel,
-- updateLevelForAdmin) and the deposits of referred users (recordReferralDeposit), with the rows that
-- they read and write. Partners/Attach has the binding of a user to a partner.
pub mod Attach
pub mod Levels
pub mod Binding
pub mod Deposits
pub mod Tests
use rabbit_backend.Prelude.{
  ℕ, ◌+◌, ◌/◌, Bool, true, false, not, ◌&&◌, ◌||◌, Option, none, some, List, [], ◌∷◌, leb, ltb,
  ◌==◌, if◌then◌else◌, Result, ok, err, ◌>>=◌, ◌>>◌, throw_if, or_throw,
}
use rabbit_backend.Prelude.Table.{Table, find_row, save_row}
use rabbit_backend.Prelude.Texts.{Text}

-- The columns of `User` that the deposits and the referrals use. `steam_id` and `trade_link` are
-- those of the Steam account.
pub record Account : Type 0 where
  pub display_name : Text
  pub balance : ℕ
  pub deposit_amount : ℕ
  pub vip_xp : Option ℕ
  pub vip_qualifying_volume : Option ℕ
  pub steam_id : Option Text
  pub trade_link : Option Text
  pub referral_parent_id : Option ℕ
  pub referral_campaign_id : Option ℕ
  pub referral_source : Option Text
  pub referral_sub_id : Option Text

-- `PartnerLevel`
abbrev pub bronze : ℕ
bronze = 1

abbrev pub diamond : ℕ
diamond = 5

-- A row of partner_profiles; the key of its table is `user_id`, which is unique.
pub record Profile : Type 0 where
  pub level : ℕ
  pub referral_balance : ℕ
  pub total_earned : ℕ
  pub total_referrals_deposit : ℕ
  pub last_code_change_at : Option ℕ
  pub code_locked_by_admin : Bool

pub record LevelRow : Type 0 where
  pub level : ℕ
  pub min_referrals_deposit : ℕ
  pub your_percentage : ℕ
  pub referral_percentage : ℕ
  pub cpm_rate : ℕ

-- A row of partner_campaign_daily_stats, less the columns of the page impressions.
pub record DailyStat : Type 0 where
  pub partner_user_id : ℕ
  pub campaign_id : ℕ
  pub day : ℕ
  pub registrations : ℕ
  pub referral_deposit_amount : ℕ

pub data PromoCodeType : Type 0 where
  referral bonus : PromoCodeType

pub data PromoCodeStatus : Type 0 where
  active inactive expired : PromoCodeStatus

pub record PromoCode : Type 0 where
  pub code : Text
  pub type : PromoCodeType
  pub status : PromoCodeStatus
  pub created_by : Option ℕ
  pub current_uses : ℕ

pub record Campaign : Type 0 where
  pub id : ℕ
  pub user_id : ℕ
  pub slug : Text
  pub is_active : Bool

pub record PartnerDb : Type 0 where
  pub users : Table Account
  pub profiles : Table Profile
  pub levels : List LevelRow
  pub stats : List DailyStat
  pub promo_codes : List PromoCode
  pub campaigns : List Campaign

-- The admin's changes of a level; `none` is a field that the request leaves out.
pub record LevelInput : Type 0 where
  pub min_referrals_deposit : Option ℕ
  pub your_percentage : Option ℕ
  pub referral_percentage : Option ℕ
  pub cpm_rate : Option ℕ

pub data LevelError : Type 0 where
  invalid_partner_level partner_level_not_found : LevelError

abbrev pub set_or : Option ℕ → ℕ → ℕ
set_or none old = old
set_or (some new) old = new

abbrev pub find_level : ℕ → List LevelRow → Option LevelRow
find_level n [] = none
find_level n (r ∷ rs) = if r.level == n then some r else find_level n rs

abbrev pub replace_level : LevelRow → List LevelRow → List LevelRow
replace_level row [] = []
replace_level row (r ∷ rs) = if r.level == row.level then row ∷ rs else r ∷ replace_level row rs

-- `updateLevelForAdmin`
unfoldable pub update_level : ℕ → LevelInput → PartnerDb → Result LevelError (LevelRow × PartnerDb)
update_level n input db = do
  throw_if (ltb n bronze || ltb diamond n) invalid_partner_level
  row ← or_throw (find_level n db.levels) partner_level_not_found
  let row' : LevelRow = record row {
    min_referrals_deposit = set_or input.min_referrals_deposit row.min_referrals_deposit;
    your_percentage = set_or input.your_percentage row.your_percentage;
    referral_percentage = set_or input.referral_percentage row.referral_percentage;
    cpm_rate = set_or input.cpm_rate row.cpm_rate;
  }
  ok (row', record db { levels = replace_level row' db.levels })

-- `levelRepo.find({ order: { level: 'ASC' } })`
abbrev pub insert_level : LevelRow → List LevelRow → List LevelRow
insert_level r [] = r ∷ []
insert_level r (s ∷ rest) = if leb r.level s.level then r ∷ s ∷ rest else s ∷ insert_level r rest

abbrev pub sort_levels : List LevelRow → List LevelRow
sort_levels [] = []
sort_levels (r ∷ rs) = insert_level r (sort_levels rs)

-- The loop of `recomputeLevel`, from the level chosen so far; it breaks at the first level whose
-- threshold is above the total.
unfoldable pub next_level : ℕ → ℕ → List LevelRow → ℕ
next_level total chosen [] = chosen
next_level total chosen (tier ∷ tiers) =
    let rest = next_level total tier.level tiers in
    if leb tier.min_referrals_deposit total then rest else chosen

-- `recomputeLevel`, whose reply is the level
unfoldable pub recompute_level : ℕ → PartnerDb → ℕ × PartnerDb
recompute_level uid db = elim (find_row uid db.profiles) [
  | none ↦ (bronze, db)
  | some profile ↦
      let level = next_level profile.total_referrals_deposit bronze (sort_levels db.levels) in
      if profile.level == level then (level, db) else (
        level,
        record db { profiles = save_row uid (record profile { level = level }) db.profiles },
      )
]

-- `INSERT INTO "partner_profiles" ... ON CONFLICT ("user_id") DO UPDATE` of a deposit
abbrev pub add_deposit : ℕ → Option Profile → Profile
add_deposit amount none = record {
  level = bronze;
  referral_balance = 0;
  total_earned = 0;
  total_referrals_deposit = amount;
  last_code_change_at = none;
  code_locked_by_admin = false;
}
add_deposit amount (some p) = record p {
  total_referrals_deposit = p.total_referrals_deposit + amount;
}

abbrev pub is_stat_of : ℕ → ℕ → ℕ → DailyStat → Bool
is_stat_of uid campaign day s =
    (s.partner_user_id == uid) && ((s.campaign_id == campaign) && (s.day == day))

-- `INSERT INTO "partner_campaign_daily_stats" ... ON CONFLICT ... DO UPDATE`, with what the insert
-- has in the two columns, which the update adds
unfoldable pub increment_stat : ℕ → ℕ → ℕ → ℕ → ℕ → List DailyStat → List DailyStat
increment_stat uid campaign day registered amount [] =
    record {
      partner_user_id = uid;
      campaign_id = campaign;
      day = day;
      registrations = registered;
      referral_deposit_amount = amount;
    }
    ∷ []
increment_stat uid campaign day registered amount (s ∷ rest) =
    if is_stat_of uid campaign day s
    then record s {
      registrations = s.registrations + registered;
      referral_deposit_amount = s.referral_deposit_amount + amount;
    }
      ∷ rest
    else s ∷ increment_stat uid campaign day registered amount rest

-- `toISOString().slice(0, 10)`, as the number of the day since 1970
abbrev pub day_of : ℕ → ℕ
day_of now = now / 86400000

-- A key that JavaScript takes for true
abbrev pub truthy_id : Option ℕ → Option ℕ
truthy_id none = none
truthy_id (some id) = if id == 0 then none else some id

-- `incrementCampaignReferralDeposit`
unfoldable pub increment_campaign_referral_deposit :
    Account → ℕ → ℕ → ℕ → List DailyStat → List DailyStat
increment_campaign_referral_deposit user partner amount now stats =
    elim (truthy_id user.referral_campaign_id) [
      | none ↦ stats
      | some campaign ↦ increment_stat partner campaign (day_of now) 0 amount stats
    ]

-- `PartnerReferralDepositPostback`
pub record Postback : Type 0 where
  pub amount : ℕ
  pub campaign_id : Option ℕ
  pub deposit_id : ℕ
  pub referral_display_name : Text
  pub referral_source : Option Text
  pub referral_sub_id : Option Text
  pub referral_user_id : ℕ
  pub source : Text
  pub total_referrals_deposit : ℕ
  pub partner_user_id : ℕ

-- The early return of `recordReferralDeposit`, or the partner
unfoldable pub partner_of : ℕ → Account → ℕ → Option ℕ
partner_of uid user amount = elim (truthy_id user.referral_parent_id) [
  | none ↦ none
  | some partner ↦ if (partner == uid) || leb amount 0 then none else some partner
]

-- `recordReferralDeposit` for the user that the caller holds
unfoldable pub record_referral_deposit :
    ℕ → Account → ℕ → ℕ → Bool → Text → ℕ → PartnerDb → Option Postback × PartnerDb
record_referral_deposit uid user amount deposit_id first_deposit source now db =
    elim (partner_of uid user amount) [
      | none ↦ (none, db)
      | some partner ↦
          let profile = add_deposit amount (find_row partner db.profiles) in
          let total = profile.total_referrals_deposit in
          let recorded : PartnerDb = record db {
            profiles = save_row partner profile db.profiles;
            stats = increment_campaign_referral_deposit user partner amount now db.stats;
          } in
          let postback : Postback = record {
            amount = amount;
            campaign_id = user.referral_campaign_id;
            deposit_id = deposit_id;
            referral_display_name = user.display_name;
            referral_source = user.referral_source;
            referral_sub_id = user.referral_sub_id;
            referral_user_id = uid;
            source = source;
            total_referrals_deposit = if total == 0 then amount else total;
            partner_user_id = partner;
          } in
          (if first_deposit then some postback else none, (recompute_level partner recorded).1)
    ]
