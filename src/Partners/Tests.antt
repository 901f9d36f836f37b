-- ===== src/Partners/Tests.antt =====
-- Concrete partners and referred users, and what the theorems say of them.
use rabbit_backend.Prelude.{
  ℕ, ◌-◌, ◌*◌, ◌==◌, ◌≤◌, ◌≡◌, ◌⊎◌, refl, true, false, none, some, List, [], ◌∷◌, All, arith, inl,
  inr, Bool-cases,
}
use rabbit_backend.Prelude.Table.{find_row}
use rabbit_backend.Prelude.Texts.{Text, codes}
use rabbit_backend.Partners.{
  Account, Profile, LevelRow, PromoCodeType, PromoCodeStatus, PartnerDb, bronze, recompute_level,
  next_level,
}
use rabbit_backend.Partners.Attach.{
  AttachInput, code_owner, attach_referral_parent, attach_and_bump,
}
use rabbit_backend.Partners.Levels.{IsPast, Reached, recompute_level_highest}
use rabbit_backend.Partners.Binding.{
  Bound, Call, NoOwnPartner, partner_of_user, count_true, run_attach, run_attach-Bound,
}

abbrev account : Account
account = record {
  display_name = codes "user";
  balance = 0;
  deposit_amount = 0;
  vip_xp = none;
  vip_qualifying_volume = none;
  steam_id = none;
  trade_link = none;
  referral_parent_id = none;
  referral_campaign_id = none;
  referral_source = none;
  referral_sub_id = none;
}

abbrev level_row : ℕ → ℕ → LevelRow
level_row level threshold = record {
  level = level;
  min_referrals_deposit = threshold;
  your_percentage = 0;
  referral_percentage = 0;
  cpm_rate = 0;
}

abbrev profile : Profile
profile = record {
  level = 1;
  referral_balance = 0;
  total_earned = 0;
  total_referrals_deposit = 70000;
  last_code_change_at = none;
  code_locked_by_admin = false;
}

-- Levels out of order, with thresholds of 500.00 for each level above the first
abbrev db : PartnerDb
db = record {
  users = (1, account) ∷ (9, account) ∷ [];
  profiles = (9, profile) ∷ [];
  levels = level_row 2 50000 ∷ level_row 1 0 ∷ level_row 3 100000 ∷ [];
  stats = [];
  promo_codes =
      record {
        code = codes "BUNNY";
        type = PromoCodeType.referral;
        status = PromoCodeStatus.active;
        created_by = some 9;
        current_uses = 0;
      }
      ∷ [];
  campaigns = [];
}

abbrev threshold : ℕ → ℕ
threshold level = (level - 1) * 50000

threshold_rising : (m n : ℕ) → m ≤ n → threshold m ≤ threshold n
threshold_rising m n h = omega arith

recompute_level_highest_example :
    (level : ℕ) × (after : PartnerDb) × (recompute_level 9 db ≡ (level, after))
    × All (IsPast 70000 level) db.levels
    × ((level ≡ bronze) ⊎ Reached 70000 level db.levels)
    × (find_row 9 after.profiles ≡ some (record profile { level = level }))
    × (recompute_level 9 after ≡ (level, after))
recompute_level_highest_example =
    recompute_level_highest threshold threshold_rising 9 profile db refl (refl, (refl, (refl, tt)))

silver : (recompute_level 9 db).0 ≡ 2
unfolding recompute_level next_level
silver = refl

abbrev upper : Text → Text
upper t = t

abbrev request : Text → AttachInput
request code = record { code = code; campaign = none; source = none; sub_id = none }

abbrev calls : List Call
calls =
    (1, request (codes " BUNNY"), 5)
    ∷ (1, request (codes "BUNNY"), 6)
    ∷ (9, request (codes "BUNNY"), 7)
    ∷ []

db-NoOwnPartner : NoOwnPartner db
db-NoOwnPartner uid own =
    let nobody : partner_of_user uid db ≡ none = elim (Bool-cases (uid == 1)) [
      | inl one ↦ rw one refl
      | inr other ↦ elim (Bool-cases (uid == 9)) [
        | inl nine ↦ rw (other, nine) refl
        | inr neither ↦ rw (other, neither) refl
      ]
    ] in
    absurd (ground arith)

run_attach-Bound_example :
    let (replies, last) = run_attach upper upper calls db in Bound (count_true replies) db last
run_attach-Bound_example = run_attach-Bound upper upper calls db db-NoOwnPartner

-- The first request binds, the second is refused as the user is bound, the third as the code is
-- the user's own.
one_bound : (run_attach upper upper calls db).0 ≡ true ∷ false ∷ false ∷ []
unfolding run_attach attach_and_bump attach_referral_parent code_owner
one_bound = refl
