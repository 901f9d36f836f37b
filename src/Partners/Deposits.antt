-- ===== src/Partners/Deposits.antt =====
-- What the deposit of a referred user does to the partners' totals.
use rabbit_backend.Prelude.{
  ℕ, ◌+◌, ◌≡◌, refl, ap, ◌∙◌, Bool, Option, none, some, List, [], ◌∷◌, ◌==◌, Bool-cases,
  Option-cases, inl, inr, arith,
}
use rabbit_backend.Prelude.Table.{
  find_row, save_row, total, row_value, total-save_row, total-save_row_over,
}
use rabbit_backend.Prelude.Texts.{Text}
use rabbit_backend.Partners.{
  Account, Profile, DailyStat, PartnerDb, add_deposit, increment_stat,
  increment_campaign_referral_deposit, is_stat_of, truthy_id, day_of, recompute_level, next_level,
  bronze, sort_levels, partner_of, record_referral_deposit,
}

abbrev pub deposits_of : Profile → ℕ
deposits_of p = p.total_referrals_deposit

-- The deposits in the daily statistics
pub stat_deposits : List DailyStat → ℕ
stat_deposits [] = 0
stat_deposits (s ∷ rest) = s.referral_deposit_amount + stat_deposits rest

-- What one call adds to the partners' totals, and to the campaigns' statistics.
abbrev pub partner_share : ℕ → Option ℕ → ℕ
partner_share amount none = 0
partner_share amount (some _) = amount

pub recompute_level_keeps :
    (uid : ℕ) (db : PartnerDb)
    → let after = (recompute_level uid db).1 in
      (after.users ≡ db.users)
      × (after.stats ≡ db.stats)
      × (total deposits_of after.profiles ≡ total deposits_of db.profiles)
unfolding recompute_level
recompute_level_keeps uid db = elim (Option-cases (find_row uid db.profiles)) [
  | inl missing ↦ rw (recompute_level, missing) (refl, refl, refl)
  | inr (p, row) ↦
      let level = next_level p.total_referrals_deposit bronze (sort_levels db.levels) in
      elim (Bool-cases (p.level == level)) [
        | inl same ↦ rw (recompute_level, row, same) (refl, refl, refl)
        | inr other ↦
            let traded =
              total-save_row_over deposits_of uid (record p { level = level }) p db.profiles row in
            rw (recompute_level, row, other) (refl, refl, omega arith)
      ]
]

stat_deposits-increment_stat :
    (uid campaign day registered amount : ℕ) (stats : List DailyStat)
    → stat_deposits (increment_stat uid campaign day registered amount stats)
      ≡ stat_deposits stats + amount
unfolding stat_deposits increment_stat
stat_deposits-increment_stat uid campaign day registered amount [] = omega arith
stat_deposits-increment_stat uid campaign day registered amount (s ∷ rest) =
    let later = stat_deposits-increment_stat uid campaign day registered amount rest in
    elim (Bool-cases (is_stat_of uid campaign day s)) [
      | inl e ↦ rw e (omega arith)
      | inr e ↦ rw e (omega arith)
    ]

-- The statistics of a campaign count the deposit too, if the user came by one.
abbrev pub campaign_share : Account → ℕ → Option ℕ → ℕ
campaign_share user amount none = 0
campaign_share user amount (some _) = partner_share amount (truthy_id user.referral_campaign_id)

stat_deposits-increment_campaign_referral_deposit :
    (user : Account) (partner amount now : ℕ) (stats : List DailyStat)
    → stat_deposits (increment_campaign_referral_deposit user partner amount now stats)
      ≡ stat_deposits stats + partner_share amount (truthy_id user.referral_campaign_id)
unfolding increment_campaign_referral_deposit
stat_deposits-increment_campaign_referral_deposit user partner amount now stats =
    elim (Option-cases (truthy_id user.referral_campaign_id)) [
      | inl nothing ↦ rw (increment_campaign_referral_deposit, nothing) (omega arith)
      | inr (campaign, found) ↦
          rw (increment_campaign_referral_deposit, found)
            (stat_deposits-increment_stat partner campaign (day_of now) 0 amount stats)
    ]

deposits_of-add_deposit :
    (amount : ℕ) (o : Option Profile)
    → deposits_of (add_deposit amount o) ≡ row_value deposits_of o + amount
deposits_of-add_deposit amount none = omega arith
deposits_of-add_deposit amount (some p) = refl

-- A deposit of a referred user raises the totals of the partners by its amount if the user has a
-- partner, another user, and by nothing if not; so it does with the daily statistics of campaigns,
-- if the user came by one. The accounts are left as they are.
pub record_referral_deposit_adds :
    (uid : ℕ) (user : Account) (amount deposit_id : ℕ) (first_deposit : Bool) (source : Text)
    (now : ℕ) (db : PartnerDb)
    → let after =
        (record_referral_deposit uid user amount deposit_id first_deposit source now db).1 in
      (after.users ≡ db.users)
      × (total deposits_of after.profiles
          ≡ total deposits_of db.profiles + partner_share amount (partner_of uid user amount))
      × (stat_deposits after.stats
          ≡ stat_deposits db.stats + campaign_share user amount (partner_of uid user amount))
unfolding record_referral_deposit
record_referral_deposit_adds uid user amount deposit_id first_deposit source now db =
    elim (Option-cases (partner_of uid user amount)) [
      | inl nobody ↦ rw (record_referral_deposit, nobody) (refl, omega arith, omega arith)
      | inr (partner, found) ↦
          let recorded : PartnerDb = record db {
            profiles =
                save_row partner (add_deposit amount (find_row partner db.profiles)) db.profiles;
            stats = increment_campaign_referral_deposit user partner amount now db.stats;
          } in
          let (users, stats, kept) = recompute_level_keeps partner recorded in
          let profile = find_row partner db.profiles in
          let traded =
            total-save_row deposits_of partner (add_deposit amount profile) db.profiles in
          let added = deposits_of-add_deposit amount profile in
          let counted =
            stat_deposits-increment_campaign_referral_deposit user partner amount now db.stats in
          rw (record_referral_deposit, found)
            (users, kept ∙ omega arith, ap stat_deposits stats ∙ counted)
    ]
