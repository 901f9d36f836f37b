-- ===== src/Vip/Service/Once.antt =====
-- A claim cannot be repeated within its period.
use rabbit_backend.Prelude.{
  ℕ, ◌+◌, ◌≤◌, ◌<◌, ◌≡◌, refl, sym, ◌∙◌, true, false, some, List, ◌∷◌, ==_refl, ok, err,
  Option-cases, inl, inr, arith,
}
use Prim.Native.String.{String}
use rabbit_backend.Prelude.Table.{find_row, save_row, find_row-save_row_self}
use rabbit_backend.Vip.Tiers.{Tier, tier_meets_requirement}
use rabbit_backend.Vip.Cases.{
  CaseType, CaseConfig, get_vip_reward_case_by_slug, DrawnReward, draw_vip_case_reward,
}
use rabbit_backend.Vip.Periods.{Period, get_vip_case_period}
use rabbit_backend.Vip.Periods.Laws.{Holds, first_monday, get_vip_case_period_stable}
use rabbit_backend.Vip.Rewards.{cooldown, calculate_vip_case_availability}
use rabbit_backend.Vip.Store.{VipUser, vip_case_open, ClaimRow, VipDb, user_tier}
use rabbit_backend.Vip.Service.{
  on_cooldown, same_case, load_period_theoretical_rake, load_vip_case_open_count, case_availability,
  open_vip_case,
}

-- Only a sufficient tier opens a case.
availability_meets :
    (t : Tier) (c : CaseConfig) (rake opened now : ℕ)
    → (calculate_vip_case_availability t c rake opened now).can_open ≡ true
    → tier_meets_requirement t c.required_tier_id ≡ true
unfolding calculate_vip_case_availability
availability_meets t c rake opened now h = ground arith

availability_cooldown :
    (t : Tier) (c : CaseConfig) (rake opened now : ℕ)
    → tier_meets_requirement t c.required_tier_id ≡ true
    → 0 < opened
    → let a = calculate_vip_case_availability t c rake opened now in
      (a.can_open ≡ false) × (a.locked_reason ≡ some cooldown)
unfolding calculate_vip_case_availability
availability_cooldown t c rake opened now meets h = ground arith

availability_period :
    (t : Tier) (c : CaseConfig) (rake opened now : ℕ)
    → let a = calculate_vip_case_availability t c rake opened now in
      (a.period_start ≡ (get_vip_case_period c.kind now).start)
      × (a.period_end ≡ (get_vip_case_period c.kind now).end)
unfolding calculate_vip_case_availability
availability_period t c rake opened now = (refl, refl)

same_case_refl : (t : CaseType) → same_case t t ≡ true
same_case_refl t = ground arith

-- What a successful opening has found and done.
record Opened (id : ℕ) (case_id : String) (now u d : ℕ) (db : VipDb) (w : DrawnReward) (db' : VipDb)
    : Type 0 where
  config : CaseConfig
  user : VipUser
  config_found : get_vip_reward_case_by_slug case_id ≡ some config
  user_found : find_row id db.users ≡ some user
  could_open : (case_availability id user config now db).can_open ≡ true
  reward_drawn : w ≡ draw_vip_case_reward config.kind u d
  paid : db'.users ≡ save_row id (record user { balance = user.balance + w.amount }) db.users
  ledger_kept : db'.ledger ≡ db.ledger
  recorded :
      db'.claims
      ≡ record {
        user_id = id;
        reward_type = vip_case_open;
        amount = w.amount;
        period_start = (get_vip_case_period config.kind now).start;
        period_end = (get_vip_case_period config.kind now).end;
        case_type = some config.kind;
      }
        ∷ db.claims

open_vip_case-Opened :
    (id : ℕ) (case_id : String) (now u d : ℕ) (db : VipDb) {w : DrawnReward} {db' : VipDb}
    → open_vip_case id case_id now u d db ≡ ok (w, db')
    → Opened id case_id now u d db w db'
unfolding open_vip_case
open_vip_case-Opened id case_id now u d db {w} {db'} h =
    elim (Option-cases (get_vip_reward_case_by_slug case_id)) [
      | inl unknown ↦ ground arith
      | inr (c, found) ↦ elim (Option-cases (find_row id db.users)) [
        | inl nobody ↦ ground arith
        | inr (user, row) ↦
            let (from, until) =
              availability_period (user_tier user) c
                (load_period_theoretical_rake id (get_vip_case_period c.kind now) db.ledger)
                (load_vip_case_open_count id c.kind (get_vip_case_period c.kind now) db.claims)
                now in
            record {
              config = c;
              user = user;
              config_found = found;
              user_found = row;
              could_open = ground arith;
              reward_drawn = ground arith;
              paid = ground arith;
              ledger_kept = ground arith;
              recorded = unfold case_availability in ground (arith, from, until);
            }
      ]
    ]

open_count_pos :
    (id amount : ℕ) (t : CaseType) (p : Period) (cs : List ClaimRow)
    → 0
      < load_vip_case_open_count id t p (
          record {
            user_id = id;
            reward_type = vip_case_open;
            amount = amount;
            period_start = p.start;
            period_end = p.end;
            case_type = some t;
          }
          ∷ cs)
unfolding load_vip_case_open_count
open_count_pos id amount t p cs =
    rw (==_refl id, ==_refl p.start, ==_refl p.end, same_case_refl t) (omega arith)

-- The lock that the same user and case meet at a moment `now'` of the same period.
reopening_locked :
    (id : ℕ) (case_id : String) (now now' u d : ℕ) (db : VipDb) {w : DrawnReward} {db' : VipDb}
    (o : Opened id case_id now u d db w db')
    → get_vip_case_period o.config.kind now' ≡ get_vip_case_period o.config.kind now
    → let user' : VipUser = record (o.user) { balance = o.user.balance + w.amount } in
      let a = case_availability id user' o.config now' db' in
      (a.can_open ≡ false) × (a.locked_reason ≡ some cooldown)
unfolding case_availability
reopening_locked id case_id now now' u d db {w = w} {db' = db'} o same =
    let t = user_tier o.user in
    let c = o.config in
    let period = get_vip_case_period c.kind now in
    let meets =
      availability_meets t c (load_period_theoretical_rake id period db.ledger)
        (load_vip_case_open_count id c.kind period db.claims) now o.could_open in
    let once : 0 < load_vip_case_open_count id c.kind (get_vip_case_period c.kind now') db'.claims =
      rw (same, o.recorded) (open_count_pos id w.amount c.kind period db.claims) in
    availability_cooldown t c
      (load_period_theoretical_rake id (get_vip_case_period c.kind now') db'.ledger)
      (load_vip_case_open_count id c.kind (get_vip_case_period c.kind now') db'.claims) now' meets
      once

refused_if_locked :
    (id : ℕ) (case_id : String) (now u d : ℕ) (db : VipDb) (c : CaseConfig) (user : VipUser)
    → get_vip_reward_case_by_slug case_id ≡ some c
    → find_row id db.users ≡ some user
    → (case_availability id user c now db).can_open ≡ false
    → (case_availability id user c now db).locked_reason ≡ some cooldown
    → open_vip_case id case_id now u d db ≡ err on_cooldown
unfolding open_vip_case
refused_if_locked id case_id now u d db c user found row closed locked =
    rw (found, row, closed, locked)

-- After a user has opened a case at `now`, from the first Monday of 1970 on, the same user's every
-- further opening of that case at a moment of the same period is refused as on cooldown, whatever
-- the draw.
pub open_vip_case_once :
    (id : ℕ) (case_id : String) (now now' u d u' d' : ℕ) (c : CaseConfig) (db : VipDb)
    {w : DrawnReward} {db' : VipDb}
    → get_vip_reward_case_by_slug case_id ≡ some c
    → first_monday ≤ now
    → Holds (get_vip_case_period c.kind now) now'
    → open_vip_case id case_id now u d db ≡ ok (w, db')
    → open_vip_case id case_id now' u' d' db' ≡ err on_cooldown
open_vip_case_once id case_id now now' u d u' d' c db {w = w} {db' = db'} found monday inside h =
    let o = open_vip_case-Opened id case_id now u d db h in
    let user' : VipUser = record (o.user) { balance = o.user.balance + w.amount } in
    let same_config : some c ≡ some o.config = sym found ∙ o.config_found in
    let same_kind : c.kind ≡ o.config.kind = ground arith in
    let stable = (get_vip_case_period_stable c.kind now now' monday inside).1 in
    let (closed, locked) =
      reopening_locked id case_id now now' u d db o (rw (← same_kind) stable) in
    refused_if_locked id case_id now' u' d' db' o.config user' o.config_found
      (rw o.paid (find_row-save_row_self id user' db.users)) closed locked
