-- ===== src/Vip/Periods/Laws.antt =====
-- A period holds the moment that it is computed from, and every moment of it gives the same period.
use rabbit_backend.Prelude.{
  ℕ, zero, suc, ◌+◌, ◌*◌, ◌≤◌, ◌<◌, ◌≡◌, true, false, ltb, ◌==◌, if◌then◌else◌, inl, inr,
  Bool-cases, arith,
}
use native.Mathlib.Nat.{le_trans}
use rabbit_backend.Vip.Cases.{CaseType, Cooldown, daily, weekly, monthly, vip_reward_cases}
use rabbit_backend.Vip.Periods.{
  Period, ms_per_day, day_of, month_length, month_from, month_of, get_weekly_vip_period,
  get_monthly_period, get_daily_period, cooldown_period, get_vip_case_period,
}

-- `now` lies in the period.
abbrev pub Holds : Period → ℕ → Type 0
Holds p now = (p.start ≤ now) × (now < p.end)

-- The first Monday.
abbrev pub first_monday : ℕ
first_monday = 4 * ms_per_day

weekly-Holds : (now : ℕ) → first_monday ≤ now → Holds (get_weekly_vip_period now) now
unfolding get_weekly_vip_period
weekly-Holds now h = omega arith

daily-Holds : (now : ℕ) → Holds (get_daily_period now) now
unfolding get_daily_period
daily-Holds now = omega arith

month_length_pos : (year month : ℕ) → 0 < month_length year month
month_length_pos year month = ground arith

-- The search ends with the month of the day.
month_from-holds :
    (fuel year month first day : ℕ)
    → first ≤ day
    → day < first + fuel
    → let (start, next) = month_from fuel year month first day in (start ≤ day) × (day < next)
unfolding month_from
month_from-holds zero year month first day p q = absurd (omega arith)
month_from-holds (suc fuel) year month first day p q =
    let next = first + month_length year month in
    let pos = month_length_pos year month in
    let year' = if month == 11 then year + 1 else year in
    let month' = if month == 11 then 0 else month + 1 in
    elim (Bool-cases (ltb day next)) [
      | inl inside ↦ rw inside (p, ground arith)
      | inr beyond ↦
          rw beyond (month_from-holds fuel year' month' next day (ground arith) (omega arith))
    ]

month_from-ge : (fuel year month first day : ℕ) → first ≤ (month_from fuel year month first day).0
unfolding month_from
month_from-ge zero year month first day = omega arith
month_from-ge (suc fuel) year month first day =
    let next = first + month_length year month in
    let year' = if month == 11 then year + 1 else year in
    let month' = if month == 11 then 0 else month + 1 in
    elim (Bool-cases (ltb day next)) [
      | inl inside ↦ rw inside (omega arith)
      | inr beyond ↦ rw beyond (omega (arith, month_from-ge fuel year' month' next day))
    ]

-- A day of the month that the search finds for another day finds the same month.
month_from-stable :
    (fuel fuel' year month first day day' : ℕ)
    → first ≤ day'
    → day < first + fuel
    → day' < first + fuel'
    → (month_from fuel year month first day).0 ≤ day'
    → day' < (month_from fuel year month first day).1
    → month_from fuel' year month first day' ≡ month_from fuel year month first day
unfolding month_from
month_from-stable zero fuel' year month first day day' a p q l u = absurd (omega arith)
month_from-stable (suc fuel) zero year month first day day' a p q l u = absurd (omega arith)
month_from-stable (suc fuel) (suc fuel') year month first day day' a p q l u =
    let next = first + month_length year month in
    let pos = month_length_pos year month in
    let year' = if month == 11 then year + 1 else year in
    let month' = if month == 11 then 0 else month + 1 in
    elim (Bool-cases (ltb day next)) [
      | inl inside ↦
          let below = rw inside at u in
          let inside' : ltb day' next ≡ true = ground arith in rw (inside, inside')
      | inr beyond ↦
          let low = rw beyond at l in
          let high = rw beyond at u in
          let later = month_from-ge fuel year' month' next day in
          let beyond' : ltb day' next ≡ false = ground (arith, le_trans later low) in
          rw (beyond, beyond')
            (month_from-stable fuel fuel' year' month' next day day' (le_trans later low)
              (omega arith) (omega arith) low high)
    ]

monthly-Holds : (now : ℕ) → Holds (get_monthly_period now) now
unfolding get_monthly_period
monthly-Holds now =
    let day = day_of now in
    let (low, high) = month_from-holds (suc day) 1970 0 0 day (omega arith) (omega arith) in
    unfold month_of in omega arith

weekly_stable :
    (now now' : ℕ)
    → first_monday ≤ now
    → Holds (get_weekly_vip_period now) now'
    → get_weekly_vip_period now' ≡ get_weekly_vip_period now
unfolding get_weekly_vip_period
weekly_stable now now' h (l, u) = ground arith

monthly_stable :
    (now now' : ℕ)
    → Holds (get_monthly_period now) now'
    → get_monthly_period now' ≡ get_monthly_period now
unfolding get_monthly_period month_of
monthly_stable now now' (l, u) =
    let same =
      month_from-stable (suc (day_of now)) (suc (day_of now')) 1970 0 0 (day_of now) (day_of now')
        (omega arith) (omega arith) (omega arith) (omega arith) (omega arith) in
    rw same

daily_stable :
    (now now' : ℕ)
    → Holds (get_daily_period now) now'
    → get_daily_period now' ≡ get_daily_period now
unfolding get_daily_period
daily_stable now now' (l, u) = ground arith

cooldown_period_laws :
    (c : Cooldown) (now now' : ℕ)
    → first_monday ≤ now
    → Holds (cooldown_period c now) now'
    → Holds (cooldown_period c now) now × (cooldown_period c now' ≡ cooldown_period c now)
unfolding cooldown_period
cooldown_period_laws weekly now now' h i = (weekly-Holds now h, weekly_stable now now' h i)
cooldown_period_laws monthly now now' h i = (monthly-Holds now, monthly_stable now now' i)
cooldown_period_laws daily now now' h i = (daily-Holds now, daily_stable now now' i)

-- For every reward case and every moment from the first Monday of 1970 on: the period holds the
-- moment it is computed from, and every other moment that it holds has the very same period.
pub get_vip_case_period_stable :
    (t : CaseType) (now now' : ℕ)
    → first_monday ≤ now
    → Holds (get_vip_case_period t now) now'
    → Holds (get_vip_case_period t now) now
      × (get_vip_case_period t now' ≡ get_vip_case_period t now)
unfolding get_vip_case_period
get_vip_case_period_stable t now now' h i =
    cooldown_period_laws (vip_reward_cases t).cooldown now now' h i
