-- ===== src/Vip/Periods.antt =====
-- vip-rewards.logic.ts: the weekly, monthly and daily periods. A moment is in milliseconds since
-- 1970-01-01 UTC; `-` stops at 0, so the weekly period is that of the source from 1970-01-05, the
-- first Monday, on. `getUTCFullYear`, `getUTCMonth` and `Date.UTC` follow the Gregorian calendar.
pub mod Laws
use rabbit_backend.Prelude.{
  ℕ, zero, suc, ◌+◌, ◌-◌, ◌*◌, ◌/◌, ◌%◌, Bool, true, false, ◌&&◌, ◌||◌, not, ltb, ◌==◌,
  if◌then◌else◌,
}
use rabbit_backend.Vip.Cases.{CaseType, Cooldown, daily, weekly, monthly, vip_reward_cases}

pub record Period : Type 0 where
  pub start : ℕ
  pub end : ℕ

abbrev pub ms_per_day : ℕ
ms_per_day = 86400000

abbrev pub day_of : ℕ → ℕ
day_of now = now / ms_per_day

-- `(getUTCDay() + 6) % 7`: 1970-01-01 is a Thursday.
abbrev pub days_since_monday : ℕ → ℕ
days_since_monday day = ((day + 4) % 7 + 6) % 7

unfoldable pub get_weekly_vip_period : ℕ → Period
get_weekly_vip_period now =
    let day = day_of now in
    let monday = day - days_since_monday day in
    record { start = monday * ms_per_day; end = (monday + 7) * ms_per_day }

abbrev pub is_leap : ℕ → Bool
is_leap year = (year % 4 == 0 && not (year % 100 == 0)) || year % 400 == 0

-- The days of a month, counted from 0 as `getUTCMonth` does.
abbrev pub month_length : ℕ → ℕ → ℕ
month_length year month =
    if month == 1
    then (if is_leap year then 29 else 28)
    else (if month == 3 || month == 5 || month == 8 || month == 10 then 30 else 31)

-- The first day of the month of `day`, and of the month after it; on fuel, from a month that
-- begins on `first`.
unfoldable pub month_from : ℕ → ℕ → ℕ → ℕ → ℕ → ℕ × ℕ
month_from zero year month first day = (first, first)
month_from (suc fuel) year month first day =
    let next = first + month_length year month in
    let year' = if month == 11 then year + 1 else year in
    let month' = if month == 11 then 0 else month + 1 in
    let rest = month_from fuel year' month' next day in if ltb day next then (first, next) else rest

-- The month of `day`, searched from January 1970: no more months than days lie before it.
unfoldable pub month_of : ℕ → ℕ × ℕ
unfolding month_from
month_of day = month_from (suc day) 1970 0 0 day

unfoldable pub get_monthly_period : ℕ → Period
unfolding month_of
get_monthly_period now =
    let (first, next) = month_of (day_of now) in
    record { start = first * ms_per_day; end = next * ms_per_day }

unfoldable pub get_daily_period : ℕ → Period
get_daily_period now = record {
  start = day_of now * ms_per_day;
  end = (day_of now + 1) * ms_per_day;
}

unfoldable pub cooldown_period : Cooldown → ℕ → Period
unfolding get_weekly_vip_period get_monthly_period get_daily_period
cooldown_period weekly now = get_weekly_vip_period now
cooldown_period monthly now = get_monthly_period now
cooldown_period daily now = get_daily_period now

unfoldable pub get_vip_case_period : CaseType → ℕ → Period
unfolding cooldown_period
get_vip_case_period t now = cooldown_period (vip_reward_cases t).cooldown now
