-- ===== src/Clicker/Click/Accounts.antt =====
-- One call of the click script, as a balance of points, energy and banked ticks.
use rabbit_backend.Prelude.{ℕ, ◌+◌, ◌*◌, ◌≤◌, ◌<◌, ◌≡◌, refl, Option, none, some, min, max, arith}
use rabbit_backend.Clicker.State.{UserHash, Store, or_else}
use rabbit_backend.Clicker.Boost.{ActiveBoost, reward_multiplier, token_burst}
use rabbit_backend.Clicker.Energy.{outer_regen_bounds}
use rabbit_backend.Clicker.Click.{
  Reply, ClickResult, missing, applied, boost_of, tokens_of, accumulated, accept, crits_of,
  click_credit, click_loaded, click_with, click,
}
use rabbit_backend.Clicker.Click.Books.{
  charge, is_free, energy_income, accumulated-Swept, accept_bounds, crits_of_le,
}

-- From the hash `h` to `h'` by a call that replied `r`.
pub record Accounts (req now cost_raw : ℕ) (h : UserHash) (r : Reply) (h' : UserHash) : Type 0 where
  pub cost_floor : r.cost ≡ max cost_raw 1
  pub within : r.accepted ≤ req
  pub crits_within : r.crit_count ≤ r.accepted
  pub credited_alike : h'.total_points + or_else h.points 0 ≡ h.total_points + or_else h'.points 0
  pub earned : or_else h.points 0 + r.accepted * r.cost ≤ or_else h'.points 0
  pub banked_count : h'.pending_count ≡ h.pending_count + r.auto_credited
  pub banked_value : h'.pending_value ≡ h.pending_value + r.auto_credited * r.cost
  pub capped : h'.energy ≤ h'.max_energy
  pub same_cap : h'.max_energy ≡ h.max_energy
  pub bucket_capped : or_else h'.tokens token_burst ≤ token_burst
  pub paid :
      h'.energy + charge (is_free now h) (r.accepted * r.cost) + r.auto_credited * r.cost
      ≤ energy_income now cost_raw h

reward_multiplier_pos : (now : ℕ) (b : ActiveBoost) → 0 < reward_multiplier now b
unfolding reward_multiplier
reward_multiplier_pos now b = ground arith

click_credit_ge :
    (accepted crits cost multiplier : ℕ)
    → 0 < multiplier
    → accepted * cost ≤ click_credit accepted crits cost multiplier
unfolding click_credit
click_credit_ge accepted crits cost multiplier h = grind arith

pub click_loaded-Accounts :
    (roll : ℕ → ℕ) (req now idle_threshold cost_raw : ℕ) (s : Store)
    → let (r, s') = click_loaded roll req now idle_threshold cost_raw s in
      Accounts req now cost_raw s.user r s'.user
unfolding click_loaded
click_loaded-Accounts roll req now idle_threshold cost_raw s =
    let h = s.user in
    let cost = max cost_raw 1 in
    let bank = (accumulated idle_threshold now cost_raw h).1 in
    let swept = accumulated-Swept idle_threshold now cost_raw h in
    let outer = outer_regen_bounds h.regen h.max_energy (or_else h.last_ts now) now h.energy in
    let taken = accept (is_free now h) req now cost bank.energy (tokens_of now h) in
    let fair =
      accept_bounds (is_free now h) req now cost bank.energy (tokens_of now h) (omega arith)
        (omega arith) in
    let crits = crits_of (min h.crit_chance 100) roll taken.0 in
    let few = crits_of_le (min h.crit_chance 100) roll taken.0 in
    let gain =
      click_credit_ge taken.0 crits cost (reward_multiplier now (boost_of h))
        (reward_multiplier_pos now (boost_of h)) in
    record {
      cost_floor = refl;
      within = fair.0;
      crits_within = few;
      credited_alike = omega arith;
      earned = omega arith;
      banked_count = omega arith;
      banked_value = omega arith;
      capped = omega arith;
      same_cap = refl;
      bucket_capped = omega arith;
      paid = omega arith;
    }

-- What a call must have done, by the cost that the hash holds.
abbrev pub Outcome : Option ℕ → ℕ → ℕ → Store → ClickResult → Store → Type 0
Outcome none req now s res s' = (res ≡ missing) × (s' ≡ s)
Outcome (some cost_raw) req now s missing s' = ⊥
Outcome (some cost_raw) req now s (applied r) s' = Accounts req now cost_raw s.user r s'.user

Outcome-of_cost :
    (cost : Option ℕ) (roll : ℕ → ℕ) (req now idle_threshold : ℕ) (s : Store)
    → let (res, s') = click_with cost roll req now idle_threshold s in Outcome cost req now s res s'
Outcome-of_cost none roll req now idle_threshold s = (refl, refl)
Outcome-of_cost (some c) roll req now idle_threshold s =
    click_loaded-Accounts roll req now idle_threshold c s

-- With no cost in the hash, the script replies that the user is not loaded and changes nothing.
-- Otherwise it replies with an accepted number of clicks that is at most the number asked for, and
-- at most as many crits; it adds one amount to the balance and to the lifetime tally, at least the
-- cost for each accepted click; the bank grows by the ticks credited, each at the cost; the energy
-- ends within its maximum; and the energy that is left, the ticks, and the clicks too unless they are
-- free, come together to at most three amounts: the energy at hand, what the time since the last call
-- regenerates, and a tick's regeneration for each whole 3000 ms since the last click, so that a time
-- in which the autoclicker runs may count twice.
pub click-Outcome :
    (roll : ℕ → ℕ) (req now idle_threshold : ℕ) (s : Store)
    → let (res, s') = click roll req now idle_threshold s in Outcome s.user.cost req now s res s'
unfolding click
click-Outcome roll req now idle_threshold s =
    Outcome-of_cost s.user.cost roll req now idle_threshold s
