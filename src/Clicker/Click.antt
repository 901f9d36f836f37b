-- ===== src/Clicker/Click.antt =====
-- CLICK_LUA as a whole, without its diagnostic block (the `dbg_` values at the end of the reply,
-- which only a logger reads). The dice of the crit clicks are the argument `roll`: the i-th call of
-- `math.random(1, 100)` after seeding from Redis' clock.
pub mod Books
pub mod Accounts
pub mod Overlap
use rabbit_backend.Prelude.{
  ℕ, zero, suc, ◌+◌, ◌-◌, ◌*◌, ◌/◌, Bool, true, false, ◌&&◌, ◌||◌, Option, none, some, min, max,
  ltb, leb, if◌then◌else◌,
}
use Prim.Native.String.{String}
use rabbit_backend.Clicker.State.{UserHash, Store, or_else}
use rabbit_backend.Clicker.Boost.{
  ActiveBoost, is_boosted, clear_expired, has_infinite_energy, reward_multiplier, token_burst,
  Tokens, refill_tokens, take_tokens,
}
use rabbit_backend.Clicker.Energy.{Regen, outer_regen, persisted_ts}
use rabbit_backend.Clicker.Auto.{Cycle, Bank, Rates, accumulate}

-- The script's reply, up to the diagnostic block.
pub record Reply : Type 0 where
  pub accepted : ℕ
  pub points : ℕ
  pub energy : ℕ
  pub max_energy : ℕ
  pub cost : ℕ
  pub level : ℕ
  pub click_level : ℕ
  pub energy_level : ℕ
  pub level_up : Bool
  pub regen : ℕ
  pub crit_count : ℕ
  pub auto_credited : ℕ
  pub auto_start : ℕ
  pub auto_max_idle : ℕ
  pub pending_count : ℕ
  pub pending_value : ℕ
  pub total_points : ℕ
  pub boost_key : String
  pub boost_at : ℕ

pub data ClickResult : Type 0 where
  missing : ClickResult  -- code 1
  applied : Reply → ClickResult  -- code 0

abbrev pub boost_of : UserHash → ActiveBoost
boost_of h = record {
  key = h.boost_key;
  expires_at = h.boost_at;
  effect = h.boost_effect;
  value = h.boost_value;
}

-- `inf_tokens` and `inf_token_ts` as they are read and clamped
abbrev pub tokens_of : ℕ → UserHash → Tokens
tokens_of now h = record {
  balance = min (or_else h.tokens token_burst) token_burst;
  stamp = or_else h.token_ts now;
}

abbrev pub rates_of : ℕ → UserHash → Rates
rates_of cost_raw h = record { regen = h.regen; cost = max cost_raw 1; max_e = h.max_energy }

abbrev pub regen_of : ℕ → UserHash → Regen
regen_of now h = outer_regen h.regen h.max_energy (or_else h.last_ts now) now h.energy

-- The autoclicker's part, on the energy that the outer regeneration leaves.
unfoldable pub accumulated : ℕ → ℕ → ℕ → UserHash → Cycle × Bank
accumulated idle_threshold now cost_raw h =
    accumulate (rates_of cost_raw h) h.auto_max_idle idle_threshold now h.last_click
      (record { start = h.auto_start; last = h.auto_last })
      (record {
        energy = (regen_of now h).energy;
        count = h.pending_count;
        value = h.pending_value;
        credited = 0;
        last = h.auto_last;
      })

-- The clicks that are accepted, and the bucket after them.
unfoldable pub accept : Bool → ℕ → ℕ → ℕ → ℕ → Tokens → ℕ × Tokens
accept true req now cost energy t = take_tokens req (refill_tokens now t)
accept false req now cost energy t = (min req (energy / cost), t)

-- The crit rolls, one for each accepted click.
unfoldable pub count_crits : ℕ → (ℕ → ℕ) → ℕ → ℕ
count_crits chance roll zero = 0
count_crits chance roll (suc n) =
    let rest = count_crits chance roll n in if leb (roll (suc n)) chance then suc rest else rest

-- `if accepted > 0 and crit_chance > 0`
unfoldable pub crits_of : ℕ → (ℕ → ℕ) → ℕ → ℕ
crits_of chance roll accepted =
    if ltb 0 accepted && ltb 0 chance then count_crits chance roll accepted else 0

-- `credit`
unfoldable pub click_credit : ℕ → ℕ → ℕ → ℕ → ℕ
click_credit accepted crits cost multiplier =
    accepted * cost * multiplier + crits * 9 * cost * multiplier

-- The energy after the debit.
unfoldable pub debited : Bool → ℕ → ℕ → ℕ → ℕ
debited infinite energy accepted cost = if infinite then energy else energy - accepted * cost

-- The script below the check of `cost_raw`.
unfoldable pub click_loaded : (ℕ → ℕ) → ℕ → ℕ → ℕ → ℕ → Store → Reply × Store
click_loaded roll req now idle_threshold cost_raw s =
    let h = s.user in
    let cost = max cost_raw 1 in
    let boosted = is_boosted now (boost_of h) in
    let boost = clear_expired now (boost_of h) in
    let infinite = has_infinite_energy now (boost_of h) in
    let regen = regen_of now h in
    let auto = accumulated idle_threshold now cost_raw h in
    let cycle = auto.0 in
    let bank = auto.1 in
    let taken = accept infinite req now cost bank.energy (tokens_of now h) in
    let accepted = taken.0 in
    let crits = crits_of (min h.crit_chance 100) roll accepted in
    let energy = debited infinite bank.energy accepted cost in
    let credit = click_credit accepted crits cost (reward_multiplier now (boost_of h)) in
    let points = or_else h.points 0 + credit in
    let total = h.total_points + credit in
    let moved = ltb 0 accepted || ltb 0 bank.credited in
    let h' : UserHash = record h {
      points = some points;
      total_points = total;
      energy = energy;
      last_ts = some (
          persisted_ts h.regen h.max_energy energy (or_else h.last_ts now) regen.ms_used cycle.last
            now);
      last_click = if ltb 0 req then now else h.last_click;
      auto_start = cycle.start;
      auto_last = cycle.last;
      pending_count = bank.count;
      pending_value = bank.value;
      tokens = some taken.1.balance;
      token_ts = some taken.1.stamp;
      boost_key = boost.key;
      boost_at = boost.expires_at;
      boost_effect = boost.effect;
      boost_value = boost.value;
    } in
    let reply : Reply = record {
      accepted = accepted;
      points = points;
      energy = energy;
      max_energy = h.max_energy;
      cost = cost;
      level = h.level;
      click_level = h.click_level;
      energy_level = h.energy_level;
      level_up = moved && ltb 0 h.next_level_cost && leb h.next_level_cost total;
      regen = h.regen;
      crit_count = crits;
      auto_credited = bank.credited;
      auto_start = cycle.start;
      auto_max_idle = h.auto_max_idle;
      pending_count = bank.count;
      pending_value = bank.value;
      total_points = total;
      boost_key = if boosted then boost.key else "";
      boost_at = if boosted then boost.expires_at else 0;
    } in
    (reply, record { user = h'; dirty = s.dirty || moved })

abbrev pub click_with : Option ℕ → (ℕ → ℕ) → ℕ → ℕ → ℕ → Store → ClickResult × Store
click_with none roll req now idle_threshold s = (missing, s)
click_with (some cost_raw) roll req now idle_threshold s =
    let (reply, s') = click_loaded roll req now idle_threshold cost_raw s in (applied reply, s')

-- CLICK_LUA: `req` clicks asked for at `now`.
unfoldable pub click : (ℕ → ℕ) → ℕ → ℕ → ℕ → Store → ClickResult × Store
click roll req now idle_threshold s = click_with s.user.cost roll req now idle_threshold s
