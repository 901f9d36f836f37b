-- ===== src/Clicker/Auto.antt =====
-- CLICK_LUA, the autoclicker's idle accumulation: the cycle, the tick loop and the formula that
-- stands for it where each tick regenerates at least what it costs.
pub mod Bulk
pub mod Bounds
use rabbit_backend.Prelude.{
  ℕ, zero, suc, ◌+◌, ◌-◌, ◌*◌, ◌/◌, Bool, true, false, ◌&&◌, min, max, ltb, leb, ◌==◌,
  if◌then◌else◌,
}

abbrev pub auto_tick_ms : ℕ
auto_tick_ms = 3000

-- `ac_start` and `ac_last`
pub record Cycle : Type 0 where
  pub start : ℕ
  pub last : ℕ

-- The locals that the simulation writes: `auto_credited` and `ac_last` with the bank and the energy.
pub record Bank : Type 0 where
  pub energy : ℕ
  pub count : ℕ
  pub value : ℕ
  pub credited : ℕ
  pub last : ℕ

-- What the simulation only reads.
pub record Rates : Type 0 where
  pub regen : ℕ
  pub cost : ℕ
  pub max_e : ℕ

-- The first idle window starts a cycle. `now - lc` stops at 0 as the script's does.
unfoldable pub open_cycle : ℕ → ℕ → ℕ → ℕ → Cycle → Cycle
open_cycle idle_threshold now lc apc c =
    if c.start == 0 && apc == 0 && ltb 0 lc && leb idle_threshold (now - lc)
    then record { start = lc + idle_threshold; last = lc + idle_threshold }
    else c

-- `math.floor(AUTO_TICK_MS * regen / 1000000)`
abbrev pub tick_regen : Rates → ℕ
tick_regen r = auto_tick_ms * r.regen / 1000000

-- The energy after a tick's regeneration, capped by the headroom.
abbrev pub regenerated : Rates → ℕ → ℕ
regenerated r e = if ltb 0 r.regen && ltb e r.max_e then e + min (tick_regen r) (r.max_e - e) else e

-- The loop's body at `tick_at`.
unfoldable pub tick : Rates → ℕ → Bank → Bank
tick r tick_at b =
    let e = regenerated r b.energy in
    if leb r.cost e
    then record {
      energy = e - r.cost;
      count = b.count + 1;
      value = b.value + r.cost;
      credited = b.credited + 1;
      last = tick_at;
    }
    else record b { energy = e; last = tick_at }

-- `while tick_at <= effective_now`, on fuel
unfoldable pub run_ticks : ℕ → Rates → ℕ → ℕ → Bank → Bank
run_ticks zero r tick_at effective_now b = b
run_ticks (suc fuel) r tick_at effective_now b =
    let rest = run_ticks fuel r (tick_at + auto_tick_ms) effective_now (tick r tick_at b) in
    if leb tick_at effective_now then rest else b

-- The formula, for `attempted` ticks from `sim_from` on.
unfoldable pub bulk_ticks : Rates → ℕ → ℕ → Bank → Bank
bulk_ticks r attempted sim_from b = record {
  energy = min (b.energy + attempted * (tick_regen r - r.cost)) (r.max_e - r.cost);
  count = b.count + attempted;
  value = b.value + attempted * r.cost;
  credited = b.credited + attempted;
  last = sim_from + attempted * auto_tick_ms;
}

-- The whole window from `sim_from` to `effective_now`; one round of fuel for each tick and one for
-- the test that ends the loop.
unfoldable pub simulate_window : Rates → ℕ → ℕ → Bank → Bank
simulate_window r sim_from effective_now b =
    let attempted = (effective_now - sim_from) / auto_tick_ms in
    if ltb sim_from effective_now
    then if ltb 0 attempted && leb r.cost (tick_regen r) && leb r.cost r.max_e
      then bulk_ticks r attempted sim_from b
      else run_ticks (suc attempted) r (sim_from + auto_tick_ms) effective_now b
    else b

-- The block `if ac_max_idle > 0`, with the cycle that it leaves.
unfoldable pub accumulate : Rates → ℕ → ℕ → ℕ → ℕ → Cycle → Bank → Cycle × Bank
accumulate r max_idle idle_threshold now lc c b =
    let opened = open_cycle idle_threshold now lc b.count c in
    let cap_at = opened.start + max_idle * 1000 in
    let effective_now = min now cap_at in
    let sim_from = max opened.last (lc + idle_threshold) in
    let swept = simulate_window r sim_from effective_now (record b { last = opened.last }) in
    if ltb 0 max_idle
    then if ltb 0 opened.start
      then (record opened { last = swept.last }, swept)
      else (opened, record b { last = opened.last })
    else (c, record b { last = c.last })
