-- ===== src/Clicker/Auto/Bulk.antt =====
-- The tick loop: how many rounds it makes, and that the formula computes what it computes.
use rabbit_backend.Prelude.{ℕ, zero, suc, ◌+◌, ◌-◌, ◌*◌, ◌/◌, ◌≤◌, ◌<◌, ◌≡◌, ◌∙◌, min, arith}
use rabbit_backend.Clicker.Auto.{
  Bank, Rates, auto_tick_ms, tick_regen, tick, run_ticks, bulk_ticks, simulate_window,
}

-- `n` rounds of the loop's body, with no test.
unfoldable pub ticks : ℕ → Rates → ℕ → Bank → Bank
ticks zero r tick_at b = b
ticks (suc n) r tick_at b = ticks n r (tick_at + auto_tick_ms) (tick r tick_at b)

-- With one round of fuel for each tick that fits and one more, the loop ends by its test, after
-- exactly the ticks that fit.
pub run_ticks-eq-ticks :
    (n : ℕ) (r : Rates) (tick_at now : ℕ) (b : Bank)
    → tick_at + n * auto_tick_ms ≤ now + auto_tick_ms
    → now < tick_at + n * auto_tick_ms
    → run_ticks (suc n) r tick_at now b ≡ ticks n r tick_at b
unfolding run_ticks ticks
run_ticks-eq-ticks zero r tick_at now b p q = ground arith
run_ticks-eq-ticks (suc n) r tick_at now b p q = ground (
  arith,
  run_ticks-eq-ticks n r (tick_at + auto_tick_ms) now (tick r tick_at b) (omega arith)
      (omega arith),
)

-- A tick where the regeneration covers the cost always succeeds.
tick_covered :
    (r : Rates) (tick_at : ℕ) (b : Bank)
    → r.cost ≤ tick_regen r
    → r.cost ≤ r.max_e
    → b.energy ≤ r.max_e
    → 0 < r.cost
    → tick r tick_at b ≡ record {
      energy = min (b.energy + (tick_regen r - r.cost)) (r.max_e - r.cost);
      count = b.count + 1;
      value = b.value + r.cost;
      credited = b.credited + 1;
      last = tick_at;
    }
unfolding tick
tick_covered r tick_at b p q e c = ground arith

module _ (r : Rates) (covered : r.cost ≤ tick_regen r) (fits : r.cost ≤ r.max_e)
    (p : 0 < r.cost) where
  -- One tick and then the formula for the rest is the formula for all.
  bulk_ticks-tick :
      (n sim_from : ℕ) (b : Bank)
      → b.energy ≤ r.max_e
      → bulk_ticks r (suc n) (sim_from + auto_tick_ms) (tick r (sim_from + auto_tick_ms) b)
        ≡ bulk_ticks r (suc (suc n)) sim_from b
  unfolding bulk_ticks
  bulk_ticks-tick n sim_from b e =
      rw (tick_covered r (sim_from + auto_tick_ms) b covered fits e p) (grind arith)

  tick_in_range :
      (tick_at : ℕ) (b : Bank) → b.energy ≤ r.max_e → (tick r tick_at b).energy ≤ r.max_e
  tick_in_range tick_at b e = rw (tick_covered r tick_at b covered fits e p) (omega arith)

  -- The formula computes what the loop's body computes, tick by tick.
  pub ticks-eq-bulk_ticks :
      (n sim_from : ℕ) (b : Bank)
      → b.energy ≤ r.max_e
      → ticks (suc n) r (sim_from + auto_tick_ms) b ≡ bulk_ticks r (suc n) sim_from b
  unfolding ticks
  ticks-eq-bulk_ticks zero sim_from b e =
      rw (tick_covered r (sim_from + auto_tick_ms) b covered fits e p)
        (unfold bulk_ticks in ground arith)
  ticks-eq-bulk_ticks (suc n) sim_from b e =
      ticks-eq-bulk_ticks n (sim_from + auto_tick_ms) (tick r (sim_from + auto_tick_ms) b)
        (tick_in_range (sim_from + auto_tick_ms) b e)
      ∙ bulk_ticks-tick n sim_from b e

  ticks-eq-bulk_ticks_pos :
      (n sim_from : ℕ) (b : Bank)
      → b.energy ≤ r.max_e
      → 0 < n
      → ticks n r (sim_from + auto_tick_ms) b ≡ bulk_ticks r n sim_from b
  ticks-eq-bulk_ticks_pos zero sim_from b e h = elim h [ ]
  ticks-eq-bulk_ticks_pos (suc n) sim_from b e h = ticks-eq-bulk_ticks n sim_from b e

ticks_none : (n : ℕ) (r : Rates) (tick_at : ℕ) (b : Bank) → n ≡ 0 → ticks n r tick_at b ≡ b
unfolding ticks
ticks_none n r tick_at b h = rw h

-- For a positive cost and an energy within the maximum, the simulated window is the plain run of
-- the tick body, once for each whole 3000 ms of it: the formula of the fast path and the loop on
-- its fuel give the same.
pub simulate_window-eq-ticks :
    (r : Rates) (sim_from now : ℕ) (b : Bank)
    → 0 < r.cost
    → b.energy ≤ r.max_e
    → simulate_window r sim_from now b
      ≡ ticks ((now - sim_from) / auto_tick_ms) r (sim_from + auto_tick_ms) b
unfolding simulate_window
simulate_window-eq-ticks r sim_from now b p e =
    let n = (now - sim_from) / auto_tick_ms in
    ground (
      arith,
      ticks_none n r (sim_from + auto_tick_ms) b,
      run_ticks-eq-ticks n r (sim_from + auto_tick_ms) now b,
      λ (c : r.cost ≤ tick_regen r) (f : r.cost ≤ r.max_e).
          ticks-eq-bulk_ticks_pos r c f p n sim_from b e,
    )
