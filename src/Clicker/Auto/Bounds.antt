-- ===== src/Clicker/Auto/Bounds.antt =====
-- What the simulation may do to the bank and the energy, over any number of ticks.
use rabbit_backend.Prelude.{
  ℕ, zero, suc, ◌+◌, ◌-◌, ◌*◌, ◌/◌, ◌≤◌, ◌<◌, ◌≡◌, refl, max, inl, inr, leb, leb→le, Bool-cases,
  arith,
}
use rabbit_backend.Clicker.Auto.{
  Bank, Rates, auto_tick_ms, tick_regen, regenerated, tick, simulate_window,
}
use rabbit_backend.Clicker.Auto.Bulk.{ticks, simulate_window-eq-ticks}

-- From `b` to `b'` in at most `n` ticks: the bank grows by whole ticks at the cost each, and the
-- energy pays for them out of what it was and what `n` ticks regenerate.
pub record Swept (r : Rates) (n : ℕ) (b b' : Bank) : Type 0 where
  pub grown : b.credited ≤ b'.credited
  pub at_most : b'.credited ≤ b.credited + n
  pub counted : b'.count + b.credited ≡ b.count + b'.credited
  pub valued : b'.value + b.credited * r.cost ≡ b.value + b'.credited * r.cost
  pub paid : b'.energy + b'.credited * r.cost ≤ b.energy + b.credited * r.cost + n * tick_regen r
  pub bounded : b'.energy ≤ r.max_e

Swept-none : (r : Rates) (b : Bank) → b.energy ≤ r.max_e → Swept r 0 b b
Swept-none r b e = record {
  grown = omega arith;
  at_most = omega arith;
  counted = refl;
  valued = refl;
  paid = omega arith;
  bounded = e;
}

regenerated_bounds :
    (r : Rates) (e : ℕ)
    → e ≤ r.max_e
    → (regenerated r e ≤ r.max_e) × (regenerated r e ≤ e + tick_regen r)
regenerated_bounds r e h = ground arith

tick-Swept :
    (r : Rates) (tick_at : ℕ) (b : Bank) → b.energy ≤ r.max_e → Swept r 1 b (tick r tick_at b)
unfolding tick
tick-Swept r tick_at b e =
    let (capped, gained) = regenerated_bounds r b.energy e in
    elim (Bool-cases (leb r.cost (regenerated r b.energy))) [
      | inl enough ↦ let covers = leb→le _ _ enough in rw enough (omega arith)
      | inr short ↦ rw short (omega arith)
    ]

Swept-trans :
    {r : Rates} {m n : ℕ} {a b c : Bank} → Swept r m a b → Swept r n b c → Swept r (m + n) a c
Swept-trans h k = omega arith

pub ticks-Swept :
    (n : ℕ) (r : Rates) (tick_at : ℕ) (b : Bank)
    → b.energy ≤ r.max_e
    → Swept r n b (ticks n r tick_at b)
unfolding ticks
ticks-Swept zero r tick_at b e = Swept-none r b e
ticks-Swept (suc n) r tick_at b e =
    let first = tick-Swept r tick_at b e in
    let rest = ticks-Swept n r (tick_at + auto_tick_ms) (tick r tick_at b) first.bounded in
    let both = Swept-trans first rest in omega arith

tick-last : (r : Rates) (tick_at : ℕ) (b : Bank) → (tick r tick_at b).last ≡ tick_at
unfolding tick
tick-last r tick_at b = ground arith

-- The last tick is the one that the window ends with.
ticks-last :
    (n : ℕ) (r : Rates) (tick_at : ℕ) (b : Bank)
    → (ticks (suc n) r tick_at b).last ≡ tick_at + n * auto_tick_ms
unfolding ticks
ticks-last zero r tick_at b = omega (arith, tick-last r tick_at b)
ticks-last (suc n) r tick_at b =
    omega (arith, ticks-last n r (tick_at + auto_tick_ms) (tick r tick_at b))

pub ticks_last_le :
    (n : ℕ) (r : Rates) (sim_from now : ℕ) (b : Bank)
    → sim_from + n * auto_tick_ms ≤ max sim_from now
    → (ticks n r (sim_from + auto_tick_ms) b).last ≤ max b.last now
unfolding ticks
ticks_last_le zero r sim_from now b h = omega arith
ticks_last_le (suc n) r sim_from now b h = omega (arith, ticks-last n r (sim_from + auto_tick_ms) b)

-- For a positive cost and an energy within the maximum: a window credits at most one tick for each
-- whole 3000 ms, pays for every tick it credits, and moves the last tick at most to its end.
pub simulate_window_bounds :
    (r : Rates) (sim_from now : ℕ) (b : Bank)
    → 0 < r.cost
    → b.energy ≤ r.max_e
    → let b' = simulate_window r sim_from now b in
      Swept r ((now - sim_from) / auto_tick_ms) b b' × (b'.last ≤ max b.last now)
simulate_window_bounds r sim_from now b p e =
    let n = (now - sim_from) / auto_tick_ms in
    rw (simulate_window-eq-ticks r sim_from now b p e) (
      ticks-Swept n r (sim_from + auto_tick_ms) b e,
      ticks_last_le n r sim_from now b (omega arith),
    )
