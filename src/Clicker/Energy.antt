-- ===== src/Clicker/Energy.antt =====
-- CLICK_LUA, the regeneration of energy since the last call and the anchor that carries its
-- residue on.
use rabbit_backend.Prelude.{ℕ, ◌+◌, ◌-◌, ◌*◌, ◌/◌, ◌≤◌, ◌&&◌, min, ltb, leb, if◌then◌else◌, arith}
use native.Mathlib.Nat.{div-le_of_le-mul}

pub record Regen : Type 0 where
  pub energy : ℕ
  pub units : ℕ
  pub ms_used : ℕ

-- `computed`: the whole units that `dt` milliseconds give
abbrev pub computed_units : ℕ → ℕ → ℕ
computed_units regen dt = dt * regen / 1000000

-- "Energy regen", with the clamp to `max_e` that follows it
unfoldable pub outer_regen : ℕ → ℕ → ℕ → ℕ → ℕ → Regen
outer_regen regen max_e last_ts now energy =
    let computed = computed_units regen (now - last_ts) in
    let units = min computed (max_e - energy) in
    if ltb 0 regen && ltb last_ts now && ltb energy max_e && ltb 0 computed
    then record {
      energy = min (energy + units) max_e;
      units = units;
      ms_used = units * 1000000 / regen;
    }
    else record { energy = min energy max_e; units = 0; ms_used = 0 }

-- `persisted_ts`
unfoldable pub persisted_ts : ℕ → ℕ → ℕ → ℕ → ℕ → ℕ → ℕ → ℕ
persisted_ts regen max_e energy last_ts ms_used auto_last now =
    if leb regen 0
    then now
    else if leb max_e energy
    then now
    else let carried = last_ts + ms_used in if ltb carried auto_last then auto_last else carried

-- Regeneration adds the units and no more, and never passes the maximum.
pub outer_regen_bounds :
    (regen max_e last_ts now energy : ℕ)
    → let r = outer_regen regen max_e last_ts now energy in
      (r.energy ≤ max_e)
      × (r.energy ≤ energy + r.units)
      × (r.units ≤ computed_units regen (now - last_ts))
unfolding outer_regen
outer_regen_bounds regen max_e last_ts now energy = ground arith

ms_of_units_le : (u dt r : ℕ) → u ≤ computed_units r dt → u * 1000000 / r ≤ dt
ms_of_units_le u dt r h = div-le_of_le-mul r (omega arith)

-- The milliseconds booked as used never exceed those that have passed.
pub outer_regen_ms_used :
    (regen max_e last_ts now energy : ℕ)
    → (outer_regen regen max_e last_ts now energy).ms_used ≤ now - last_ts
unfolding outer_regen
outer_regen_ms_used regen max_e last_ts now energy = ground (
  arith,
  ms_of_units_le (min (computed_units regen (now - last_ts)) (max_e - energy)) (now - last_ts)
      regen,
)
