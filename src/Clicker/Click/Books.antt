-- ===== src/Clicker/Click/Books.antt =====
-- What one call of the click script takes and gives.
use rabbit_backend.Prelude.{
  ℕ, zero, suc, ◌+◌, ◌-◌, ◌*◌, ◌/◌, ◌≤◌, ◌<◌, ◌≡◌, Bool, true, false, min, max, ltb, inl, inr,
  Bool-cases, arith,
}
use native.Mathlib.Nat.{div-mul-le_self}
use rabbit_backend.Clicker.State.{UserHash, or_else}
use rabbit_backend.Clicker.Boost.{
  has_infinite_energy, token_burst, Tokens, refill_tokens, refill_tokens_le, take_tokens_pays,
}
use rabbit_backend.Clicker.Energy.{computed_units, outer_regen_bounds}
use rabbit_backend.Clicker.Auto.{
  Cycle, Bank, Rates, auto_tick_ms, tick_regen, open_cycle, accumulate,
}
use rabbit_backend.Clicker.Auto.Bounds.{Swept, simulate_window_bounds}
use rabbit_backend.Clicker.Click.{
  boost_of, rates_of, regen_of, accumulated, accept, count_crits, crits_of, debited,
}

-- Fewer ticks are also at most more.
Swept-mono : {r : Rates} {m n : ℕ} {b b' : Bank} → m ≤ n → Swept r m b b' → Swept r n b b'
Swept-mono h s = grind arith

-- The whole autoclicker block: ticks for at most the time since the last click, all of them paid.
accumulate-Swept :
    (r : Rates) (max_idle idle_threshold now lc : ℕ) (c : Cycle) (b : Bank)
    → 0 < r.cost
    → b.energy ≤ r.max_e
    → Swept r ((now - lc) / auto_tick_ms) b (accumulate r max_idle idle_threshold now lc c b).1
unfolding accumulate
accumulate-Swept r max_idle idle_threshold now lc c b p e =
    let o = open_cycle idle_threshold now lc b.count c in
    let to = min now (o.start + max_idle * 1000) in
    let from = max o.last (lc + idle_threshold) in
    let window = simulate_window_bounds r from to (record b { last = o.last }) p e in
    let fewer : (to - from) / auto_tick_ms ≤ (now - lc) / auto_tick_ms = omega arith in
    let swept = Swept-mono fewer window.0 in
    elim (Bool-cases (ltb 0 max_idle)) [
      | inr locked ↦ rw locked (omega arith)
      | inl unlocked ↦ elim (Bool-cases (ltb 0 o.start)) [
        | inl started ↦ rw (unlocked, started) (omega arith)
        | inr idle ↦ rw (unlocked, idle) (omega arith)
      ]
    ]

-- What the accepted clicks cost in energy.
abbrev pub charge : Bool → ℕ → ℕ
charge true _ = 0
charge false price = price

-- What `accept` may take: no more than was asked for, and no more than the energy pays for when
-- the clicks are not free.
pub accept_bounds :
    (infinite : Bool) (req now cost energy : ℕ) (t : Tokens)
    → 0 < cost
    → t.balance ≤ token_burst
    → let taken = accept infinite req now cost energy t in
      (taken.0 ≤ req)
      × (taken.1.balance ≤ token_burst)
      × (debited infinite energy taken.0 cost + charge infinite (taken.0 * cost) ≡ energy)
unfolding accept debited
accept_bounds true req now cost energy t p b =
    let u = refill_tokens now t in
    let kept = refill_tokens_le now t b in
    let (paid, asked) = take_tokens_pays req u in (asked, omega arith, omega arith)
accept_bounds false req now cost energy t p b =
    let fits : min req (energy / cost) * cost ≤ energy =
      grind (arith, div-mul-le_self energy cost) in
    (omega arith, b, omega arith)

count_crits_le : (chance : ℕ) (roll : ℕ → ℕ) (n : ℕ) → count_crits chance roll n ≤ n
unfolding count_crits
count_crits_le chance roll zero = omega arith
count_crits_le chance roll (suc n) = ground (arith, count_crits_le chance roll n)

pub crits_of_le : (chance : ℕ) (roll : ℕ → ℕ) (n : ℕ) → crits_of chance roll n ≤ n
unfolding crits_of
crits_of_le chance roll n = ground (arith, count_crits_le chance roll n)

-- The local `infinite_energy` of a call at `now`.
abbrev pub is_free : ℕ → UserHash → Bool
is_free now h = has_infinite_energy now (boost_of h)

-- The energy that a call may spend: what was there, what the time since the last call regenerates,
-- and what each tick that fits since the last click regenerates.
abbrev pub energy_income : ℕ → ℕ → UserHash → ℕ
energy_income now cost_raw h =
    h.energy
    + computed_units h.regen (now - or_else h.last_ts now)
    + (now - h.last_click) / auto_tick_ms * tick_regen (rates_of cost_raw h)

-- Before the clicks: the autoclicker's bank and the energy that it leaves.
pub accumulated-Swept :
    (idle_threshold now cost_raw : ℕ) (h : UserHash)
    → Swept
        (rates_of cost_raw h)
        ((now - h.last_click) / auto_tick_ms)
        (record {
          energy = (regen_of now h).energy;
          count = h.pending_count;
          value = h.pending_value;
          credited = 0;
          last = h.auto_last;
        })
        (accumulated idle_threshold now cost_raw h).1
unfolding accumulated
accumulated-Swept idle_threshold now cost_raw h =
    accumulate-Swept (rates_of cost_raw h) h.auto_max_idle idle_threshold now h.last_click _ _
      (omega arith) (outer_regen_bounds h.regen h.max_energy (or_else h.last_ts now) now h.energy).0
