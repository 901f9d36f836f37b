-- ===== src/Clicker/Click/Overlap.antt =====
-- The call that closes an idle window: its outer regeneration spans the whole time since the last
-- call, and the ticks of the same call regenerate their part of that time once more.
use rabbit_backend.Prelude.{
  ℕ, ◌+◌, ◌-◌, ◌*◌, ◌/◌, ◌≤◌, ◌<◌, ◌≡◌, refl, Bool, true, false, some, min, max, ltb, arith,
}
use rabbit_backend.Clicker.State.{UserHash, Store}
use rabbit_backend.Clicker.Boost.{Tokens, take_tokens}
use rabbit_backend.Clicker.Energy.{outer_regen, computed_units}
use rabbit_backend.Clicker.Auto.{
  Bank, Rates, auto_tick_ms, tick_regen, open_cycle, simulate_window, bulk_ticks, accumulate,
}
use rabbit_backend.Clicker.Click.{
  tokens_of, rates_of, accumulated, accept, debited, click_loaded, click,
}
use rabbit_backend.Clicker.Click.Books.{is_free}

accept_none :
    (infinite : Bool) (now cost energy : ℕ) (t : Tokens)
    → (accept infinite 0 now cost energy t).0 ≡ 0
unfolding accept take_tokens
accept_none true now cost energy t = omega arith
accept_none false now cost energy t = omega arith

debited_none :
    (infinite : Bool) (energy accepted cost : ℕ)
    → accepted ≡ 0
    → debited infinite energy accepted cost ≡ energy
unfolding debited
debited_none true energy accepted cost h = refl
debited_none false energy accepted cost h = rw h (omega arith)

outer_regen_room :
    (regen max_e last_ts now energy : ℕ)
    → 0 < regen
    → energy + computed_units regen (now - last_ts) ≤ max_e
    → (outer_regen regen max_e last_ts now energy).energy
      ≡ energy + computed_units regen (now - last_ts)
unfolding outer_regen
outer_regen_room regen max_e last_ts now energy p room = ground arith

net_plus_cost : (n a c : ℕ) → c ≤ a → n * (a - c) + n * c ≡ n * a
net_plus_cost n a c h = grind arith

le-mul_pos' : (n c : ℕ) → 0 < n → c ≤ n * c
le-mul_pos' n c h = grind arith

window_room :
    (r : Rates) (n sim_from : ℕ) (b : Bank)
    → 0 < n
    → r.cost ≤ tick_regen r
    → b.energy + n * tick_regen r ≤ r.max_e
    → (simulate_window r sim_from (sim_from + n * auto_tick_ms) b).energy + n * r.cost
      ≡ b.energy + n * tick_regen r
unfolding simulate_window bulk_ticks
window_room r n sim_from b p covered room =
    let rounds : (sim_from + n * auto_tick_ms - sim_from) / auto_tick_ms ≡ n = omega arith in
    let split = net_plus_cost n (tick_regen r) r.cost covered in
    let once = le-mul_pos' n r.cost p in rw rounds (ground arith)

open_cycle_fresh :
    (idle_threshold now lc count last : ℕ)
    → 0 < lc
    → count ≡ 0
    → idle_threshold ≤ now - lc
    → open_cycle idle_threshold now lc count (record { start = 0; last = last })
      ≡ record { start = lc + idle_threshold; last = lc + idle_threshold }
unfolding open_cycle
open_cycle_fresh idle_threshold now lc count last p e h = ground arith

accumulate_room :
    (r : Rates) (n max_idle idle_threshold lc : ℕ) (b : Bank)
    → 0 < n
    → 0 < lc
    → b.count ≡ 0
    → n * auto_tick_ms ≤ max_idle * 1000
    → r.cost ≤ tick_regen r
    → b.energy + n * tick_regen r ≤ r.max_e
    → (accumulate r max_idle idle_threshold
          (lc + idle_threshold + n * auto_tick_ms)
          lc
          (record { start = 0; last = b.last })
          b).1.energy
        + n * r.cost
      ≡ b.energy + n * tick_regen r
unfolding accumulate
accumulate_room r n max_idle idle_threshold lc b p q none long covered room =
    let from = lc + idle_threshold in
    let now = from + n * auto_tick_ms in
    let fresh = open_cycle_fresh idle_threshold now lc b.count b.last q none (omega arith) in
    let unlocked : ltb 0 max_idle ≡ true = ground arith in
    let started : ltb 0 from ≡ true = ground arith in
    let starts : max from from ≡ from = omega arith in
    let ends : min now (from + max_idle * 1000) ≡ now = omega arith in
    rw (fresh, unlocked, started, starts, ends)
      (window_room r n from (record b { last = from }) p covered room)

-- A call that asks for no clicks keeps the energy that the autoclicker leaves.
click_loaded_none :
    (roll : ℕ → ℕ) (now idle_threshold cost_raw : ℕ) (s : Store)
    → (click_loaded roll 0 now idle_threshold cost_raw s).1.user.energy
      ≡ (accumulated idle_threshold now cost_raw s.user).1.energy
unfolding click_loaded
click_loaded_none roll now idle_threshold cost_raw s =
    let h = s.user in
    let bank = (accumulated idle_threshold now cost_raw h).1 in
    debited_none (is_free now h) bank.energy _ (max cost_raw 1)
      (accept_none (is_free now h) now (max cost_raw 1) bank.energy (tokens_of now h))

accumulated_room :
    (n idle_threshold cost_raw : ℕ) (h : UserHash)
    → h.last_ts ≡ some h.last_click
    → 0 < h.last_click
    → h.auto_start ≡ 0
    → h.pending_count ≡ 0
    → 0 < n
    → n * auto_tick_ms ≤ h.auto_max_idle * 1000
    → max cost_raw 1 ≤ tick_regen (rates_of cost_raw h)
    → h.energy
        + computed_units h.regen (idle_threshold + n * auto_tick_ms)
        + n * tick_regen (rates_of cost_raw h)
      ≤ h.max_energy
    → (accumulated idle_threshold
          (h.last_click + idle_threshold + n * auto_tick_ms)
          cost_raw
          h).1.energy
        + n * max cost_raw 1
      ≡ h.energy
        + computed_units h.regen (idle_threshold + n * auto_tick_ms)
        + n * tick_regen (rates_of cost_raw h)
unfolding accumulated
accumulated_room n idle_threshold cost_raw h synced q fresh empty p long covered room =
    let now = h.last_click + idle_threshold + n * auto_tick_ms in
    let elapsed : now - h.last_click ≡ idle_threshold + n * auto_tick_ms = omega arith in
    let outer =
      outer_regen_room h.regen h.max_energy h.last_click now h.energy (omega arith)
        (rw elapsed (omega arith)) in
    let bank : Bank = record {
      energy = (outer_regen h.regen h.max_energy h.last_click now h.energy).energy;
      count = h.pending_count;
      value = h.pending_value;
      credited = 0;
      last = h.auto_last;
    } in
    let filled : bank.energy
        ≡ h.energy + computed_units h.regen (idle_threshold + n * auto_tick_ms) =
      rw elapsed at outer in
    let swept =
      accumulate_room (rates_of cost_raw h) n h.auto_max_idle idle_threshold h.last_click bank p q
        empty long covered (rw filled room) in
    rw (synced, fresh) (omega (arith, swept, filled))

-- A user whose last call was a click at `last_click`, with an unlocked autoclicker and nothing
-- banked or simulated, asks for the state `n` ticks past the idle threshold; each tick regenerates
-- at least its cost, and there is room for all the energy. Then the energy left and the energy that
-- the `n` ticks cost are exactly what was there, what all of the elapsed time regenerates, and what
-- the `n` ticks regenerate on top: the time of the ticks counts twice.
pub click_regenerates_twice :
    (roll : ℕ → ℕ) (n idle_threshold cost_raw : ℕ) (s : Store)
    → s.user.cost ≡ some cost_raw
    → s.user.last_ts ≡ some s.user.last_click
    → 0 < s.user.last_click
    → s.user.auto_start ≡ 0
    → s.user.pending_count ≡ 0
    → 0 < n
    → n * auto_tick_ms ≤ s.user.auto_max_idle * 1000
    → max cost_raw 1 ≤ tick_regen (rates_of cost_raw s.user)
    → s.user.energy
        + computed_units s.user.regen (idle_threshold + n * auto_tick_ms)
        + n * tick_regen (rates_of cost_raw s.user)
      ≤ s.user.max_energy
    → (click roll 0
          (s.user.last_click + idle_threshold + n * auto_tick_ms)
          idle_threshold
          s).1.user.energy
        + n * max cost_raw 1
      ≡ s.user.energy
        + computed_units s.user.regen (idle_threshold + n * auto_tick_ms)
        + n * tick_regen (rates_of cost_raw s.user)
unfolding click accumulated
click_regenerates_twice roll n idle_threshold cost_raw s known synced q fresh empty p long covered
      room =
    rw (known, click_loaded_none)
      (accumulated_room n idle_threshold cost_raw s.user synced q fresh empty p long covered room)
