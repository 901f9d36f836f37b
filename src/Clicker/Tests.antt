-- ===== src/Clicker/Tests.antt =====
-- Concrete users of the clicker, and what the theorems say of them.
use rabbit_backend.Prelude.{
  ℕ, ◌+◌, ◌-◌, ◌*◌, ◌/◌, ◌≡◌, ◌≢◌, refl, false, none, some, List, [], ◌∷◌, arith,
}
use rabbit_backend.Clicker.State.{Effect, UserHash, Store}
use rabbit_backend.Clicker.Energy.{computed_units}
use rabbit_backend.Clicker.Auto.{auto_tick_ms, Bank, Rates, tick_regen, simulate_window}
use rabbit_backend.Clicker.Auto.Bulk.{ticks, simulate_window-eq-ticks}
use rabbit_backend.Clicker.Click.{rates_of, click}
use rabbit_backend.Clicker.Click.Accounts.{Outcome, click-Outcome}
use rabbit_backend.Clicker.Click.Overlap.{click_regenerates_twice}
use rabbit_backend.Clicker.Spend.{until, activate_boost}
use rabbit_backend.Clicker.Spend.History.{
  Call, do_click, do_deduct, do_claim, do_activate, IsValid, Balanced, run, run_keeps,
}

-- Two units for each tick, a click costs one.
abbrev rates : Rates
rates = record { regen = 400; cost = 1; max_e = 100 }

abbrev bank : Bank
bank = record { energy = 10; count = 2; value = 2; credited = 0; last = 0 }

simulate_window-eq-ticks_example :
    simulate_window rates 1000 51000 bank
    ≡ ticks ((51000 - 1000) / auto_tick_ms) rates (1000 + auto_tick_ms) bank
simulate_window-eq-ticks_example =
    simulate_window-eq-ticks rates 1000 51000 bank (omega arith) (omega arith)

-- A user whose autoclicker is unlocked and who has clicked at 1000000.
abbrev player : UserHash
player = record {
  points = some 50;
  total_points = 80;
  energy = 10;
  last_ts = some 1000000;
  cost = some 1;
  max_energy = 1000;
  regen = 400;
  level = 1;
  click_level = 1;
  energy_level = 1;
  next_level_cost = 500;
  crit_chance = 10;
  auto_start = 0;
  auto_max_idle = 3600;
  auto_last = 0;
  boost_key = "";
  boost_at = 0;
  boost_effect = Effect.unset;
  boost_value = 0;
  last_click = 1000000;
  pending_count = 0;
  pending_value = 0;
  tokens = none;
  token_ts = none;
}

abbrev store : Store
store = record { user = player; dirty = false }

-- A user who has banked seven ticks.
abbrev idle_store : Store
idle_store = record { user = record player { pending_count = 7; pending_value = 7 }; dirty = false }

abbrev dice : ℕ → ℕ
dice n = n * 37

click-Outcome_example :
    let (res, s') = click dice 5 1200000 60000 store in Outcome (some 1) 5 1200000 store res s'
click-Outcome_example = click-Outcome dice 5 1200000 60000 store

player-IsValid : IsValid player
player-IsValid = record {
  energy_capped = omega arith;
  covered = omega arith;
  bank_worth = omega arith;
  bucket_capped = omega arith;
}

abbrev calls : List Call
calls =
    do_click dice 5 1200000 60000
    ∷ do_deduct 20
    ∷ do_claim 1300000
    ∷ do_activate 1300001 30 Effect.infinite_energy 0 "rage"
    ∷ do_click dice 9 1300500 60000
    ∷ []

run_keeps_example :
    let (s', spent) = run calls store in IsValid s'.user × Balanced spent store.user s'.user
run_keeps_example = run_keeps calls store player-IsValid

loaded : idle_store.user.points ≢ none
loaded e = ground arith

abbrev boosted_store : Store
boosted_store = record {
  user = record player {
    boost_key = "rage";
    boost_at = 1330000;
    boost_effect = Effect.multiplier;
    boost_value = 2;
  };
  dirty = false;
}

boost_starts :
    activate_boost 1300000 30 Effect.multiplier 2 "rage" store ≡ (until 1330000, boosted_store)
unfolding activate_boost
boost_starts = refl

click_regenerates_twice_example :
    (click dice 0 (1000000 + 60000 + 10 * auto_tick_ms) 60000 store).1.user.energy + 10 * 1
    ≡ 10 + computed_units 400 (60000 + 10 * auto_tick_ms) + 10 * tick_regen (rates_of 1 player)
click_regenerates_twice_example =
    click_regenerates_twice dice 10 60000 1 store refl refl (omega arith) refl refl (omega arith)
      (omega arith) (omega arith) (omega arith)
