-- ===== src/CrashLive/Ends.antt =====
-- A round ends, and the next one starts.
use rabbit_backend.Prelude.{
  ℕ, ◌+◌, ◌-◌, ◌*◌, ◌≤◌, ◌<◌, ◌≡◌, refl, ap, ◌∙◌, true, some, List, [], ◌∷◌, ◌++◌, All, leb, ltb,
  leb→le, ◌/◌, Bool-cases, inl, inr, arith,
}
use rabbit_backend.Prelude.Money.{round_div}
use rabbit_backend.CrashLive.{waiting, running, get_crash_round_multiplier, generate_crash_point}
use rabbit_backend.CrashLive.Round.{
  CrashLive, crash_live_wait_ms, Draws, multiplier_at, tick_in, tick, run_ticks,
}
use rabbit_backend.CrashLive.Settle.{ended_at, round_settles_once}

-- The multiplier grows by 0.01 in less than 223 milliseconds.
get_crash_round_multiplier_reaches :
    (pow : ℕ → ℕ) (crash_point elapsed_ms : ℕ)
    → 223 * crash_point ≤ elapsed_ms
    → crash_point ≤ get_crash_round_multiplier pow elapsed_ms
unfolding get_crash_round_multiplier round_div
get_crash_round_multiplier_reaches pow crash_point elapsed_ms h =
    let grown : crash_point
        ≤ (2 * (10000000000 + 450000 * elapsed_ms + 65 * pow elapsed_ms) + 100000000) / 200000000 =
      grind arith in
    grind arith

generate_crash_point_bounds :
    (pow : ℕ → ℕ) (first second third : ℕ)
    → ((u : ℕ) → pow u ≤ 1000000)
    → second ≤ 1000000
    → third ≤ 1000000
    → (100 ≤ generate_crash_point pow first second third)
      × (generate_crash_point pow first second third ≤ 1145)
unfolding generate_crash_point round_div
generate_crash_point_bounds pow first second third small h k =
    let power = small second in
    elim (Bool-cases (ltb first 130000)) [
      | inl early ↦ rw early (grind arith, grind arith)
      | inr late ↦ rw late (grind arith, grind arith)
    ]

-- The first tick at which a quantity has reached a bound
first_end :
    (m : ℕ → ℕ) (bound : ℕ) (ticks : List (ℕ × Draws)) (last : ℕ) (last_draws : Draws)
    → bound ≤ m last
    → (before : List (ℕ × Draws)) × (t : ℕ) × (draws : Draws) × (after : List (ℕ × Draws)) × (ticks
          ++ ((last, last_draws) ∷ [])
        ≡ before ++ ((t, draws) ∷ after))
      × All (λ u. m (u.0) < bound) before
      × (bound ≤ m t)
first_end m bound [] last last_draws h = ([], last, last_draws, [], refl, tt, h)
first_end m bound ((now, draws) ∷ rest) last last_draws h = elim (Bool-cases (leb bound (m now))) [
  | inl reached ↦
      ([], now, draws, rest ++ ((last, last_draws) ∷ []), refl, tt, leb→le bound (m now) reached)
  | inr below ↦
      let (before, t, d, after, split, low, reached) = first_end m bound rest last last_draws h in
      (
        (now, draws) ∷ before,
        t,
        d,
        after,
        ap (λ l. (now, draws) ∷ l) split,
        (ground arith, low),
        reached,
      )
]

module _ (pow_175 pow_21 : ℕ → ℕ) where
  -- A list of ticks with one that is late enough has a first one that ends the round.
  ends_in :
      (ticks : List (ℕ × Draws)) (last : ℕ) (last_draws : Draws) (s : CrashLive) (crash_point : ℕ)
      → s.phase ≡ running
      → s.crash_point ≡ some crash_point
      → crash_point ≤ multiplier_at pow_175 pow_21 s last
      → (before : List (ℕ × Draws)) × (t : ℕ) × (draws : Draws) × (after : List (ℕ × Draws))
        × (ticks ++ ((last, last_draws) ∷ []) ≡ before ++ ((t, draws) ∷ after))
        × (tick pow_175 pow_21 t draws (run_ticks pow_175 pow_21 before s)
            ≡ ended_at pow_175 pow_21 t crash_point s)
  ends_in ticks last last_draws s crash_point phase point late =
      let (before, t, draws, after, split, below, reached) =
        first_end (multiplier_at pow_175 pow_21 s) crash_point ticks last last_draws late in
      (
        before,
        t,
        draws,
        after,
        split,
        round_settles_once pow_175 pow_21 before t draws s crash_point phase point below reached,
      )

  -- A waiting round, a tick when the wait is over, and then ticks at any moments of which the last is
  -- 255335 milliseconds later: the first tick starts the round with a crash point of at least 1.00, and
  -- one of the others ends it there, as one settlement of the participants. `pow_21` is a power of a
  -- number between 0 and 1.
  pub round_ends :
      (start first second third : ℕ) (ticks : List (ℕ × Draws)) (last : ℕ) (last_draws : Draws)
      (s : CrashLive)
      → ((u : ℕ) → pow_21 u ≤ 1000000)
      → second ≤ 1000000
      → third ≤ 1000000
      → s.phase ≡ waiting
      → crash_live_wait_ms ≤ start - s.phase_started_at
      → 255335 ≤ last - start
      → let crash_point = generate_crash_point pow_21 first second third in
        let started = tick pow_175 pow_21 start (first, second, third) s in
        (100 ≤ crash_point)
        × ((before : List (ℕ × Draws)) × (t : ℕ) × (draws : Draws) × (after : List (ℕ × Draws))
            × (ticks ++ ((last, last_draws) ∷ []) ≡ before ++ ((t, draws) ∷ after))
            × (tick pow_175 pow_21 t draws (run_ticks pow_175 pow_21 before started)
                ≡ ended_at pow_175 pow_21 t crash_point started))
  unfolding tick
  round_ends start first second third ticks last last_draws s small h k phase waited late =
      let crash_point = generate_crash_point pow_21 first second third in
      let (low, high) = generate_crash_point_bounds pow_21 first second third small h k in
      let over : leb (crash_live_wait_ms - (start - s.phase_started_at)) 0 ≡ true = ground arith in
      let running_state : CrashLive = record s {
        countdown_ms = crash_live_wait_ms - (start - s.phase_started_at);
        phase = running;
        phase_started_at = start;
        current_multiplier = 100;
        crash_point = some crash_point;
      } in
      let begun : tick pow_175 pow_21 start (first, second, third) s ≡ running_state =
        ap (λ ph. tick_in pow_175 pow_21 ph start (first, second, third) s) phase ∙ rw over refl in
      let reached =
        get_crash_round_multiplier_reaches pow_175 crash_point (last - start) (omega arith) in
      (low, rw begun (ends_in ticks last last_draws running_state crash_point refl refl reached))
