-- ===== src/CrashLive/Tests.antt =====
-- A concrete round of the live crash, and what the theorems say of it.
use rabbit_backend.Prelude.{ℕ, ◌≤◌, ◌≡◌, refl, none, some, List, [], ◌∷◌, ◌++◌, map, arith}
use rabbit_backend.Prelude.Money.{round_div}
use rabbit_backend.Prelude.Texts.{codes}
use rabbit_backend.CrashLive.{
  Phase, ChosenBot, build_crash_bot_participant, get_crash_round_multiplier, generate_crash_point,
  settle_crash_participants,
}
use rabbit_backend.CrashLive.Round.{
  CrashLive, Draws, build_participants, build_round_participants, participants_arrive, tick,
  run_ticks,
}
use rabbit_backend.CrashLive.Settle.{ended_at, round_settles_once}
use rabbit_backend.CrashLive.Ends.{round_ends}

abbrev bot : ℕ → ChosenBot
bot target = record {
  profile_id = target;
  display_name = codes "bot";
  avatar = none;
  stake = 1000;
  target_multiplier = target;
  join_offset_ms = 0;
}

-- A power between 0 and 1
abbrev half : ℕ → ℕ
half _ = 500000

abbrev nothing : ℕ → ℕ
nothing _ = 0

abbrev live : CrashLive
live = participants_arrive (bot 110 ∷ bot 150 ∷ bot 300 ∷ []) (record {
  phase = Phase.waiting;
  round_id = 1;
  phase_started_at = 0;
  current_multiplier = 100;
  countdown_ms = 15000;
  crash_point = none;
  participants = [];
  round_history = [];
})

-- The crash point is 1.25 + 4.50 + 0.60.
crash_point_of_draws : generate_crash_point half 200000 0 500000 ≡ 635
unfolding generate_crash_point round_div
crash_point_of_draws = refl

round_ends_example :
    let crash_point = generate_crash_point half 200000 0 500000 in
    let started = tick nothing half 15000 (200000, 0, 500000) live in
    (100 ≤ crash_point)
    × ((before : List (ℕ × Draws)) × (t : ℕ) × (draws : Draws) × (after : List (ℕ × Draws)) × (((
      100000,
      (0, 0, 0),
    )
              ∷ [])
            ++ ((300000, (0, 0, 0)) ∷ [])
          ≡ before ++ ((t, draws) ∷ after))
        × (tick nothing half t draws (run_ticks nothing half before started)
            ≡ ended_at nothing half t crash_point started))
unfolding participants_arrive
round_ends_example =
    round_ends nothing half 15000 200000 0 500000 ((100000, (0, 0, 0)) ∷ []) 300000 (0, 0, 0) live
      (λ _. omega arith) (omega arith) (omega arith) refl (omega arith) (omega arith)

-- A round that runs since 0 with a crash point of 1.40
abbrev running_round : CrashLive
running_round = record live { phase = Phase.running; crash_point = some 140 }

-- At 10 seconds the multiplier is 1.45, at 20 seconds 1.90.
round_settles_once_example :
    tick nothing half 20000
      (0, 0, 0)
      (run_ticks nothing half ((8000, (0, 0, 0)) ∷ []) running_round)
    ≡ ended_at nothing half 20000 140 running_round
unfolding get_crash_round_multiplier round_div participants_arrive
round_settles_once_example =
    round_settles_once nothing half ((8000, (0, 0, 0)) ∷ []) 20000 (0, 0, 0) running_round 140 refl
      refl (omega arith, tt) (omega arith)

-- The bot with a target of 1.50 is paid, above the crash point of 1.40.
paid_above_crash_point :
    map (λ p. p.payout) (ended_at nothing half 20000 140 running_round).participants
    ≡ 1100 ∷ 1500 ∷ 0 ∷ []
unfolding get_crash_round_multiplier round_div participants_arrive settle_crash_participants
    build_round_participants build_participants build_crash_bot_participant
paid_above_crash_point = refl
