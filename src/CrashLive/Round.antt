-- ===== src/CrashLive/Round.antt =====
-- The round of crash-live.service.ts. startWaitingRound waits for the profiles of the bots, and the
-- timer ticks meanwhile: the participants of a new round arrive by a step of their own.
use rabbit_backend.Prelude.{ℕ, ◌+◌, ◌-◌, Option, none, some, List, [], ◌∷◌, leb, if◌then◌else◌}
use rabbit_backend.Prelude.Texts.{take_units}
use rabbit_backend.CrashLive.{
  Phase, waiting, running, crashed, Participant, ChosenBot, build_crash_bot_participant,
  cash_out_due_participants, settle_crash_participants, get_crash_round_multiplier,
  generate_crash_point,
}

abbrev pub crash_live_wait_ms : ℕ
crash_live_wait_ms = 15000

abbrev pub crash_live_reset_ms : ℕ
crash_live_reset_ms = 3200

abbrev pub crash_live_history_limit : ℕ
crash_live_history_limit = 16

-- The fields of `CrashLiveService`
pub record CrashLive : Type 0 where
  pub phase : Phase
  pub round_id : ℕ
  pub phase_started_at : ℕ
  pub current_multiplier : ℕ
  pub countdown_ms : ℕ
  pub crash_point : Option ℕ
  pub participants : List Participant
  pub round_history : List ℕ

-- The participants of the bots that have been chosen, in the order of their slots, from this slot on
unfoldable pub build_participants : ℕ → ℕ → List ChosenBot → List Participant
build_participants round_id slot [] = []
build_participants round_id slot (bot ∷ bots) =
    build_crash_bot_participant round_id slot bot ∷ build_participants round_id (1 + slot) bots

-- `picked.sort((a, b) => b.stake - a.stake)`, which is stable
abbrev pub insert_by_stake : Participant → List Participant → List Participant
insert_by_stake p [] = p ∷ []
insert_by_stake p (q ∷ rest) =
    if leb q.stake p.stake then p ∷ q ∷ rest else q ∷ insert_by_stake p rest

abbrev pub sort_by_stake : List Participant → List Participant
sort_by_stake [] = []
sort_by_stake (p ∷ rest) = insert_by_stake p (sort_by_stake rest)

-- `buildRoundParticipants`; the first slot is 1.
unfoldable pub build_round_participants : ℕ → List ChosenBot → List Participant
build_round_participants round_id bots = sort_by_stake (build_participants round_id 1 bots)

-- `startWaitingRound`, up to its `await`
unfoldable pub start_waiting_round : ℕ → ℕ → CrashLive → CrashLive
start_waiting_round next_round_id now s = record s {
  round_id = next_round_id;
  phase = waiting;
  phase_started_at = now;
  countdown_ms = crash_live_wait_ms;
  current_multiplier = 100;
  crash_point = none;
}

-- `startWaitingRound`, after its `await`
unfoldable pub participants_arrive : List ChosenBot → CrashLive → CrashLive
participants_arrive bots s = record s { participants = build_round_participants s.round_id bots }

-- The three random numbers of a crash point
abbrev pub Draws : Type 0
Draws = ℕ × ℕ × ℕ

module _ (pow_175 pow_21 : ℕ → ℕ) where
  abbrev pub tick_waiting : ℕ → Draws → CrashLive → CrashLive
  tick_waiting now (first, second, third) s =
      let countdown = crash_live_wait_ms - (now - s.phase_started_at) in
      let counted : CrashLive = record s { countdown_ms = countdown } in
      if leb countdown 0
      then record counted {
        phase = running;
        phase_started_at = now;
        current_multiplier = 100;
        crash_point = some (generate_crash_point pow_21 first second third);
      }
      else counted

  -- The multiplier of the round at the moment `now`
  abbrev pub multiplier_at : CrashLive → ℕ → ℕ
  multiplier_at s now = get_crash_round_multiplier pow_175 (now - s.phase_started_at)

  -- `this.crashPoint !== null && this.currentMultiplier >= this.crashPoint`
  abbrev pub crash_if_reached : ℕ → Option ℕ → CrashLive → CrashLive
  crash_if_reached now none s = s
  crash_if_reached now (some crash_point) s =
      if leb crash_point s.current_multiplier
      then record s {
        current_multiplier = crash_point;
        participants = settle_crash_participants s.participants crash_point;
        round_history = take_units crash_live_history_limit (crash_point ∷ s.round_history);
        phase = crashed;
        phase_started_at = now;
      }
      else s

  abbrev pub tick_running : ℕ → CrashLive → CrashLive
  tick_running now s =
      let multiplier = multiplier_at s now in
      let moved : CrashLive = record s {
        current_multiplier = multiplier;
        participants = cash_out_due_participants s.participants multiplier;
      } in
      crash_if_reached now s.crash_point moved

  abbrev pub tick_crashed : ℕ → CrashLive → CrashLive
  tick_crashed now s =
      if leb crash_live_reset_ms (now - s.phase_started_at)
      then start_waiting_round (1 + s.round_id) now s
      else s

  abbrev pub tick_in : Phase → ℕ → Draws → CrashLive → CrashLive
  tick_in waiting now draws s = tick_waiting now draws s
  tick_in running now draws s = tick_running now s
  tick_in crashed now draws s = tick_crashed now s

  -- `tick`, less the publication of the state
  unfoldable pub tick : ℕ → Draws → CrashLive → CrashLive
  tick now draws s = tick_in s.phase now draws s

  -- Ticks at these moments
  unfoldable pub run_ticks : List (ℕ × Draws) → CrashLive → CrashLive
  run_ticks [] s = s
  run_ticks ((now, draws) ∷ rest) s = run_ticks rest (tick now draws s)
