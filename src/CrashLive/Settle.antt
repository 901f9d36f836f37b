-- ===== src/CrashLive/Settle.antt =====
-- The ticks of a round settle its participants as one settlement at the last multiplier does.
use rabbit_backend.Prelude.{
  ℕ, ◌≤◌, ◌<◌, ◌≡◌, refl, ap, ◌∙◌, true, false, some, List, [], ◌∷◌, leb, All, Bool-cases, inl, inr,
  arith,
}
use rabbit_backend.Prelude.Texts.{take_units}
use rabbit_backend.CrashLive.{
  running, crashed, Participant, is_participating, cash_out_if_due, cash_out_due_participants,
  settle_participant, settle_crash_participants,
}
use rabbit_backend.CrashLive.Round.{
  CrashLive, crash_live_history_limit, Draws, multiplier_at, crash_if_reached, tick_in, tick,
  run_ticks,
}

-- A participant who is cashed out below the multiplier of the settlement is settled alike.
settle-cash_out_if_due_low :
    (m n : ℕ) (p : Participant)
    → m ≤ n
    → settle_participant n (cash_out_if_due m p) ≡ settle_participant n p
settle-cash_out_if_due_low m n p h = elim (Bool-cases (is_participating p.status)) [
  | inr out ↦ rw (out, out) refl
  | inl playing ↦ elim (Bool-cases (leb p.target_multiplier m)) [
    | inl due ↦
        let later : leb p.target_multiplier n ≡ true = ground arith in rw (playing, due, later) refl
    | inr early ↦ rw (playing, early, playing) refl
  ]
]

settle-cash_out_if_due :
    (crash_point n : ℕ) (p : Participant)
    → crash_point ≤ n
    → settle_participant crash_point (cash_out_if_due n p) ≡ settle_participant n p
settle-cash_out_if_due crash_point n p h = elim (Bool-cases (is_participating p.status)) [
  | inr out ↦ rw (out, out) refl
  | inl playing ↦ elim (Bool-cases (leb p.target_multiplier n)) [
    | inl due ↦ rw (playing, due) refl
    | inr above ↦
        let beyond : leb p.target_multiplier crash_point ≡ false = ground arith in
        rw (playing, above, playing, beyond) refl
  ]
]

settle-cash_out_due_participants_low :
    (participants : List Participant) (m n : ℕ)
    → m ≤ n
    → settle_crash_participants (cash_out_due_participants participants m) n
      ≡ settle_crash_participants participants n
unfolding cash_out_due_participants settle_crash_participants
settle-cash_out_due_participants_low [] m n h = refl
settle-cash_out_due_participants_low (p ∷ rest) m n h =
    rw (settle-cash_out_if_due_low m n p h, settle-cash_out_due_participants_low rest m n h) refl

settle-cash_out_due_participants :
    (participants : List Participant) (crash_point n : ℕ)
    → crash_point ≤ n
    → settle_crash_participants (cash_out_due_participants participants n) crash_point
      ≡ settle_crash_participants participants n
unfolding cash_out_due_participants settle_crash_participants
settle-cash_out_due_participants [] crash_point n h = refl
settle-cash_out_due_participants (p ∷ rest) crash_point n h =
    rw
      (
        settle-cash_out_if_due crash_point n p h,
        settle-cash_out_due_participants rest crash_point n h,
      )
      refl

module _ (pow_175 pow_21 : ℕ → ℕ) where
  -- A tick that does not crash keeps the round and cashes out what is due.
  abbrev pub moved_on : ℕ → CrashLive → CrashLive
  moved_on now s =
      let multiplier = multiplier_at pow_175 pow_21 s now in
      record s {
        current_multiplier = multiplier;
        participants = cash_out_due_participants s.participants multiplier;
      }

  abbrev pub ended_at : ℕ → ℕ → CrashLive → CrashLive
  ended_at now crash_point s = record s {
    current_multiplier = crash_point;
    participants = settle_crash_participants s.participants (multiplier_at pow_175 pow_21 s now);
    round_history = take_units crash_live_history_limit (crash_point ∷ s.round_history);
    phase = crashed;
    phase_started_at = now;
  }

  tick_in_round :
      (now : ℕ) (draws : Draws) (s : CrashLive) (crash_point : ℕ)
      → s.phase ≡ running
      → s.crash_point ≡ some crash_point
      → tick pow_175 pow_21 now draws s
        ≡ crash_if_reached pow_175 pow_21 now (some crash_point) (moved_on now s)
  unfolding tick
  tick_in_round now draws s crash_point phase point =
      ap (λ ph. tick_in pow_175 pow_21 ph now draws s) phase
      ∙ ap (λ c. crash_if_reached pow_175 pow_21 now c (moved_on now s)) point

  pub tick_moves_on :
      (now : ℕ) (draws : Draws) (s : CrashLive) (crash_point : ℕ)
      → s.phase ≡ running
      → s.crash_point ≡ some crash_point
      → multiplier_at pow_175 pow_21 s now < crash_point
      → tick pow_175 pow_21 now draws s ≡ moved_on now s
  tick_moves_on now draws s crash_point phase point below =
      let not_yet : leb crash_point (multiplier_at pow_175 pow_21 s now) ≡ false = ground arith in
      tick_in_round now draws s crash_point phase point ∙ rw not_yet refl

  pub tick_ends :
      (now : ℕ) (draws : Draws) (s : CrashLive) (crash_point : ℕ)
      → s.phase ≡ running
      → s.crash_point ≡ some crash_point
      → crash_point ≤ multiplier_at pow_175 pow_21 s now
      → tick pow_175 pow_21 now draws s ≡ ended_at now crash_point s
  tick_ends now draws s crash_point phase point reached =
      let over : leb crash_point (multiplier_at pow_175 pow_21 s now) ≡ true = ground arith in
      let once =
        settle-cash_out_due_participants s.participants crash_point
          (multiplier_at pow_175 pow_21 s now) reached in
      tick_in_round now draws s crash_point phase point ∙ rw (over, once) refl

  -- A running round with its crash point, ticks at which the multiplier is below that point, in any
  -- order, and a tick at which it is not: the round ends with the crash point as its multiplier, and
  -- the participants, whom the ticks have cashed out one after the other, are as one settlement at the
  -- multiplier of the last tick leaves them. That multiplier may be above the crash point.
  pub round_settles_once :
      (ticks : List (ℕ × Draws)) (now : ℕ) (draws : Draws) (s : CrashLive) (crash_point : ℕ)
      → s.phase ≡ running
      → s.crash_point ≡ some crash_point
      → All (λ t. multiplier_at pow_175 pow_21 s (t.0) < crash_point) ticks
      → crash_point ≤ multiplier_at pow_175 pow_21 s now
      → tick pow_175 pow_21 now draws (run_ticks pow_175 pow_21 ticks s)
        ≡ ended_at now crash_point s
  unfolding run_ticks
  round_settles_once [] now draws s crash_point phase point below reached =
      tick_ends now draws s crash_point phase point reached
  round_settles_once ((first, first_draws) ∷ rest) now draws s crash_point phase point (here, below)
        reached =
      let multiplier = multiplier_at pow_175 pow_21 s first in
      let last = multiplier_at pow_175 pow_21 s now in
      let again =
        round_settles_once rest now draws (moved_on first s) crash_point phase point below
          reached in
      let settled : settle_crash_participants (cash_out_due_participants s.participants multiplier)
            last
          ≡ settle_crash_participants s.participants last =
        settle-cash_out_due_participants_low s.participants multiplier last (omega arith) in
      ap (λ r. tick pow_175 pow_21 now draws (run_ticks pow_175 pow_21 rest r))
        (tick_moves_on first first_draws s crash_point phase point here)
      ∙ again
      ∙ rw settled refl
