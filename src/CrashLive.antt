-- ===== src/CrashLive.antt =====
-- The shared live crash: src/modules/crashLive, the participants of crash-live.logic.ts and the round
-- of crash-live.service.ts. Stakes and multipliers are in hundredths, a random number is a number of
-- millionths. `Math.pow` is a parameter. Which bots join a round, with which stakes, targets and times
-- of joining, is drawn at random by src/modules/bots and scheduleCrashParticipantJoins, and is an
-- input here.
pub mod Round
pub mod Settle
pub mod Ends
pub mod Tests
use rabbit_backend.Prelude.{
  ℕ, ◌+◌, ◌-◌, ◌*◌, ◌/◌, max, Bool, true, false, ◌&&◌, Option, none, some, List, [], ◌∷◌, map, keep,
  leb, ltb, if◌then◌else◌,
}
use rabbit_backend.Prelude.Money.{round_div}
use rabbit_backend.Prelude.Texts.{Text}

-- `CrashLivePhase`
pub data Phase : Type 0 where
  waiting running crashed : Phase

-- `CrashLiveParticipantStatus`
pub data ParticipantStatus : Type 0 where
  active cashed_out crashed : ParticipantStatus

-- `profit`, which is below zero for a lost stake
pub data Profit : Type 0 where
  gained lost : ℕ → Profit

pub record Participant : Type 0 where
  pub id : ℕ × ℕ × ℕ  -- the round, the bot and the slot in `bot-${roundId}-${profile.id}-${slot}`
  pub user_id : ℕ
  pub player_name : Text
  pub avatar : Option Text
  pub slot : ℕ
  pub stake : ℕ
  pub join_offset_ms : ℕ
  pub status : ParticipantStatus
  pub target_multiplier : ℕ
  pub cashout_multiplier : Option ℕ
  pub payout : ℕ
  pub profit : Profit

-- A bot that has been chosen for a round
pub record ChosenBot : Type 0 where
  pub profile_id : ℕ
  pub display_name : Text
  pub avatar : Option Text
  pub stake : ℕ
  pub target_multiplier : ℕ
  pub join_offset_ms : ℕ

-- `buildCrashBotParticipant`, with the time of joining that the schedule gives it
unfoldable pub build_crash_bot_participant : ℕ → ℕ → ChosenBot → Participant
build_crash_bot_participant round_id slot bot = record {
  id = (round_id, bot.profile_id, slot);
  user_id = bot.profile_id;
  player_name = bot.display_name;
  avatar = bot.avatar;
  slot = slot;
  stake = bot.stake;
  join_offset_ms = bot.join_offset_ms;
  status = active;
  target_multiplier = bot.target_multiplier;
  cashout_multiplier = none;
  payout = 0;
  profit = gained 0;
}

abbrev pub is_participating : ParticipantStatus → Bool
is_participating active = true
is_participating _ = false

-- The participant that takes the target: `payout` and `profit` are `roundBotMoney`, which is never
-- below zero.
abbrev pub cashed_out_at_target : Participant → Participant
cashed_out_at_target p =
    let payout = round_div (p.stake * p.target_multiplier) 100 in
    record p {
      status = cashed_out;
      cashout_multiplier = some p.target_multiplier;
      payout = payout;
      profit = gained (payout - p.stake);
    }

abbrev pub crashed_participant : Participant → Participant
crashed_participant p = record p {
  status = ParticipantStatus.crashed;
  payout = 0;
  profit = lost p.stake;
}

abbrev pub cash_out_if_due : ℕ → Participant → Participant
cash_out_if_due multiplier p =
    if is_participating p.status && leb p.target_multiplier multiplier
    then cashed_out_at_target p
    else p

-- `cashOutDueParticipants`
unfoldable pub cash_out_due_participants : List Participant → ℕ → List Participant
cash_out_due_participants participants multiplier = map (cash_out_if_due multiplier) participants

abbrev pub settle_participant : ℕ → Participant → Participant
settle_participant multiplier p =
    if is_participating p.status
    then (if leb p.target_multiplier multiplier
        then cashed_out_at_target p
        else crashed_participant p)
    else p

-- `settleCrashParticipants`
unfoldable pub settle_crash_participants : List Participant → ℕ → List Participant
settle_crash_participants participants multiplier = map (settle_participant multiplier) participants

abbrev pub is_waiting : Phase → Bool
is_waiting waiting = true
is_waiting _ = false

-- `getVisibleCrashParticipants`
unfoldable pub get_visible_crash_participants : List Participant → ℕ → Phase → List Participant
get_visible_crash_participants participants elapsed_ms phase =
    if is_waiting phase
    then keep (λ p. leb p.join_offset_ms elapsed_ms) participants
    else participants

-- `getCrashRoundMultiplier`; `pow` gives (t / 1000) ^ 1.75 of `t` milliseconds, in millionths.
unfoldable pub get_crash_round_multiplier : (ℕ → ℕ) → ℕ → ℕ
get_crash_round_multiplier pow elapsed_ms =
    max 100 (round_div (10000000000 + 450000 * elapsed_ms + 65 * pow elapsed_ms) 100000000)

-- `generateCrashPoint` from three random numbers; `pow` gives the power of 2.1.
unfoldable pub generate_crash_point : (ℕ → ℕ) → ℕ → ℕ → ℕ → ℕ
generate_crash_point pow first second third =
    if ltb first 130000
    then round_div (100000000 + 35 * second) 1000000
    else round_div (125000000 + 900 * pow second + 120 * third) 1000000

-- `pickCrashParticipantCount` from two random numbers
unfoldable pub pick_crash_participant_count : ℕ → ℕ → ℕ
pick_crash_participant_count tier_roll roll =
    if ltb tier_roll 120000
    then 3 + floor_of roll 3
    else (if ltb tier_roll 720000
        then 6 + floor_of roll 7
        else (if ltb tier_roll 940000 then 13 + floor_of roll 5 else 18 + floor_of roll 3))
  where
    floor_of : ℕ → ℕ → ℕ
    floor_of roll n = roll * n / 1000000
