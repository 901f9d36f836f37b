-- ===== src/Giveaways/Steps.antt =====
-- Participants, bots and decisions in any order.
use rabbit_backend.Prelude.{
  ℕ, ◌-◌, ◌≡◌, ap, sym, ◌∙◌, true, false, not, ◌||◌, Option, none, some, List, [], ◌∷◌, length,
  includes, unique, keep, All, leb, ltb, max, ok, Bool-cases, Option-cases, inl, inr, arith,
}
use rabbit_backend.Prelude.Table.{Table, find_row, save_row, find_row-save_row}
use rabbit_backend.Prelude.Rows.{
  Distinct, Known, keep-Known, keep-All, Known-save_row, save_row-Distinct,
}
use rabbit_backend.Giveaways.{
  Giveaway, GiveawayDb, is_active_giveaway, joined, participate, count_bots, GiveawayTier,
  find_giveaway_tier, get_giveaway_bot_target, add_bot_participant, real_id, add_picked,
  should_join_giveaway_bot, pick_giveaway_bot_id, join_one_bot, join_each_bot, is_running_giveaway,
  join_bot_participants, is_expired, finalized, finalize_each, finalize_expired_giveaways,
}
use rabbit_backend.Giveaways.Sound.{
  AllSound, participate-AllSound, join_bot_participants-AllSound,
  finalize_expired_giveaways-AllSound,
}

pub data Step : GiveawayDb → GiveawayDb → Type 0 where
  participated :
      (id uid now : ℕ) {db after : GiveawayDb}
      → participate id uid now db ≡ ok after
      → Step db after
  bots_joined :
      (to_join to_pick : ℕ → ℕ × ℕ) (now : ℕ) (bot_ids : List ℕ) {db : GiveawayDb}
      → Step db (join_bot_participants to_join to_pick now bot_ids db).1
  ended :
      (random : ℕ → ℕ × ℕ) (item_key : ℕ → ℕ) (now : ℕ) {db : GiveawayDb}
      → Step db (finalize_expired_giveaways random item_key now db)

pub data History : GiveawayDb → GiveawayDb → Type 0 where
  start : {db : GiveawayDb} → History db db
  then_step :
      {first middle last : GiveawayDb}
      → History first middle
      → Step middle last
      → History first last

Step-AllSound : (db after : GiveawayDb) → Step db after → AllSound db → AllSound after
Step-AllSound db after (participated id uid now e) all =
    participate-AllSound id uid now db after e all
Step-AllSound db after (bots_joined to_join to_pick now bot_ids) all =
    join_bot_participants-AllSound to_join to_pick now bot_ids db all
Step-AllSound db after (ended random item_key now) all =
    finalize_expired_giveaways-AllSound random item_key now db all

-- What a user, the bots and the end of giveaways do, in any order and with any random numbers, to
-- giveaways in which no participant stands twice, the count is that of the participants, a completed
-- giveaway has a winner among its participants and any other has none: so it is at the end.
pub giveaways-AllSound :
    (first last : GiveawayDb) → History first last → AllSound first → AllSound last
giveaways-AllSound first last start all = all
giveaways-AllSound first last (then_step {middle = middle} before step) all =
    Step-AllSound middle last step (giveaways-AllSound first middle before all)

-- The row of a giveaway that is not active
abbrev pub Settled : ℕ → Giveaway → Table Giveaway → Type 0
Settled id giveaway giveaways = Distinct giveaways × (find_row id giveaways ≡ some giveaway)

module _ (id : ℕ) (giveaway : Giveaway) (over : is_active_giveaway giveaway.status ≡ false) where
  -- A save of an active giveaway is not a save of this one.
  save_active-Settled :
      (k : ℕ) (was new : Giveaway) (t : Table Giveaway)
      → find_row k t ≡ some was
      → is_active_giveaway was.status ≡ true
      → Settled id giveaway t
      → Settled id giveaway (save_row k new t)
  save_active-Settled k was new t row running (distinct, found) = (
    save_row-Distinct k new t distinct,
    elim (find_row-save_row id k new t) [
      | inl (same, hit) ↦
          let both : ◌≡◌ {A = Option Giveaway} (some was) (some giveaway) =
            sym row ∙ ap (λ j. find_row j t) (sym same) ∙ found in
          let this : was ≡ giveaway = ground arith in
          let active_here : is_active_giveaway giveaway.status ≡ true =
            ap (λ g. is_active_giveaway g.status) (sym this) ∙ running in
          absurd (ground arith)
      | inr (other, kept) ↦ kept ∙ found
    ],
  )

  participate-Settled :
      (k uid now : ℕ) (db after : GiveawayDb)
      → participate k uid now db ≡ ok after
      → Settled id giveaway db.giveaways
      → Settled id giveaway after.giveaways
  unfolding participate
  participate-Settled k uid now db after h settled = elim (Option-cases (find_row k db.giveaways)) [
    | inl missing ↦ absurd (ground arith)
    | inr (was, row) ↦
        let running : is_active_giveaway was.status ≡ true = ground arith in
        let saved : after.giveaways ≡ save_row k (joined uid was) db.giveaways = ground arith in
        rw saved (save_active-Settled k was (joined uid was) db.giveaways row running settled)
  ]

  finalize_each-Settled :
      (random : ℕ → ℕ × ℕ) (item_key : ℕ → ℕ) (now : ℕ) (rows : Table Giveaway) (db : GiveawayDb)
      → Known db.giveaways rows
      → All (λ row. is_expired now row.1 ≡ true) rows
      → Settled id giveaway db.giveaways
      → Settled id giveaway (finalize_each random item_key rows db).giveaways
  unfolding finalize_each
  finalize_each-Settled random item_key now [] db known expired settled = settled
  finalize_each-Settled random item_key now ((k, was) ∷ rows) db (row, once, known) (first, expired)
        settled =
      let new = finalized was (random k) in
      let running : is_active_giveaway was.status ≡ true = ground arith in
      finalize_each-Settled random item_key now rows _
        (Known-save_row k new rows db.giveaways once known) expired
        (save_active-Settled k was new db.giveaways row running settled)

  finalize_expired_giveaways-Settled :
      (random : ℕ → ℕ × ℕ) (item_key : ℕ → ℕ) (now : ℕ) (db : GiveawayDb)
      → Settled id giveaway db.giveaways
      → Settled id giveaway (finalize_expired_giveaways random item_key now db).giveaways
  unfolding finalize_expired_giveaways
  finalize_expired_giveaways-Settled random item_key now db settled =
      finalize_each-Settled random item_key now (keep (λ row. is_expired now row.1) db.giveaways) db
        (keep-Known (λ row. is_expired now row.1) db.giveaways settled.0)
        (keep-All (λ row. is_expired now row.1) db.giveaways) settled

  add_picked-Settled :
      (k now : ℕ) (bot_id : Option ℕ) (tier : GiveawayTier) (bot_ids : List ℕ) (db : GiveawayDb)
      → Settled id giveaway db.giveaways
      → Settled id giveaway (add_picked k bot_id now tier bot_ids db).1.giveaways
  unfolding add_bot_participant
  add_picked-Settled k now none tier bot_ids db settled = settled
  add_picked-Settled k now (some bot_id) tier bot_ids db settled =
      elim (Option-cases (find_row k db.giveaways)) [
        | inl missing ↦ rw (add_bot_participant, missing) settled
        | inr (was, row) ↦
            let participant_ids = unique was.participants in
            let target = get_giveaway_bot_target k tier.min_bots tier.max_bots in
            elim (Bool-cases (
              not (is_active_giveaway was.status)
              || (ltb now was.start_time || leb was.end_time now))) [
                | inl closed ↦ rw (add_bot_participant, row, closed) settled
                | inr open_one ↦
                    elim (Bool-cases (
                      includes participant_ids bot_id
                      || leb target (count_bots bot_ids participant_ids))) [
                        | inl full ↦ rw (add_bot_participant, row, open_one, full) settled
                        | inr room ↦
                            let running : is_active_giveaway was.status ≡ true = ground arith in
                            rw (add_bot_participant, row, open_one, room)
                              (save_active-Settled k was (joined bot_id was) db.giveaways row
                                running settled)
                      ]
              ]
      ]

  join_one_bot-Settled :
      (k now : ℕ) (was : Giveaway) (to_join to_pick : ℕ × ℕ) (bot_ids : List ℕ) (db : GiveawayDb)
      (tier : Option GiveawayTier)
      → Settled id giveaway db.giveaways
      → Settled id giveaway (join_one_bot k was to_join to_pick now bot_ids db tier).1.giveaways
  unfolding join_one_bot
  join_one_bot-Settled k now was to_join to_pick bot_ids db none settled = settled
  join_one_bot-Settled k now was to_join to_pick bot_ids db (some tier) settled =
      let participant_ids = unique was.participants in
      let target = get_giveaway_bot_target k tier.min_bots tier.max_bots in
      let duration = max 1 (was.end_time - was.start_time) in
      let picked = real_id (pick_giveaway_bot_id bot_ids participant_ids to_pick) in
      elim (Bool-cases (
        should_join_giveaway_bot (count_bots bot_ids participant_ids) target (now - was.start_time)
          duration to_join)) [
            | inl joins ↦
                rw (join_one_bot, joins) (add_picked-Settled k now picked tier bot_ids db settled)
            | inr waits ↦ rw (join_one_bot, waits) settled
          ]

  join_each_bot-Settled :
      (to_join to_pick : ℕ → ℕ × ℕ) (now : ℕ) (bot_ids : List ℕ) (rows : Table Giveaway)
      (db : GiveawayDb)
      → Settled id giveaway db.giveaways
      → Settled id giveaway (join_each_bot to_join to_pick now bot_ids rows db).1.giveaways
  join_each_bot-Settled to_join to_pick now bot_ids [] db settled = settled
  join_each_bot-Settled to_join to_pick now bot_ids ((k, was) ∷ rows) db settled =
      let tier = find_giveaway_tier was.giveaway_type in
      join_each_bot-Settled to_join to_pick now bot_ids rows
        (join_one_bot k was (to_join k) (to_pick k) now bot_ids db tier).1
        (join_one_bot-Settled k now was (to_join k) (to_pick k) bot_ids db tier settled)

  join_bot_participants-Settled :
      (to_join to_pick : ℕ → ℕ × ℕ) (now : ℕ) (bot_ids : List ℕ) (db : GiveawayDb)
      → Settled id giveaway db.giveaways
      → Settled id giveaway (join_bot_participants to_join to_pick now bot_ids db).1.giveaways
  unfolding join_bot_participants
  join_bot_participants-Settled to_join to_pick now bot_ids db settled =
      let rows = keep (λ row. is_running_giveaway now row.1) db.giveaways in
      elim (Bool-cases (leb (length bot_ids) 0)) [
        | inl no_bots ↦ rw (join_bot_participants, no_bots) settled
        | inr some_bots ↦
            rw (join_bot_participants, some_bots)
              (join_each_bot-Settled to_join to_pick now bot_ids rows db settled)
      ]

  Step-Settled :
      (db after : GiveawayDb)
      → Step db after
      → Settled id giveaway db.giveaways
      → Settled id giveaway after.giveaways
  Step-Settled db after (participated k uid now e) settled =
      participate-Settled k uid now db after e settled
  Step-Settled db after (bots_joined to_join to_pick now bot_ids) settled =
      join_bot_participants-Settled to_join to_pick now bot_ids db settled
  Step-Settled db after (ended random item_key now) settled =
      finalize_expired_giveaways-Settled random item_key now db settled

  -- A giveaway that is not active, in a table without two rows of the same key: whatever users, bots
  -- and ends of giveaways come, in any order, its row stays as it is. So a giveaway has one winner, who
  -- is never drawn again.
  pub decided_stays :
      (first last : GiveawayDb)
      → History first last
      → Settled id giveaway first.giveaways
      → Settled id giveaway last.giveaways
  decided_stays first last start settled = settled
  decided_stays first last (then_step {middle = middle} before step) settled =
      Step-Settled middle last step (decided_stays first middle before settled)
