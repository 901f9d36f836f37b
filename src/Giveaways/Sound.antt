-- ===== src/Giveaways/Sound.antt =====
-- No participant stands twice, a winner is one of the participants, and a decision is final.
use rabbit_backend.Prelude.{
  ℕ, zero, suc, ◌≡◌, refl, true, false, not, ◌||◌, Option, none, some, List, [], ◌∷◌, ◌++◌, length,
  includes, unique, all_unique, keep, All, leb, ltb, max, ◌-◌, ok, Bool-cases, Option-cases, inl,
  inr, arith,
}
use rabbit_backend.Prelude.Table.{Table, find_row, save_row}
use rabbit_backend.Prelude.Rows.{save_row-All, find_row-All}
use rabbit_backend.Giveaways.{
  pick_giveaway_winner_id, random_index, upcoming, active, completed, cancelled, GiveawayStatus,
  Giveaway, GiveawayDb, is_active_giveaway, joined, participate, count_bots, GiveawayTier,
  find_giveaway_tier, get_giveaway_bot_target, add_bot_participant, real_id, add_picked,
  should_join_giveaway_bot, pick_giveaway_bot_id, join_one_bot, join_each_bot, is_running_giveaway,
  join_bot_participants, is_expired, winner_of, finalized, finalize_each,
  finalize_expired_giveaways,
}
use rabbit_backend.Giveaways.Unique.{all_unique-unique, all_unique-snoc, includes-get_elem?}

-- The winner: none before the end, and one of the participants after it
abbrev pub Outcome : GiveawayStatus → Option ℕ → List ℕ → Type 0
Outcome completed none participants = ⊥
Outcome completed (some winner) participants = includes participants winner ≡ true
Outcome _ winner participants = winner ≡ none

abbrev pub IsSound : Giveaway → Type 0
IsSound giveaway =
    (all_unique giveaway.participants ≡ true)
    × (giveaway.participant_count ≡ length giveaway.participants)
    × Outcome giveaway.status giveaway.winner_user_id giveaway.participants

abbrev pub AllSound : GiveawayDb → Type 0
AllSound db = All (λ row. IsSound row.1) db.giveaways

active-Outcome :
    (status : GiveawayStatus) (winner : Option ℕ) (before after : List ℕ)
    → is_active_giveaway status ≡ true
    → Outcome status winner before
    → Outcome status winner after
active-Outcome active winner before after running h = h
active-Outcome upcoming winner before after running h = h
active-Outcome cancelled winner before after running h = h
active-Outcome completed winner before after running h = absurd (ground arith)

joined-IsSound :
    (uid : ℕ) (giveaway : Giveaway)
    → is_active_giveaway giveaway.status ≡ true
    → includes (unique giveaway.participants) uid ≡ false
    → IsSound giveaway
    → IsSound (joined uid giveaway)
joined-IsSound uid giveaway running fresh (alone, counted, outcome) = (
  all_unique-snoc uid (unique giveaway.participants) (all_unique-unique giveaway.participants)
      fresh,
  refl,
  active-Outcome giveaway.status giveaway.winner_user_id giveaway.participants
      (unique giveaway.participants ++ uid ∷ []) running outcome,
)

pub participate-AllSound :
    (id uid now : ℕ) (db after : GiveawayDb)
    → participate id uid now db ≡ ok after
    → AllSound db
    → AllSound after
unfolding participate
participate-AllSound id uid now db after h all = elim (Option-cases (find_row id db.giveaways)) [
  | inl missing ↦ absurd (ground arith)
  | inr (giveaway, row) ↦
      let running : is_active_giveaway giveaway.status ≡ true = ground arith in
      let fresh : includes (unique giveaway.participants) uid ≡ false = ground arith in
      let saved : after.giveaways ≡ save_row id (joined uid giveaway) db.giveaways = ground arith in
      let sound = find_row-All IsSound id giveaway db.giveaways all row in
      rw saved (
        save_row-All IsSound id (joined uid giveaway) db.giveaways
          (joined-IsSound uid giveaway running fresh sound) all)
]

add_bot_participant-AllSound :
    (id bot_id now : ℕ) (tier : GiveawayTier) (bot_ids : List ℕ) (db : GiveawayDb)
    → AllSound db
    → AllSound (add_bot_participant id bot_id now tier bot_ids db).1
unfolding add_bot_participant
add_bot_participant-AllSound id bot_id now tier bot_ids db all =
    elim (Option-cases (find_row id db.giveaways)) [
      | inl missing ↦ rw (add_bot_participant, missing) all
      | inr (giveaway, row) ↦
          let participant_ids = unique giveaway.participants in
          let target = get_giveaway_bot_target id tier.min_bots tier.max_bots in
          elim (Bool-cases (
            not (is_active_giveaway giveaway.status)
            || (ltb now giveaway.start_time || leb giveaway.end_time now))) [
              | inl closed ↦ rw (add_bot_participant, row, closed) all
              | inr open_one ↦
                  elim (Bool-cases (
                    includes participant_ids bot_id
                    || leb target (count_bots bot_ids participant_ids))) [
                      | inl full ↦ rw (add_bot_participant, row, open_one, full) all
                      | inr room ↦
                          let running : is_active_giveaway giveaway.status ≡ true = ground arith in
                          let fresh : includes participant_ids bot_id ≡ false = ground arith in
                          let sound = find_row-All IsSound id giveaway db.giveaways all row in
                          rw (add_bot_participant, row, open_one, room)
                            (save_row-All IsSound id (joined bot_id giveaway) db.giveaways
                              (joined-IsSound bot_id giveaway running fresh sound) all)
                    ]
            ]
    ]

add_picked-AllSound :
    (id now : ℕ) (bot_id : Option ℕ) (tier : GiveawayTier) (bot_ids : List ℕ) (db : GiveawayDb)
    → AllSound db
    → AllSound (add_picked id bot_id now tier bot_ids db).1
add_picked-AllSound id now none tier bot_ids db all = all
add_picked-AllSound id now (some bot_id) tier bot_ids db all =
    add_bot_participant-AllSound id bot_id now tier bot_ids db all

join_one_bot-AllSound :
    (id now : ℕ) (giveaway : Giveaway) (to_join to_pick : ℕ × ℕ) (bot_ids : List ℕ)
    (db : GiveawayDb) (tier : Option GiveawayTier)
    → AllSound db
    → AllSound (join_one_bot id giveaway to_join to_pick now bot_ids db tier).1
unfolding join_one_bot
join_one_bot-AllSound id now giveaway to_join to_pick bot_ids db none all = all
join_one_bot-AllSound id now giveaway to_join to_pick bot_ids db (some tier) all =
    let participant_ids = unique giveaway.participants in
    let target = get_giveaway_bot_target id tier.min_bots tier.max_bots in
    let duration = max 1 (giveaway.end_time - giveaway.start_time) in
    let picked = real_id (pick_giveaway_bot_id bot_ids participant_ids to_pick) in
    elim (Bool-cases (
      should_join_giveaway_bot (count_bots bot_ids participant_ids) target
        (now - giveaway.start_time) duration to_join)) [
          | inl joins ↦
              rw (join_one_bot, joins) (add_picked-AllSound id now picked tier bot_ids db all)
          | inr waits ↦ rw (join_one_bot, waits) all
        ]

join_each_bot-AllSound :
    (to_join to_pick : ℕ → ℕ × ℕ) (now : ℕ) (bot_ids : List ℕ) (rows : Table Giveaway)
    (db : GiveawayDb)
    → AllSound db
    → AllSound (join_each_bot to_join to_pick now bot_ids rows db).1
join_each_bot-AllSound to_join to_pick now bot_ids [] db all = all
join_each_bot-AllSound to_join to_pick now bot_ids ((id, giveaway) ∷ rows) db all =
    join_each_bot-AllSound to_join to_pick now bot_ids rows
      (join_one_bot id giveaway (to_join id) (to_pick id) now bot_ids db
        (find_giveaway_tier giveaway.giveaway_type)).1
      (join_one_bot-AllSound id now giveaway (to_join id) (to_pick id) bot_ids db
        (find_giveaway_tier giveaway.giveaway_type) all)

pub join_bot_participants-AllSound :
    (to_join to_pick : ℕ → ℕ × ℕ) (now : ℕ) (bot_ids : List ℕ) (db : GiveawayDb)
    → AllSound db
    → AllSound (join_bot_participants to_join to_pick now bot_ids db).1
unfolding join_bot_participants
join_bot_participants-AllSound to_join to_pick now bot_ids db all =
    let rows = keep (λ row. is_running_giveaway now row.1) db.giveaways in
    elim (Bool-cases (leb (length bot_ids) 0)) [
      | inl no_bots ↦ rw (join_bot_participants, no_bots) all
      | inr some_bots ↦
          rw (join_bot_participants, some_bots)
            (join_each_bot-AllSound to_join to_pick now bot_ids rows db all)
    ]

real_id-some : (o : Option ℕ) (id : ℕ) → real_id o ≡ some id → o ≡ some id
real_id-some none id h = absurd (ground arith)
real_id-some (some zero) id h = absurd (ground arith)
real_id-some (some (suc n)) id h = h

pick_giveaway_winner_id-includes :
    (ids : List ℕ) (random : ℕ × ℕ) (id : ℕ)
    → pick_giveaway_winner_id ids random ≡ some id
    → includes ids id ≡ true
unfolding pick_giveaway_winner_id
pick_giveaway_winner_id-includes ids random id h = elim (Bool-cases (leb (length ids) 0)) [
  | inl nobody ↦ absurd (ground arith)
  | inr some_ids ↦ includes-get_elem? (random_index (length ids) random) id ids (rw some_ids at h)
]

pub finalized-IsSound : (giveaway : Giveaway) (random : ℕ × ℕ) → IsSound (finalized giveaway random)
unfolding finalized
finalized-IsSound giveaway random =
    let ids = unique giveaway.participants in
    let alone = all_unique-unique giveaway.participants in
    elim (Option-cases (winner_of giveaway random)) [
      | inl nobody ↦ rw (finalized, nobody) (alone, refl, refl)
      | inr (winner, e) ↦
          let drawn = real_id-some (pick_giveaway_winner_id ids random) winner e in
          rw (finalized, e) (alone, refl, pick_giveaway_winner_id-includes ids random winner drawn)
    ]

finalize_each-AllSound :
    (random : ℕ → ℕ × ℕ) (item_key : ℕ → ℕ) (rows : Table Giveaway) (db : GiveawayDb)
    → AllSound db
    → AllSound (finalize_each random item_key rows db)
unfolding finalize_each
finalize_each-AllSound random item_key [] db all = all
finalize_each-AllSound random item_key ((id, giveaway) ∷ rows) db all =
    finalize_each-AllSound random item_key rows _ (
      save_row-All IsSound id (finalized giveaway (random id)) db.giveaways
        (finalized-IsSound giveaway (random id)) all)

pub finalize_expired_giveaways-AllSound :
    (random : ℕ → ℕ × ℕ) (item_key : ℕ → ℕ) (now : ℕ) (db : GiveawayDb)
    → AllSound db
    → AllSound (finalize_expired_giveaways random item_key now db)
unfolding finalize_expired_giveaways
finalize_expired_giveaways-AllSound random item_key now db all =
    finalize_each-AllSound random item_key (keep (λ row. is_expired now row.1) db.giveaways) db all
