-- ===== src/Giveaways.antt =====
-- Giveaways: src/modules/giveaways, giveaways.logic.ts and, of giveaways.service.ts, participate,
-- addBotParticipant, joinBotParticipants and finalizeExpiredGiveaways, with their transactions. A random
-- number is a fraction u / d. Money is in cents and a moment in milliseconds.
pub mod Unique
pub mod Sound
pub mod Steps
pub mod Bots
pub mod Tests
use Prim.Native.Nat.{bit_xor}
use rabbit_backend.Prelude.{
  ℕ, zero, suc, ◌+◌, ◌-◌, ◌*◌, ◌/◌, ◌%◌, min, max, Bool, true, false, not, ◌&&◌, ◌||◌, Option, none,
  some, List, [], ◌∷◌, ◌++◌, leb, ltb, length, includes, unique, get_elem?, keep, ◌==◌,
  if◌then◌else◌, Result, ok, err, ◌>>=◌, ◌>>◌, throw_if, or_throw,
}
use rabbit_backend.Prelude.Texts.{Text, codes, decimal}
use rabbit_backend.Prelude.Table.{Table, find_row, save_row}
use rabbit_backend.Withdraw.{csgo}
use rabbit_backend.Inventory.{InventoryDb, Skin, create_inventory}

-- `Math.min(ids.length - 1, Math.floor(random() * ids.length))`
abbrev pub random_index : ℕ → ℕ × ℕ → ℕ
random_index count (u, d) = min (count - 1) (u * count / d)

unfoldable pub pick_giveaway_winner_id : List ℕ → ℕ × ℕ → Option ℕ
pick_giveaway_winner_id participant_ids random =
    if leb (length participant_ids) 0
    then none
    else get_elem? participant_ids (random_index (length participant_ids) random)

unfoldable pub pick_giveaway_bot_id : List ℕ → List ℕ → ℕ × ℕ → Option ℕ
unfolding pick_giveaway_winner_id
pick_giveaway_bot_id bot_ids participant_ids random =
    pick_giveaway_winner_id (keep (λ id. not (includes participant_ids id)) bot_ids) random

pub data GiveawayType : Type 0 where
  daily_10 grand_50 : GiveawayType

pub record GiveawayTier : Type 0 where
  pub required_deposit_amount : ℕ
  pub duration_ms : ℕ
  pub min_bots : ℕ
  pub max_bots : ℕ

abbrev pub day_ms : ℕ
day_ms = 86400000

-- GIVEAWAY_TIERS, as far as the bots and the deposits use it
abbrev pub giveaway_tier : GiveawayType → GiveawayTier
giveaway_tier daily_10 = record {
  required_deposit_amount = 100;
  duration_ms = day_ms;
  min_bots = 20;
  max_bots = 30;
}
giveaway_tier grand_50 = record {
  required_deposit_amount = 1000;
  duration_ms = 3 * day_ms;
  min_bots = 50;
  max_bots = 100;
}

-- `findGiveawayTier`; a type that is null or unknown is none.
abbrev pub find_giveaway_tier : Option GiveawayType → Option GiveawayTier
find_giveaway_tier none = none
find_giveaway_tier (some giveaway_type) = some (giveaway_tier giveaway_type)

-- `hash ^= code; hash = Math.imul(hash, 16777619)`, on the 32 bits as a number without a sign
abbrev pub hash_code : ℕ → ℕ → ℕ
hash_code hash code = bit_xor hash code * 16777619 % 4294967296

abbrev pub hash_codes : ℕ → Text → ℕ
hash_codes hash [] = hash
hash_codes hash (code ∷ input) = hash_codes (hash_code hash code) input

-- `hashToUnit`, times 0xffffffff
unfoldable pub hash_to_unit : Text → ℕ
hash_to_unit input = hash_codes 2166136261 input

unfoldable pub get_giveaway_bot_target : ℕ → ℕ → ℕ → ℕ
unfolding hash_to_unit
get_giveaway_bot_target giveaway_id min_bots max_bots =
    let hash = hash_to_unit (codes "giveaway:" ++ decimal giveaway_id ++ codes ":bots") in
    if leb max_bots min_bots
    then min_bots
    else min_bots + hash * (max_bots - min_bots + 1) / 4294967295

-- `shouldJoinGiveawayBot`, for a giveaway that is under way: `random() < fractionalBotChance` is on
-- the fraction that is left of the bots that are expected by now.
unfoldable pub should_join_giveaway_bot : ℕ → ℕ → ℕ → ℕ → ℕ × ℕ → Bool
should_join_giveaway_bot bot_count bot_target elapsed_ms duration_ms (u, d) =
    let elapsed = min elapsed_ms duration_ms in
    let guaranteed = elapsed * bot_target / duration_ms in
    let left = elapsed * bot_target - guaranteed * duration_ms in
    let allowed = guaranteed + (if ltb (u * duration_ms) (left * d) then 1 else 0) in
    if leb duration_ms 0 || (leb elapsed_ms 0 || leb bot_target bot_count)
    then false
    else ltb bot_count (min bot_target allowed)

unfoldable pub get_eligible_deposit_amount : ℕ → ℕ → ℕ → ℕ
get_eligible_deposit_amount ledger_rows_count ledger_amount_30d legacy_deposit_amount =
    if ltb 0 ledger_rows_count then ledger_amount_30d else legacy_deposit_amount

pub data GiveawayStatus : Type 0 where
  upcoming active completed cancelled : GiveawayStatus

pub record Giveaway : Type 0 where
  pub giveaway_type : Option GiveawayType
  pub skin_id : ℕ
  pub required_deposit_amount : ℕ
  pub participants : List ℕ
  pub participant_count : ℕ
  pub start_time : ℕ
  pub end_time : ℕ
  pub status : GiveawayStatus
  pub winner_user_id : Option ℕ

pub record DepositRow : Type 0 where
  pub user_id : ℕ
  pub amount : ℕ
  pub is_success : Bool
  pub created_at : ℕ

pub record GiveawayDb : Type 0 where
  pub inventory : InventoryDb
  pub deposit_amounts : Table ℕ  -- `users.deposit_amount`
  pub deposits : List DepositRow
  pub csgo_skins : Table Skin
  pub giveaways : Table Giveaway

pub data GiveawayError : Type 0 where
  not_found not_active not_started already_ended already_participating user_not_found
        deposit_too_low :
      GiveawayError

abbrev pub is_active_giveaway : GiveawayStatus → Bool
is_active_giveaway active = true
is_active_giveaway _ = false

abbrev pub deposit_window_ms : ℕ
deposit_window_ms = 30 * day_ms

abbrev pub count_deposits : ℕ → List DepositRow → ℕ
count_deposits uid [] = 0
count_deposits uid (row ∷ rows) = (if row.user_id == uid then 1 else 0) + count_deposits uid rows

abbrev pub sum_deposits : ℕ → ℕ → List DepositRow → ℕ
sum_deposits uid window_start [] = 0
sum_deposits uid window_start (row ∷ rows) =
    (if (row.user_id == uid) && (row.is_success && leb window_start row.created_at)
      then row.amount
      else 0)
    + sum_deposits uid window_start rows

-- `getEligibleDepositAmountForWindow`
unfoldable pub eligible_deposit_amount : ℕ → ℕ → GiveawayDb → ℕ
unfolding get_eligible_deposit_amount
eligible_deposit_amount uid now db =
    let legacy : ℕ = elim (find_row uid db.deposit_amounts) [ none ↦ 0 | some amount ↦ amount ] in
    get_eligible_deposit_amount (count_deposits uid db.deposits)
      (sum_deposits uid (now - deposit_window_ms) db.deposits) legacy

-- The giveaway with one participant more
abbrev pub joined : ℕ → Giveaway → Giveaway
joined uid giveaway =
    let participants = unique giveaway.participants ++ uid ∷ [] in
    record giveaway { participants = participants; participant_count = length participants }

-- `participate`: its transaction, which follows finalizeExpiredGiveaways
unfoldable pub participate : ℕ → ℕ → ℕ → GiveawayDb → Result GiveawayError GiveawayDb
participate id uid now db = do
  giveaway ← or_throw (find_row id db.giveaways) not_found
  throw_if (not (is_active_giveaway giveaway.status)) not_active
  throw_if (ltb now giveaway.start_time) not_started
  throw_if (leb giveaway.end_time now) already_ended
  throw_if (includes (unique giveaway.participants) uid) already_participating
  user ← or_throw (find_row uid db.inventory.vip.users) user_not_found
  throw_if (ltb (eligible_deposit_amount uid now db) giveaway.required_deposit_amount)
      deposit_too_low
  ok (record db { giveaways = save_row id (joined uid giveaway) db.giveaways })

abbrev pub count_bots : List ℕ → List ℕ → ℕ
count_bots bot_ids participant_ids = length (keep (includes bot_ids) participant_ids)

-- `addBotParticipant`
unfoldable pub add_bot_participant :
    ℕ → ℕ → ℕ → GiveawayTier → List ℕ → GiveawayDb → Bool × GiveawayDb
unfolding get_giveaway_bot_target
add_bot_participant id bot_id now tier bot_ids db = elim (find_row id db.giveaways) [
  | none ↦ (false, db)
  | some giveaway ↦
      let participant_ids = unique giveaway.participants in
      let target = get_giveaway_bot_target id tier.min_bots tier.max_bots in
      if not (is_active_giveaway giveaway.status)
        || (ltb now giveaway.start_time || leb giveaway.end_time now)
      then (false, db)
      else (if includes participant_ids bot_id || leb target (count_bots bot_ids participant_ids)
          then (false, db)
          else (true, record db { giveaways = save_row id (joined bot_id giveaway) db.giveaways }))
]

-- `!winnerUserId`, `!botId`
abbrev pub real_id : Option ℕ → Option ℕ
real_id none = none
real_id (some zero) = none
real_id (some (suc n)) = some (suc n)

abbrev pub add_picked : ℕ → Option ℕ → ℕ → GiveawayTier → List ℕ → GiveawayDb → Bool × GiveawayDb
add_picked id none now tier bot_ids db = (false, db)
add_picked id (some bot_id) now tier bot_ids db = add_bot_participant id bot_id now tier bot_ids db

-- One round of the loop of `joinBotParticipants`, on the giveaway as it was read before the loop, with
-- its tier and the random numbers of shouldJoinGiveawayBot and of pickGiveawayBotId
unfoldable pub join_one_bot :
    ℕ → Giveaway → ℕ × ℕ → ℕ × ℕ → ℕ → List ℕ → GiveawayDb → Option GiveawayTier → Bool × GiveawayDb
unfolding should_join_giveaway_bot get_giveaway_bot_target pick_giveaway_bot_id
join_one_bot id giveaway to_join to_pick now bot_ids db none = (false, db)
join_one_bot id giveaway to_join to_pick now bot_ids db (some tier) =
    let participant_ids = unique giveaway.participants in
    let target = get_giveaway_bot_target id tier.min_bots tier.max_bots in
    let duration = max 1 (giveaway.end_time - giveaway.start_time) in
    let picked = real_id (pick_giveaway_bot_id bot_ids participant_ids to_pick) in
    if should_join_giveaway_bot (count_bots bot_ids participant_ids) target
      (now - giveaway.start_time) duration to_join
    then add_picked id picked now tier bot_ids db
    else (false, db)

abbrev pub join_each_bot :
    (ℕ → ℕ × ℕ) → (ℕ → ℕ × ℕ) → ℕ → List ℕ → Table Giveaway → GiveawayDb → ℕ × GiveawayDb
join_each_bot to_join to_pick now bot_ids [] db = (0, db)
join_each_bot to_join to_pick now bot_ids ((id, giveaway) ∷ rows) db =
    let (did_join, db') =
      join_one_bot id giveaway (to_join id) (to_pick id) now bot_ids db
        (find_giveaway_tier giveaway.giveaway_type) in
    let (count, db'') = join_each_bot to_join to_pick now bot_ids rows db' in
    ((if did_join then 1 else 0) + count, db'')

abbrev pub is_running_giveaway : ℕ → Giveaway → Bool
is_running_giveaway now giveaway =
    is_active_giveaway giveaway.status && (leb giveaway.start_time now && ltb now giveaway.end_time)

-- `joinBotParticipants`, in the order of the rows
unfoldable pub join_bot_participants :
    (ℕ → ℕ × ℕ) → (ℕ → ℕ × ℕ) → ℕ → List ℕ → GiveawayDb → ℕ × GiveawayDb
unfolding join_one_bot
join_bot_participants to_join to_pick now bot_ids db =
    let rows = keep (λ row. is_running_giveaway now row.1) db.giveaways in
    let joins = join_each_bot to_join to_pick now bot_ids rows db in
    if leb (length bot_ids) 0 then (0, db) else joins

abbrev pub is_expired : ℕ → Giveaway → Bool
is_expired now giveaway = is_active_giveaway giveaway.status && leb giveaway.end_time now

-- An expired giveaway, with the winner that is drawn
abbrev pub decided : Giveaway → Option ℕ → Giveaway
decided giveaway none = record giveaway { status = cancelled; winner_user_id = none }
decided giveaway (some winner) = record giveaway {
  status = completed;
  winner_user_id = some winner;
}

abbrev pub deduplicated : Giveaway → Giveaway
deduplicated giveaway = record giveaway {
  participants = unique giveaway.participants;
  participant_count = length (unique giveaway.participants);
}

abbrev pub winner_of : Giveaway → ℕ × ℕ → Option ℕ
winner_of giveaway random = real_id (pick_giveaway_winner_id (unique giveaway.participants) random)

unfoldable pub finalized : Giveaway → ℕ × ℕ → Giveaway
finalized giveaway random = decided (deduplicated giveaway) (winner_of giveaway random)

-- The columns of the catalogue, of a skin that it may lack
abbrev pub skin_row : Option Skin → Skin
skin_row none = record { market_hash_name = []; market_price = 0; bid_price = 0 }
skin_row (some skin) = skin

-- The item of the winner; `key` is that of the new row.
abbrev pub give_prize : Option ℕ → ℕ → Option Skin → ℕ → InventoryDb → InventoryDb
give_prize none skin_id skin key db = db
give_prize (some winner) skin_id skin key db =
    (create_inventory winner skin_id (skin_row skin) csgo key db).1

-- The loop of `finalizeExpiredGiveaways`, with the random number and the key of the new row of each
-- giveaway
unfoldable pub finalize_each : (ℕ → ℕ × ℕ) → (ℕ → ℕ) → Table Giveaway → GiveawayDb → GiveawayDb
unfolding finalized
finalize_each random item_key [] db = db
finalize_each random item_key ((id, giveaway) ∷ rows) db =
    finalize_each random item_key rows (record db {
      inventory =
          give_prize (winner_of giveaway (random id)) giveaway.skin_id
            (find_row giveaway.skin_id db.csgo_skins) (item_key id) db.inventory;
      giveaways = save_row id (finalized giveaway (random id)) db.giveaways;
    })

-- `finalizeExpiredGiveaways`, up to the notifications
unfoldable pub finalize_expired_giveaways : (ℕ → ℕ × ℕ) → (ℕ → ℕ) → ℕ → GiveawayDb → GiveawayDb
unfolding finalize_each
finalize_expired_giveaways random item_key now db =
    finalize_each random item_key (keep (λ row. is_expired now row.1) db.giveaways) db
