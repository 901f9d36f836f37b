-- ===== src/Giveaways/Bots.antt =====
-- The bots of a giveaway: how many there are, and which one comes next.
use rabbit_backend.Prelude.{
  ℕ, ◌+◌, ◌-◌, ◌*◌, ◌/◌, ◌≤◌, ◌<◌, ◌≡◌, true, [], ◌∷◌, ◌++◌, leb, ltb, min, ◌==◌, ==→eq,
  if◌then◌else◌, Bool-cases, inl, inr, arith,
}
use rabbit_backend.Prelude.Texts.{Text, codes, decimal}
use native.Mathlib.Nat.{mul-le-mul_right}
use rabbit_backend.Giveaways.{
  hash_code, hash_codes, hash_to_unit, get_giveaway_bot_target, should_join_giveaway_bot,
}

hash_codes_lt : (hash : ℕ) (input : Text) → hash < 4294967296 → hash_codes hash input < 4294967296
hash_codes_lt hash [] h = h
hash_codes_lt hash (code ∷ input) h = hash_codes_lt (hash_code hash code) input (omega arith)

share_of_span :
    (hash span : ℕ)
    → hash < 4294967296
    → 0 < span
    → hash * span / 4294967295 + 1 ≤ span + (if hash == 4294967295 then 1 else 0)
share_of_span hash span h some_span = elim (Bool-cases (hash == 4294967295)) [
  | inl greatest ↦ let e = ==→eq hash 4294967295 greatest in rw (greatest, e) (omega arith)
  | inr less ↦
      let under : hash ≤ 4294967294 = ground arith in
      let scaled = mul-le-mul_right span under in rw less (omega arith)
]

-- For any giveaway: the target is at least the least number of bots and at most one more than the
-- greatest; and it is the greatest or less unless the hash is the greatest number of 32 bits.
pub get_giveaway_bot_target_bounds :
    (id min_bots max_bots : ℕ)
    → min_bots ≤ max_bots
    → let hash = hash_to_unit (codes "giveaway:" ++ decimal id ++ codes ":bots") in
      (min_bots ≤ get_giveaway_bot_target id min_bots max_bots)
      × (get_giveaway_bot_target id min_bots max_bots
          ≤ max_bots + (if hash == 4294967295 then 1 else 0))
unfolding get_giveaway_bot_target hash_to_unit
get_giveaway_bot_target_bounds id min_bots max_bots h =
    let input = codes "giveaway:" ++ decimal id ++ codes ":bots" in
    let hash = hash_to_unit input in
    let small = hash_codes_lt 2166136261 input (omega arith) in
    let share = share_of_span hash (max_bots - min_bots + 1) small (omega arith) in
    elim (Bool-cases (leb max_bots min_bots)) [
      | inl no_choice ↦ rw no_choice (omega arith, omega arith)
      | inr choice ↦ rw choice (omega arith, omega arith)
    ]

-- However the dice fall: a bot joins only if the giveaway has begun and has fewer bots than its
-- target, and then the bots are fewer than the share of the target that the elapsed time is of the
-- duration, rounded up.
pub should_join_giveaway_bot_share :
    (bot_count bot_target elapsed_ms duration_ms u d : ℕ)
    → should_join_giveaway_bot bot_count bot_target elapsed_ms duration_ms (u, d) ≡ true
    → (bot_count < bot_target) × (bot_count * duration_ms < min elapsed_ms duration_ms * bot_target)
unfolding should_join_giveaway_bot
should_join_giveaway_bot_share bot_count bot_target elapsed_ms duration_ms u d h =
    let expected = min elapsed_ms duration_ms * bot_target in
    let guaranteed = expected / duration_ms in
    let left = expected - guaranteed * duration_ms in
    let running : 0 < duration_ms = ground arith in
    let room : bot_count < bot_target = ground arith in
    let whole : guaranteed * duration_ms ≤ expected = omega (arith, running) in
    elim (Bool-cases (ltb (u * duration_ms) (left * d))) [
      | inl lucky ↦
          let most : bot_count ≤ guaranteed = ground arith in
          let some_left : 0 < left = ground arith in
          let scaled = mul-le-mul_right duration_ms most in (room, omega arith)
      | inr unlucky ↦
          let most : bot_count + 1 ≤ guaranteed = ground arith in
          let scaled = mul-le-mul_right duration_ms most in (room, omega arith)
    ]
