-- ===== src/Clicker/Boost.antt =====
-- CLICK_LUA, the active boost and the token bucket of the infinite-energy boost.
use rabbit_backend.Prelude.{
  ℕ, ◌+◌, ◌-◌, ◌*◌, ◌/◌, ◌≤◌, ◌≡◌, Bool, true, false, ◌&&◌, min, ltb, leb, if◌then◌else◌, arith,
}
use Prim.Native.String.{String}
use rabbit_backend.Clicker.State.{Effect, unset, infinite_energy, multiplier}

pub record ActiveBoost : Type 0 where
  pub key : String
  pub expires_at : ℕ
  pub effect : Effect
  pub value : ℕ

-- `boost_at > 0 and now < boost_at`
unfoldable pub is_boosted : ℕ → ActiveBoost → Bool
is_boosted now b = ltb 0 b.expires_at && ltb now b.expires_at

-- A boost past its deadline is cleared.
unfoldable pub clear_expired : ℕ → ActiveBoost → ActiveBoost
clear_expired now b =
    if ltb 0 b.expires_at && leb b.expires_at now
    then record { key = ""; expires_at = 0; effect = unset; value = 0 }
    else b

abbrev pub is_infinite : Effect → Bool
is_infinite infinite_energy = true
is_infinite _ = false

abbrev pub is_multiplier : Effect → Bool
is_multiplier multiplier = true
is_multiplier _ = false

-- `infinite_energy`, read off the boost that `clear_expired` leaves
unfoldable pub has_infinite_energy : ℕ → ActiveBoost → Bool
unfolding is_boosted clear_expired
has_infinite_energy now b = is_boosted now b && is_infinite (clear_expired now b).effect

-- the local `multiplier`
unfoldable pub reward_multiplier : ℕ → ActiveBoost → ℕ
unfolding is_boosted clear_expired
reward_multiplier now b =
    let c = clear_expired now b in
    if is_boosted now b && is_multiplier c.effect && ltb 1 c.value then c.value else 1

-- INF_ENERGY_BURST, in fiftieths of a token
abbrev pub token_burst : ℕ
token_burst = 40 * 50

pub record Tokens : Type 0 where
  pub balance : ℕ
  pub stamp : ℕ

-- The refill: 20 tokens for each 1000 ms are one fiftieth for each millisecond. A clock that
-- went back resets the stamp only.
unfoldable pub refill_tokens : ℕ → Tokens → Tokens
refill_tokens now t =
    if ltb t.stamp now
    then record { balance = min (t.balance + (now - t.stamp)) token_burst; stamp = now }
    else record t { stamp = now }

-- `accepted`, and the bucket after it
unfoldable pub take_tokens : ℕ → Tokens → ℕ × Tokens
take_tokens req t =
    let accepted = min req (t.balance / 50) in
    (accepted, record t { balance = t.balance - accepted * 50 })

-- Whatever the clock does, a refill keeps the bucket within the burst.
pub refill_tokens_le :
    (now : ℕ) (t : Tokens) → t.balance ≤ token_burst → (refill_tokens now t).balance ≤ token_burst
unfolding refill_tokens
refill_tokens_le now t h = ground arith

-- The clicks taken are paid for exactly, so the bucket is never overdrawn.
pub take_tokens_pays :
    (req : ℕ) (t : Tokens)
    → let (accepted, t') = take_tokens req t in
      (t'.balance + accepted * 50 ≡ t.balance) × (accepted ≤ req)
unfolding take_tokens
take_tokens_pays req t = omega arith
