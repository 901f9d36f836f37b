-- ===== src/Clicker/Spend.antt =====
-- The three other scripts on the hash: DEDUCT_LUA, CLAIM_AUTO_LUA and ACTIVATE_BOOST_LUA.
pub mod History
pub mod Laws
use rabbit_backend.Prelude.{
  ℕ, ◌+◌, ◌-◌, ◌*◌, Bool, true, false, ◌&&◌, ◌||◌, Option, none, some, ltb, leb, if◌then◌else◌,
}
use Prim.Native.String.{String}
use rabbit_backend.Clicker.State.{Effect, UserHash, Store, or_else}

pub data Deducted : Type 0 where
  balance : ℕ → Deducted
  insufficient : Deducted  -- -1
  unloaded : Deducted  -- -2

abbrev pub deduct_from : Option ℕ → ℕ → Store → Deducted × Store
deduct_from none cost s = (unloaded, s)
deduct_from (some p) cost s = if ltb p cost then (insufficient, s) else (
  balance (p - cost),
  record { user = record (s.user) { points = some (p - cost) }; dirty = true },
)

-- DEDUCT_LUA
unfoldable pub deduct : ℕ → Store → Deducted × Store
deduct cost s = deduct_from s.user.points cost s

-- The reply of the claim, up to its diagnostic block.
pub record Claim : Type 0 where
  pub count : ℕ
  pub value : ℕ
  pub points : ℕ
  pub total_points : ℕ
  pub level_up : Bool

pub data ClaimResult : Type 0 where
  missing : ClaimResult  -- code 1
  claimed : Claim → ClaimResult  -- code 0

abbrev pub claim_from : Option ℕ → ℕ → Store → ClaimResult × Store
claim_from none now s = (missing, s)
claim_from (some p) now s =
    let h = s.user in
    let value = h.pending_value in
    let points = if ltb 0 value then p + value else p in
    let total = if ltb 0 value then h.total_points + value else h.total_points in
    let h' : UserHash = record h {
      points = some points;
      total_points = total;
      pending_count = 0;
      pending_value = 0;
      auto_start = 0;
      auto_last = 0;
      last_click = now;
    } in
    (
      claimed (record {
        count = h.pending_count;
        value = value;
        points = points;
        total_points = total;
        level_up = ltb 0 value && ltb 0 h.next_level_cost && leb h.next_level_cost total;
      }),
      record { user = h'; dirty = s.dirty || (ltb 0 value || ltb 0 h.pending_count) },
    )

-- CLAIM_AUTO_LUA
unfoldable pub claim_auto : ℕ → Store → ClaimResult × Store
claim_auto now s = claim_from s.user.points now s

pub data Activated : Type 0 where
  until : ℕ → Activated
  not_loaded : Activated  -- -1
  refused : Activated  -- -2

abbrev pub is_loaded : Option ℕ → Bool
is_loaded none = false
is_loaded (some _) = true

-- ACTIVATE_BOOST_LUA, `duration` in seconds
unfoldable pub activate_boost : ℕ → ℕ → Effect → ℕ → String → Store → Activated × Store
activate_boost now duration effect value key s =
    let h = s.user in
    let expires_at = now + duration * 1000 in
    if leb duration 0
    then (refused, s)
    else if is_loaded h.cost
    then if ltb 0 h.boost_at && ltb now h.boost_at then (refused, s) else (
      until expires_at,
      record s {
        user = record h {
          boost_key = key;
          boost_at = expires_at;
          boost_effect = effect;
          boost_value = value;
        };
      },
    )
    else (not_loaded, s)
