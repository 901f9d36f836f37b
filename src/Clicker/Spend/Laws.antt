-- ===== src/Clicker/Spend/Laws.antt =====
-- The claim and the activation, each called twice.
use rabbit_backend.Prelude.{ℕ, ◌+◌, ◌<◌, ◌≡◌, ◌≢◌, refl, true, false, Option, none, some, arith}
use Prim.Native.String.{String}
use rabbit_backend.Clicker.State.{Effect, Store, or_else}
use rabbit_backend.Clicker.Boost.{is_boosted}
use rabbit_backend.Clicker.Click.{boost_of}
use rabbit_backend.Clicker.Spend.{
  claimed, claim_auto, claim_from, until, refused, activate_boost, is_loaded,
}

claim_from_twice :
    (p : Option ℕ) (now now' : ℕ) (s : Store)
    → p ≢ none
    → let s' = (claim_from p now s).1 in
      let (res, s'') = claim_auto now' s' in
      (res
        ≡ claimed (record {
          count = 0;
          value = 0;
          points = or_else p 0 + s.user.pending_value;
          total_points = s.user.total_points + s.user.pending_value;
          level_up = false;
        }))
      × (or_else s''.user.points 0 ≡ or_else p 0 + s.user.pending_value)
      × (s''.dirty ≡ s'.dirty)
unfolding claim_auto
claim_from_twice none now now' s h = absurd (h refl)
claim_from_twice (some p) now now' s h = ground arith

-- On a hash with a balance: after a claim, a second one finds an empty bank. It reports a balance
-- and a tally that hold the first claim's value once, changes neither, signals no level, and does
-- not mark the user as dirty.
pub claim_auto_twice :
    (now now' : ℕ) (s : Store)
    → s.user.points ≢ none
    → let s' = (claim_auto now s).1 in
      let (res, s'') = claim_auto now' s' in
      (res
        ≡ claimed (record {
          count = 0;
          value = 0;
          points = or_else s.user.points 0 + s.user.pending_value;
          total_points = s.user.total_points + s.user.pending_value;
          level_up = false;
        }))
      × (or_else s''.user.points 0 ≡ or_else s.user.points 0 + s.user.pending_value)
      × (s''.dirty ≡ s'.dirty)
claim_auto_twice now now' s h = unfold claim_auto in claim_from_twice s.user.points now now' s h

activated_until :
    (now duration value : ℕ) (effect : Effect) (key : String) (s : Store) {s' : Store}
    {deadline : ℕ}
    → activate_boost now duration effect value key s ≡ (until deadline, s')
    → (s'.user.boost_at ≡ deadline) × (0 < deadline) × (is_loaded s'.user.cost ≡ true)
unfolding activate_boost
activated_until now duration value effect key s h = ground arith

refused_while :
    (now duration value : ℕ) (effect : Effect) (key : String) (s : Store)
    → 0 < s.user.boost_at
    → now < s.user.boost_at
    → is_loaded s.user.cost ≡ true
    → activate_boost now duration effect value key s ≡ (refused, s)
unfolding activate_boost
refused_while now duration value effect key s p lt loaded = ground arith

-- After an activation that succeeds with a deadline, the boost is on at every moment before the
-- deadline, and every other activation until then is refused and changes nothing.
pub activate_boost_excludes :
    (now duration value now' duration' value' : ℕ) (effect effect' : Effect) (key key' : String)
    (s : Store) {s' : Store} {deadline : ℕ}
    → activate_boost now duration effect value key s ≡ (until deadline, s')
    → now' < deadline
    → (is_boosted now' (boost_of s'.user) ≡ true)
      × (activate_boost now' duration' effect' value' key' s' ≡ (refused, s'))
unfolding is_boosted
activate_boost_excludes now duration value now' duration' value' effect effect' key key' s {s' = s'}
      h lt =
    let (at, pos, loaded) = activated_until now duration value effect key s h in
    (
      ground arith,
      refused_while now' duration' value' effect' key' s' (omega arith) (omega arith) loaded,
    )
