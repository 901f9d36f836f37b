-- ===== src/Clicker/Spend/History.antt =====
-- Any sequence of the scripts on one hash.
use rabbit_backend.Prelude.{
  ℕ, ◌+◌, ◌*◌, ◌≤◌, ◌<◌, ◌≡◌, refl, Option, none, some, List, [], ◌∷◌, arith,
}
use Prim.Native.String.{String}
use rabbit_backend.Clicker.State.{Effect, UserHash, Store, or_else}
use rabbit_backend.Clicker.Boost.{token_burst}
use rabbit_backend.Clicker.Click.{click, click_with, click_loaded}
use rabbit_backend.Clicker.Click.Accounts.{click_loaded-Accounts}
use rabbit_backend.Clicker.Spend.{
  Deducted, balance, deduct, deduct_from, claim_auto, claim_from, activate_boost,
}

-- One call, with the arguments that it brings; a click brings its dice too.
pub data Call : Type 0 where
  do_click : (ℕ → ℕ) → ℕ → ℕ → ℕ → Call
  do_deduct : ℕ → Call
  do_claim : ℕ → Call
  do_activate : ℕ → ℕ → Effect → ℕ → String → Call

-- The points that a reply of the deduction has taken.
abbrev pub taken : ℕ → Deducted → ℕ
taken cost (balance _) = cost
taken cost _ = 0

-- The hash after a call, and the points that the call spent.
unfoldable pub step : Call → Store → Store × ℕ
step (do_click roll req now idle_threshold) s = ((click roll req now idle_threshold s).1, 0)
step (do_deduct cost) s = let (res, s') = deduct cost s in (s', taken cost res)
step (do_claim now) s = ((claim_auto now s).1, 0)
step (do_activate now duration effect value key) s =
    ((activate_boost now duration effect value key s).1, 0)

-- The hash after a sequence of calls, and the points spent in all.
unfoldable pub run : List Call → Store → Store × ℕ
run [] s = (s, 0)
run (c ∷ cs) s = let (s', spent) = step c s in let (s'', more) = run cs s' in (s'', spent + more)

-- What holds of the hash between two calls.
pub record IsValid (h : UserHash) : Type 0 where
  pub energy_capped : h.energy ≤ h.max_energy
  pub covered : or_else h.points 0 ≤ h.total_points
  pub bank_worth : h.pending_count ≤ h.pending_value
  pub bucket_capped : or_else h.tokens token_burst ≤ token_burst

-- From `h` to `h'` with `spent` points gone: the balance has lost just what was spent of what the
-- tally has gained, and the tally has not fallen.
pub record Balanced (spent : ℕ) (h h' : UserHash) : Type 0 where
  pub balanced : or_else h'.points 0 + spent + h.total_points ≡ or_else h.points 0 + h'.total_points
  pub lifetime : h.total_points ≤ h'.total_points

le-mul_pos : (n c : ℕ) → 0 < c → n ≤ n * c
le-mul_pos n c h = grind arith

click_step :
    (cost : Option ℕ) (roll : ℕ → ℕ) (req now idle_threshold : ℕ) (s : Store)
    → IsValid s.user
    → let s' = (click_with cost roll req now idle_threshold s).1 in
      IsValid s'.user × Balanced 0 s.user s'.user
click_step none roll req now idle_threshold s v = (v, omega arith)
click_step (some c) roll req now idle_threshold s v =
    let (r, s') = click_loaded roll req now idle_threshold c s in
    let books = click_loaded-Accounts roll req now idle_threshold c s in
    let worth = le-mul_pos r.auto_credited r.cost (omega arith) in (omega arith, omega arith)

deduct_step :
    (p : Option ℕ) (cost : ℕ) (s : Store)
    → p ≡ s.user.points
    → IsValid s.user
    → let (res, s') = deduct_from p cost s in
      IsValid s'.user × Balanced (taken cost res) s.user s'.user
deduct_step none cost s e v = (v, omega arith)
deduct_step (some p) cost s e v = ground arith

claim_step :
    (p : Option ℕ) (now : ℕ) (s : Store)
    → p ≡ s.user.points
    → IsValid s.user
    → let s' = (claim_from p now s).1 in IsValid s'.user × Balanced 0 s.user s'.user
claim_step none now s e v = (v, omega arith)
claim_step (some p) now s e v = ground arith

activate_step :
    (now duration : ℕ) (effect : Effect) (value : ℕ) (key : String) (s : Store)
    → IsValid s.user
    → let s' = (activate_boost now duration effect value key s).1 in
      IsValid s'.user × Balanced 0 s.user s'.user
unfolding activate_boost
activate_step now duration effect value key s v = ground arith

step_keeps :
    (c : Call) (s : Store)
    → IsValid s.user
    → let (s', spent) = step c s in IsValid s'.user × Balanced spent s.user s'.user
unfolding step click deduct claim_auto
step_keeps (do_click roll req now idle_threshold) s v =
    click_step s.user.cost roll req now idle_threshold s v
step_keeps (do_deduct cost) s v = deduct_step s.user.points cost s refl v
step_keeps (do_claim now) s v = claim_step s.user.points now s refl v
step_keeps (do_activate now duration effect value key) s v =
    activate_step now duration effect value key s v

-- From a valid hash, any sequence of clicks, deductions, claims and activations leaves a valid one:
-- the energy within its maximum, the balance covered by the lifetime tally, a bank worth at least a
-- point for each tick, the token bucket within its burst. The balance has moved by what the tally
-- has gained less what the deductions took, and the tally never falls.
pub run_keeps :
    (cs : List Call) (s : Store)
    → IsValid s.user
    → let (s', spent) = run cs s in IsValid s'.user × Balanced spent s.user s'.user
unfolding run
run_keeps [] s v = (v, omega arith)
run_keeps (c ∷ cs) s v =
    let (valid, first) = step_keeps c s v in
    let (valid', rest) = run_keeps cs (step c s).0 valid in (valid', omega arith)
