-- ===== src/Vip/Cases/Draw.antt =====
-- The ticket ranges cover each ticket once, so the draw pays by the weights.
use rabbit_backend.Prelude.{
  ℕ, ◌+◌, ◌-◌, ◌≤◌, ◌<◌, ◌≡◌, refl, true, false, Option, none, some, List, [], ◌∷◌, leb,
  if◌then◌else◌, inl, inr, Bool-cases, arith,
}
use native.Mathlib.Nat.{zero-add}
use rabbit_backend.Vip.Cases.{
  CaseType, WeightedReward, CaseReward, total_weight, ticket_ranges, last_reward, range_max_of,
  find_ticket, draw_ticket, drawn, or_last, draw_from,
}

-- The draw as it is meant: the first reward whose weight, added to those before, reaches the ticket.
unfoldable pub pick_by_weight : ℕ → List WeightedReward → ℕ
pick_by_weight ticket [] = 0
pick_by_weight ticket (r ∷ rs) =
    if leb ticket r.weight then r.amount else pick_by_weight (ticket - r.weight) rs

range_max-last :
    (cursor : ℕ) (r : WeightedReward) (rs : List WeightedReward)
    → range_max_of (last_reward (ticket_ranges cursor (r ∷ rs))) ≡ cursor + total_weight (r ∷ rs)
unfolding last_reward ticket_ranges total_weight
range_max-last cursor r [] = omega arith
range_max-last cursor r (s ∷ rs) = omega (arith, range_max-last (cursor + r.weight) s rs)

pub range_max-eq-total :
    (rs : List WeightedReward) → range_max_of (last_reward (ticket_ranges 0 rs)) ≡ total_weight rs
unfolding last_reward ticket_ranges total_weight
range_max-eq-total [] = refl
range_max-eq-total (r ∷ rs) = omega (arith, range_max-last 0 r rs)

-- The reward that a ticket finds, as the ticket's position in the list of weights says it.
abbrev Found : ℕ → ℕ → Option CaseReward → Type 0
Found ticket amount none = ⊥
Found ticket amount (some r) =
    (r.amount ≡ amount)
    × (r.range_min ≤ ticket)
    × (ticket ≤ r.range_max)
    × (r.range_max + 1 ≡ r.range_min + r.weight)

find_ticket-Found :
    (cursor ticket : ℕ) (rs : List WeightedReward)
    → 0 < ticket
    → ticket ≤ total_weight rs
    → Found
        (cursor + ticket)
        (pick_by_weight ticket rs)
        (find_ticket (cursor + ticket) (ticket_ranges cursor rs))
unfolding find_ticket ticket_ranges total_weight pick_by_weight
find_ticket-Found cursor ticket [] p h = omega arith
find_ticket-Found cursor ticket (r ∷ rs) p h = elim (Bool-cases (leb ticket r.weight)) [
  | inl here ↦
      let low : leb (cursor + 1) (cursor + ticket) ≡ true = ground arith in
      let high : leb (cursor + ticket) (cursor + r.weight) ≡ true = ground arith in
      rw (here, low, high) (refl, omega arith, ground arith, omega arith)
  | inr there ↦
      let low : leb (cursor + 1) (cursor + ticket) ≡ true = ground arith in
      let high : leb (cursor + ticket) (cursor + r.weight) ≡ false = ground arith in
      let same : cursor + r.weight + (ticket - r.weight) ≡ cursor + ticket = ground arith in
      let rest =
        find_ticket-Found (cursor + r.weight) (ticket - r.weight) rs (ground arith)
          (ground arith) in
      rw (there, low, high) (rw same at rest)
]

draw_ticket_bounds :
    (u d total : ℕ) → 0 < total → (0 < draw_ticket u d total) × (draw_ticket u d total ≤ total)
unfolding draw_ticket
draw_ticket_bounds u d total p = omega arith

drawn-Found :
    (t : CaseType) (ticket amount : ℕ) (o : Option CaseReward) (rs : List CaseReward)
    → Found ticket amount o
    → let w = drawn t ticket (or_last o rs) in
      (w.amount ≡ amount) × (w.ticket ≡ ticket) × (w.range_min ≤ ticket) × (ticket ≤ w.range_max)
drawn-Found t ticket amount none rs h = absurd h
drawn-Found t ticket amount (some r) rs h = (h.0, refl, h.1, h.2)

-- For rewards with some weight and any random number, also one out of range: the ticket lies
-- between 1 and the total weight and within the range that the draw reports, and the amount is the
-- one that the ticket's place among the weights says.
pub draw_from-pick_by_weight :
    (t : CaseType) (rs : List WeightedReward) (u d : ℕ)
    → 0 < total_weight rs
    → let w = draw_from t rs u d in
      (0 < w.ticket)
      × (w.ticket ≤ total_weight rs)
      × (w.range_min ≤ w.ticket)
      × (w.ticket ≤ w.range_max)
      × (w.amount ≡ pick_by_weight w.ticket rs)
unfolding draw_from
draw_from-pick_by_weight t rs u d p =
    let total = total_weight rs in
    let ticket = draw_ticket u d total in
    let (low, high) = draw_ticket_bounds u d total p in
    let some_weight : leb total 0 ≡ false = ground arith in
    let (paid, kept, above, below) =
      drawn-Found t ticket (pick_by_weight ticket rs) (find_ticket ticket (ticket_ranges 0 rs))
        (ticket_ranges 0 rs) (rw zero-add at (find_ticket-Found 0 ticket rs low high)) in
    rw (range_max-eq-total, some_weight) (rw kept (low, high, above, below, paid))
