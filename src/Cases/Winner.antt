-- ===== src/Cases/Winner.antt =====
-- The winner of a draw, by the tickets of the rows in their order.
use rabbit_backend.Prelude.{
  ℕ, ◌+◌, ◌-◌, ◌*◌, ◌/◌, ◌≤◌, ◌<◌, ◌≡◌, refl, sym, ap, Bool, true, false, Option, none, some, List,
  [], ◌∷◌, leb, includes, if◌then◌else◌, Result, ok, err, leb→le, Bool-cases, Result-cases, inl,
  inr, arith,
}
use native.Mathlib.Nat.{mul-le-mul_right, zero-add}
use rabbit_backend.Cases.{
  SkinCase, TicketRange, tickets_for, rounded_down, CaseError, no_winner, prepare_ticket_ranges,
  total_tickets, find_range, random_scale, select_winner,
}

-- The row whose tickets, with those of the rows before it, reach the ticket
pub pick_by_tickets : ℕ → List SkinCase → Option SkinCase
pick_by_tickets ticket [] = none
pick_by_tickets ticket (row ∷ rows) =
    let tickets = tickets_for row.chance in
    if leb ticket tickets then some row else pick_by_tickets (ticket - tickets) rows

unfoldable pub all_tickets : List SkinCase → ℕ
all_tickets [] = 0
all_tickets (row ∷ rows) = tickets_for row.chance + all_tickets rows

tickets_for_positive : (chance : ℕ) → leb chance 0 ≡ false → 0 < tickets_for chance
unfolding tickets_for
tickets_for_positive chance h = elim (Bool-cases (includes rounded_down chance)) [
  | inl less ↦ let some_chance : 0 < chance = ground arith in rw less (omega arith)
  | inr exact ↦ let some_chance : 0 < chance = ground arith in rw exact (omega arith)
]

-- What a ticket finds in the ranges of the rows, from the ticket after a cursor on
Finds : ℕ → ℕ → List SkinCase → Result CaseError (List TicketRange) → Type 0
Finds cursor ticket rows (err _) = Unit
Finds cursor ticket rows (ok ranges) =
    find_range (cursor + ticket) ranges ≡ pick_by_tickets ticket rows

low_end : (cursor ticket : ℕ) → 0 < ticket → leb (cursor + 1) (cursor + ticket) ≡ true
low_end cursor ticket h = ground arith

beyond_end : (ticket tickets : ℕ) → leb ticket tickets ≡ false → tickets < ticket
beyond_end ticket tickets h = ground arith

high_end :
    (cursor ticket tickets : ℕ) (b : Bool)
    → leb ticket tickets ≡ b
    → leb (cursor + ticket) (cursor + 1 + tickets - 1) ≡ b
high_end cursor ticket tickets true h = ground arith
high_end cursor ticket tickets false h = ground arith

prepare-Finds :
    (cursor ticket : ℕ) (rows : List SkinCase)
    → 0 < ticket
    → Finds cursor ticket rows (prepare_ticket_ranges (cursor + 1) rows)
unfolding prepare_ticket_ranges Finds pick_by_tickets
prepare-Finds cursor ticket [] h = refl
prepare-Finds cursor ticket (row ∷ rows) h =
    let tickets = tickets_for row.chance in
    let start : cursor + tickets + 1 ≡ cursor + 1 + tickets = omega arith in
    elim (Bool-cases (leb row.chance 0)) [
      | inl zero ↦ rw (zero, Finds) tt
      | inr positive ↦ elim (Result-cases (prepare_ticket_ranges (cursor + 1 + tickets) rows)) [
        | inl (_, e) ↦ rw (positive, e, Finds) tt
        | inr (ranges, e) ↦ elim (Bool-cases (leb ticket tickets)) [
          | inl here ↦
              let low = low_end cursor ticket h in
              let high = high_end cursor ticket tickets true here in
              rw (positive, e, Finds, low, high, here) refl
          | inr there ↦
              let low = low_end cursor ticket h in
              let high = high_end cursor ticket tickets false there in
              let beyond = beyond_end ticket tickets there in
              let later = prepare-Finds (cursor + tickets) (ticket - tickets) rows (omega arith) in
              let same : cursor + tickets + (ticket - tickets) ≡ cursor + ticket = omega arith in
              rw (positive, e, Finds, low, high, there) (rw (start, e, Finds, same) at later)
        ]
      ]
    ]

-- The last ticket of the ranges of the rows, behind a range that ends at the cursor
Totals : ℕ → List SkinCase → Result CaseError (List TicketRange) → Type 0
Totals cursor rows (err _) = Unit
Totals cursor rows (ok ranges) =
    (r : TicketRange) → r.end ≡ cursor → total_tickets (r ∷ ranges) ≡ cursor + all_tickets rows

prepare-Totals :
    (cursor : ℕ) (rows : List SkinCase)
    → Totals cursor rows (prepare_ticket_ranges (cursor + 1) rows)
unfolding prepare_ticket_ranges Totals all_tickets
prepare-Totals cursor [] = λ r h. omega arith
prepare-Totals cursor (row ∷ rows) =
    let tickets = tickets_for row.chance in
    let start : cursor + tickets + 1 ≡ cursor + 1 + tickets = omega arith in
    let rest = prepare-Totals (cursor + tickets) rows in
    elim (Bool-cases (leb row.chance 0)) [
      | inl zero ↦ rw (zero, Totals) tt
      | inr positive ↦ elim (Result-cases (prepare_ticket_ranges (cursor + 1 + tickets) rows)) [
        | inl (_, e) ↦ rw (positive, e, Totals) tt
        | inr (ranges, e) ↦
            let later = rw (start, e, Totals) at rest in
            let range : TicketRange = record {
              skin_case = row;
              start = cursor + 1;
              end = cursor + 1 + tickets - 1;
            } in
            let last = later range (omega arith) in
            rw (positive, e, Totals) (λ r h. omega (arith, last))
      ]
    ]

-- The draw from the ranges of rows of which there is one at least
pub data Drawn (rows : List SkinCase) (random : ℕ) (ranges : List TicketRange) : Type 0 where
  won :
      (winner : SkinCase)
      → random < random_scale
      → pick_by_tickets (random * all_tickets rows / random_scale + 1) rows ≡ some winner
      → select_winner ranges random ≡ ok winner
      → Drawn rows random ranges
  lost :
      random ≡ random_scale → select_winner ranges random ≡ err no_winner → Drawn rows random ranges

picks :
    (ticket : ℕ) (rows : List SkinCase)
    → ticket ≤ all_tickets rows
    → 0 < ticket
    → (winner : SkinCase) × (pick_by_tickets ticket rows ≡ some winner)
unfolding pick_by_tickets all_tickets
picks ticket [] h p = absurd (omega arith)
picks ticket (row ∷ rows) h p = elim (Bool-cases (leb ticket (tickets_for row.chance))) [
  | inl here ↦ rw here (row, refl)
  | inr there ↦
      let beyond = beyond_end ticket (tickets_for row.chance) there in
      rw there (picks (ticket - tickets_for row.chance) rows (omega arith) (omega arith))
]

misses :
    (ticket : ℕ) (rows : List SkinCase)
    → all_tickets rows < ticket
    → pick_by_tickets ticket rows ≡ none
unfolding pick_by_tickets all_tickets
misses ticket [] h = refl
misses ticket (row ∷ rows) h = elim (Bool-cases (leb ticket (tickets_for row.chance))) [
  | inl here ↦ absurd (let most = leb→le ticket (tickets_for row.chance) here in omega arith)
  | inr there ↦
      let beyond = beyond_end ticket (tickets_for row.chance) there in
      rw there (misses (ticket - tickets_for row.chance) rows (omega arith))
]

last_ticket :
    (row : SkinCase) (rows : List SkinCase) (ranges : List TicketRange)
    → prepare_ticket_ranges 1 (row ∷ rows) ≡ ok ranges
    → (total_tickets ranges ≡ all_tickets (row ∷ rows)) × (0 < all_tickets (row ∷ rows))
unfolding prepare_ticket_ranges all_tickets Totals
last_ticket row rows ranges h = elim (Bool-cases (leb row.chance 0)) [
  | inl zero ↦ absurd (ground arith)
  | inr positive ↦
      let some_tickets = tickets_for_positive row.chance positive in
      let tickets = tickets_for row.chance in
      let start : tickets + 1 ≡ 1 + tickets = omega arith in
      elim (Result-cases (prepare_ticket_ranges (1 + tickets) rows)) [
        | inl (_, e) ↦ absurd (ground arith)
        | inr (rest, e) ↦
            let range : TicketRange = record {
              skin_case = row;
              start = 1;
              end = 1 + tickets - 1;
            } in
            let this : range ∷ rest ≡ ranges = ground arith in
            let totals = rw (start, e, Totals) at (prepare-Totals tickets rows) in
            let last = totals range (omega arith) in (rw (sym this) last, omega arith)
      ]
]

select_picked :
    (rows : List SkinCase) (ranges : List TicketRange) (random : ℕ) (winner : SkinCase)
    → total_tickets ranges ≡ all_tickets rows
    → (let ticket = random * all_tickets rows / random_scale + 1 in
        find_range ticket ranges ≡ pick_by_tickets ticket rows)
    → pick_by_tickets (random * all_tickets rows / random_scale + 1) rows ≡ some winner
    → select_winner ranges random ≡ ok winner
unfolding select_winner
select_picked rows ranges random winner total found picked = rw (total, found, picked) refl

-- Rows of which there is one at least, all with a chance: a random number of 32 bits draws the row that
-- owns the ticket, by the tickets of the rows in their order, unless it is the greatest one; for that
-- one there is no winner.
pub select_winner-Drawn :
    (row : SkinCase) (rows : List SkinCase) (ranges : List TicketRange) (random : ℕ)
    → prepare_ticket_ranges 1 (row ∷ rows) ≡ ok ranges
    → random ≤ random_scale
    → Drawn (row ∷ rows) random ranges
unfolding select_winner Finds
select_winner-Drawn row rows ranges random h most =
    let all = all_tickets (row ∷ rows) in
    let (total, some_tickets) = last_ticket row rows ranges h in
    let ticket = random * all / random_scale + 1 in
    let found : find_range ticket ranges ≡ pick_by_tickets ticket (row ∷ rows) =
      rw (h, Finds, zero-add) at (prepare-Finds 0 ticket (row ∷ rows) (omega arith)) in
    elim (Bool-cases (leb random_scale random)) [
      | inl greatest ↦
          let this : random ≡ random_scale = ground arith in
          let past : all < ticket = omega (arith, ap (λ n. n * all) this) in
          lost this (rw (total, found, misses ticket (row ∷ rows) past) refl)
      | inr less ↦
          let under : random ≤ 4294967294 = ground arith in
          let within : ticket ≤ all = omega (arith, mul-le-mul_right all under) in
          let (winner, picked) = picks ticket (row ∷ rows) within (omega arith) in
          won winner (omega (arith, under)) picked
            (select_picked (row ∷ rows) ranges random winner total found picked)
    ]
