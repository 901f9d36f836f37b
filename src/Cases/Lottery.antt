-- ===== src/Cases/Lottery.antt =====
-- The lottery of a case: its order, the tickets shown and the tickets drawn.
use rabbit_backend.Prelude.{
  ℕ, ◌+◌, ◌≡◌, refl, sym, ap, ◌∙◌, Bool, true, false, not, ◌||◌, List, [], ◌∷◌, leb, keep, All,
  if◌then◌else◌, ok, Bool-cases, inl, inr, arith,
}
use rabbit_backend.Cases.{
  SkinCase, tickets_for, comes_first, insert_skin_case, sort_skin_cases_for_lottery,
  prepare_ticket_ranges, assign_ticket_ranges,
}

comes_first_trans :
    (a b c : SkinCase) → comes_first a b ≡ true → comes_first b c ≡ true → comes_first a c ≡ true
unfolding comes_first
comes_first_trans a b c h k = ground arith

comes_first_total : (a b : SkinCase) → comes_first a b ≡ false → comes_first b a ≡ true
unfolding comes_first
comes_first_total a b h = ground arith

IsSorted : List SkinCase → Type 0
IsSorted [] = Unit
IsSorted (a ∷ rows) = All (λ b. comes_first a b ≡ true) rows × IsSorted rows

module _ (P : SkinCase → Type 0) where
  insert_skin_case-All :
      (a : SkinCase) (rows : List SkinCase) → P a → All P rows → All P (insert_skin_case a rows)
  insert_skin_case-All a [] first all = (first, tt)
  insert_skin_case-All a (b ∷ rows) first (next, all) = elim (Bool-cases (comes_first a b)) [
    | inl before ↦ rw before (first, (next, all))
    | inr behind ↦ rw behind (next, insert_skin_case-All a rows first all)
  ]

  pub sort_skin_cases-All :
      (rows : List SkinCase) → All P rows → All P (sort_skin_cases_for_lottery rows)
  sort_skin_cases-All [] all = tt
  sort_skin_cases-All (a ∷ rows) (first, all) =
      insert_skin_case-All a (sort_skin_cases_for_lottery rows) first (sort_skin_cases-All rows all)

  pub keep_rows-All :
      (p : SkinCase → Bool) (rows : List SkinCase) → All P rows → All P (keep p rows)
  keep_rows-All p [] all = tt
  keep_rows-All p (a ∷ rows) (first, all) = elim (Bool-cases (p a)) [
    | inl kept ↦ rw kept (first, keep_rows-All p rows all)
    | inr left ↦ rw left (keep_rows-All p rows all)
  ]

leader-All :
    (a b : SkinCase) (rows : List SkinCase)
    → comes_first a b ≡ true
    → All (λ c. comes_first b c ≡ true) rows
    → All (λ c. comes_first a c ≡ true) rows
leader-All a b [] h all = tt
leader-All a b (c ∷ rows) h (first, all) =
    (comes_first_trans a b c h first, leader-All a b rows h all)

insert_skin_case-IsSorted :
    (a : SkinCase) (rows : List SkinCase) → IsSorted rows → IsSorted (insert_skin_case a rows)
unfolding IsSorted
insert_skin_case-IsSorted a [] sorted = (tt, tt)
insert_skin_case-IsSorted a (b ∷ rows) (leads, sorted) = elim (Bool-cases (comes_first a b)) [
  | inl before ↦ rw before ((before, leader-All a b rows before leads), (leads, sorted))
  | inr behind ↦
      let first = comes_first_total a b behind in
      rw behind (
        insert_skin_case-All (λ c. comes_first b c ≡ true) a rows first leads,
        insert_skin_case-IsSorted a rows sorted,
      )
]

sort_skin_cases-IsSorted : (rows : List SkinCase) → IsSorted (sort_skin_cases_for_lottery rows)
unfolding IsSorted
sort_skin_cases-IsSorted [] = tt
sort_skin_cases-IsSorted (a ∷ rows) =
    insert_skin_case-IsSorted a (sort_skin_cases_for_lottery rows) (sort_skin_cases-IsSorted rows)

insert_first :
    (a : SkinCase) (rows : List SkinCase)
    → All (λ b. comes_first a b ≡ true) rows
    → insert_skin_case a rows ≡ a ∷ rows
insert_first a [] all = refl
insert_first a (b ∷ rows) (first, all) = rw first refl

keep-insert_skin_case :
    (p : SkinCase → Bool) (a : SkinCase) (rows : List SkinCase)
    → IsSorted rows
    → keep p (insert_skin_case a rows)
      ≡ (if p a then insert_skin_case a (keep p rows) else keep p rows)
unfolding IsSorted
keep-insert_skin_case p a [] sorted = elim (Bool-cases (p a)) [
  | inl kept ↦ rw kept refl
  | inr left ↦ rw left refl
]
keep-insert_skin_case p a (b ∷ rows) (leads, sorted) =
    let rest = keep-insert_skin_case p a rows sorted in
    elim (Bool-cases (comes_first a b)) [
      | inl before ↦
          let all : All (λ c. comes_first a c ≡ true) (keep p (b ∷ rows)) =
            keep_rows-All (λ c. comes_first a c ≡ true) p (b ∷ rows)
              (before, leader-All a b rows before leads) in
          let first = insert_first a (keep p (b ∷ rows)) all in rw (before, first) refl
      | inr behind ↦ elim (Bool-cases (p a)) [
        | inl kept ↦
            let here = rw kept at rest in
            elim (Bool-cases (p b)) [
              | inl also ↦ rw (behind, also, kept, behind, here) refl
              | inr left ↦ rw (behind, left, kept, here) refl
            ]
        | inr gone ↦
            let here = rw gone at rest in
            elim (Bool-cases (p b)) [
              | inl also ↦ rw (behind, also, gone, here) refl
              | inr left ↦ rw (behind, left, gone, here) refl
            ]
      ]
    ]

keep-sort_skin_cases :
    (p : SkinCase → Bool) (rows : List SkinCase)
    → keep p (sort_skin_cases_for_lottery rows) ≡ sort_skin_cases_for_lottery (keep p rows)
keep-sort_skin_cases p [] = refl
keep-sort_skin_cases p (a ∷ rows) =
    let rest = keep-sort_skin_cases p rows in
    let sorted = sort_skin_cases-IsSorted rows in
    let inserted = keep-insert_skin_case p a (sort_skin_cases_for_lottery rows) sorted in
    elim (Bool-cases (p a)) [
      | inl kept ↦ inserted ∙ rw (kept, rest) refl
      | inr left ↦ inserted ∙ rw (left, rest) refl
    ]

-- What validateSkinCaseConfig asks of a row: one that drops has a chance.
abbrev pub HasChance : SkinCase → Type 0
HasChance row = (not row.is_drop_out || not (leb row.chance 0)) ≡ true

abbrev pub drops : SkinCase → Bool
drops row = row.is_drop_out

prepare-eq-assign :
    (ticket : ℕ) (rows : List SkinCase)
    → All HasChance rows
    → prepare_ticket_ranges ticket (keep drops rows) ≡ ok (assign_ticket_ranges ticket rows)
unfolding prepare_ticket_ranges assign_ticket_ranges
prepare-eq-assign ticket [] all = refl
prepare-eq-assign ticket (row ∷ rows) (valid, all) = elim (Bool-cases row.is_drop_out) [
  | inr stays ↦ rw stays (prepare-eq-assign ticket rows all)
  | inl falls ↦
      let chance : leb row.chance 0 ≡ false = ground arith in
      let rest = prepare-eq-assign (ticket + tickets_for row.chance) rows all in
      rw (falls, chance, rest) refl
]

-- If each row that drops has a chance: the ranges that openCase draws from, of the rows that drop and
-- then sorted, are those that the rows show, of all rows and in their order; none is refused.
pub drawn-eq-shown :
    (rows : List SkinCase)
    → All HasChance rows
    → prepare_ticket_ranges 1 (sort_skin_cases_for_lottery (keep drops rows))
      ≡ ok (assign_ticket_ranges 1 (sort_skin_cases_for_lottery rows))
drawn-eq-shown rows all =
    ap (prepare_ticket_ranges 1) (sym (keep-sort_skin_cases drops rows))
    ∙ prepare-eq-assign 1 (sort_skin_cases_for_lottery rows)
        (sort_skin_cases-All HasChance rows all)
