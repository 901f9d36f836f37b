-- ===== src/Prelude/Rows.antt =====
-- Several rows of a table at once: the rows that a query returns, and their update.
use Prim.Native.Nat.{ℕ, ◌+◌}
use mathlib.Core.Path.{◌≡◌, refl, sym, ◌∙◌}
use mathlib.Core.Logic.{◌≢◌, inl, inr}
use mathlib.Core.Bool.{Bool, true}
use mathlib.Core.Option.{none, some}
use mathlib.Core.List.{[], ◌∷◌}
use native.Mathlib.Omega.{arith}
use rabbit_backend.Prelude.Tests.{◌==◌, if◌then◌else◌, ==→eq, ==_refl, Bool-cases}
use rabbit_backend.Prelude.Lists.{keep, All}
use rabbit_backend.Prelude.Table.{
  Table, find_row, save_row, find_row-save_row_ne, total, total-save_row_over,
}

module _ {V : Type 0} where
  -- A save of each row that was read, changed
  abbrev pub save_rows : (V → V) → Table V → Table V → Table V
  save_rows g [] t = t
  save_rows g ((k, v) ∷ rows) t = save_row k (g v) (save_rows g rows t)

  -- The key is a primary key.
  abbrev pub Distinct : Table V → Type 0
  Distinct [] = Unit
  Distinct ((k, v) ∷ t) = (find_row k t ≡ none) × Distinct t

  -- Rows of the table, each once
  abbrev pub Known : Table V → Table V → Type 0
  Known t [] = Unit
  Known t ((k, v) ∷ rows) = (find_row k t ≡ some v) × (find_row k rows ≡ none) × Known t rows

  pub find_row-save_rows :
      (g : V → V) (k : ℕ) (rows t : Table V)
      → find_row k rows ≡ none
      → find_row k (save_rows g rows t) ≡ find_row k t
  find_row-save_rows g k [] t h = refl
  find_row-save_rows g k ((j, v) ∷ rows) t h = elim (Bool-cases (k == j)) [
    | inl same ↦ absurd (ground arith)
    | inr other ↦
        let differ : k ≢ j = ground arith in
        find_row-save_row_ne k j (g v) (save_rows g rows t) differ
        ∙ find_row-save_rows g k rows t (ground arith)
  ]

  -- The update trades the old values of the rows for the new ones.
  pub total-save_rows :
      (f : V → ℕ) (g : V → V) (rows t : Table V)
      → Known t rows
      → total f (save_rows g rows t) + total f rows ≡ total f t + total (λ v. f (g v)) rows
  unfolding total
  total-save_rows f g [] t known = omega arith
  total-save_rows f g ((k, v) ∷ rows) t (found, once, known) =
      let rest = total-save_rows f g rows t known in
      let still = find_row-save_rows g k rows t once ∙ found in
      let traded = total-save_row_over f k (g v) v (save_rows g rows t) still in omega arith

  pub Known-later :
      (k : ℕ) (v : V) (rows t : Table V)
      → find_row k t ≡ none
      → Known t rows
      → Known ((k, v) ∷ t) rows
  Known-later k v [] t fresh known = tt
  Known-later k v ((j, w) ∷ rows) t fresh (found, once, known) =
      let rest = Known-later k v rows t fresh known in
      elim (Bool-cases (j == k)) [
        | inl same ↦ absurd (let e = ==→eq j k same in ground arith)
        | inr other ↦ (rw other found, once, rest)
      ]

  -- A row that is not in the table is not among those read.
  pub Known-missing :
      (k : ℕ) (rows t : Table V) → find_row k t ≡ none → Known t rows → find_row k rows ≡ none
  Known-missing k [] t missing known = refl
  Known-missing k ((j, v) ∷ rows) t missing (found, once, known) = elim (Bool-cases (k == j)) [
    | inl same ↦ absurd (let e = ==→eq k j same in ground arith)
    | inr other ↦ rw other (Known-missing k rows t missing known)
  ]

  pub find_row-keep :
      (p : ℕ × V → Bool) (k : ℕ) (t : Table V) → find_row k t ≡ none → find_row k (keep p t) ≡ none
  find_row-keep p k [] h = refl
  find_row-keep p k (e ∷ t) h = ground (arith, find_row-keep p k t)

  -- What a query finds
  pub keep-Known : (p : ℕ × V → Bool) (t : Table V) → Distinct t → Known t (keep p t)
  keep-Known p [] distinct = tt
  keep-Known p ((k, v) ∷ t) (fresh, distinct) =
      let rest = Known-later k v (keep p t) t fresh (keep-Known p t distinct) in
      elim (Bool-cases (p (k, v))) [
        | inl meets ↦
            rw meets (
              let key : (k == k) ≡ true = ==_refl k in rw key refl,
              find_row-keep p k t fresh,
              rest,
            )
        | inr fails ↦ rw fails rest
      ]

  -- What a query finds meets its test.
  pub keep-All : (p : ℕ × V → Bool) (t : Table V) → All (λ row. p row ≡ true) (keep p t)
  keep-All p [] = tt
  keep-All p (e ∷ t) = elim (Bool-cases (p e)) [
    | inl meets ↦ rw meets (meets, keep-All p t)
    | inr fails ↦ rw fails (keep-All p t)
  ]

  -- Rows that a save does not touch
  pub Known-save_row :
      (k : ℕ) (v : V) (rows t : Table V)
      → find_row k rows ≡ none
      → Known t rows
      → Known (save_row k v t) rows
  Known-save_row k v [] t other known = tt
  Known-save_row k v ((j, w) ∷ rows) t other (found, once, known) = elim (Bool-cases (k == j)) [
    | inl same ↦ absurd (ground arith)
    | inr differs ↦
        let differ : j ≢ k = ground arith in
        (
          find_row-save_row_ne j k v t differ ∙ found,
          once,
          Known-save_row k v rows t (rw differs at other) known,
        )
  ]

  pub save_row-All :
      (P : V → Type 0) (k : ℕ) (v : V) (t : Table V)
      → P v
      → All (λ row. P row.1) t
      → All (λ row. P row.1) (save_row k v t)
  save_row-All P k v [] holds all = (holds, tt)
  save_row-All P k v (e ∷ t) holds (first, all) =
      let rest = save_row-All P k v t holds all in
      elim (Bool-cases (k == e.0)) [
        | inl same ↦ rw same (holds, all)
        | inr other ↦ rw other (first, rest)
      ]

  pub find_row-All :
      (P : V → Type 0) (k : ℕ) (v : V) (t : Table V)
      → All (λ row. P row.1) t
      → find_row k t ≡ some v
      → P v
  find_row-All P k v [] all h = absurd (ground arith)
  find_row-All P k v (e ∷ t) (first, all) h = elim (Bool-cases (k == e.0)) [
    | inl same ↦ let eq : e.1 ≡ v = ground arith in rw (sym eq) first
    | inr other ↦ find_row-All P k v t all (rw other at h)
  ]

  pub save_row-Distinct : (k : ℕ) (v : V) (t : Table V) → Distinct t → Distinct (save_row k v t)
  save_row-Distinct k v [] distinct = (refl, tt)
  save_row-Distinct k v ((j, w) ∷ t) (fresh, distinct) =
      let rest = save_row-Distinct k v t distinct in
      elim (Bool-cases (k == j)) [
        | inl same ↦ let e = ==→eq k j same in rw (same, e) (fresh, distinct)
        | inr other ↦
            let differ : j ≢ k = ground arith in
            rw other (find_row-save_row_ne j k v t differ ∙ fresh, rest)
      ]

  pub save_rows-Distinct :
      (g : V → V) (rows t : Table V) → Distinct t → Distinct (save_rows g rows t)
  save_rows-Distinct g [] t distinct = distinct
  save_rows-Distinct g ((k, v) ∷ rows) t distinct =
      save_row-Distinct k (g v) (save_rows g rows t) (save_rows-Distinct g rows t distinct)

  -- `manager.remove`, of one row
  abbrev pub delete_row : ℕ → Table V → Table V
  delete_row k [] = []
  delete_row k (e ∷ t) = if k == e.0 then t else e ∷ delete_row k t

  -- `manager.remove`, of each row that was read
  abbrev pub delete_rows : Table V → Table V → Table V
  delete_rows [] t = t
  delete_rows ((k, _) ∷ rows) t = delete_row k (delete_rows rows t)

  pub find_row-delete_row_ne :
      (j k : ℕ) (t : Table V) → j ≢ k → find_row j (delete_row k t) ≡ find_row j t
  find_row-delete_row_ne j k [] h = refl
  find_row-delete_row_ne j k (e ∷ t) h = ground (arith, find_row-delete_row_ne j k t h)

  pub delete_row_missing :
      (j k : ℕ) (t : Table V) → find_row j t ≡ none → find_row j (delete_row k t) ≡ none
  delete_row_missing j k [] h = refl
  delete_row_missing j k (e ∷ t) h = ground (arith, delete_row_missing j k t)

  pub find_row-delete_row_self :
      (k : ℕ) (t : Table V) → Distinct t → find_row k (delete_row k t) ≡ none
  find_row-delete_row_self k [] distinct = refl
  find_row-delete_row_self k ((j, v) ∷ t) (fresh, distinct) = elim (Bool-cases (k == j)) [
    | inl same ↦ let e = ==→eq k j same in rw (same, e) fresh
    | inr other ↦ rw (other, other) (find_row-delete_row_self k t distinct)
  ]

  pub find_row-delete_rows :
      (k : ℕ) (rows t : Table V)
      → find_row k rows ≡ none
      → find_row k (delete_rows rows t) ≡ find_row k t
  find_row-delete_rows k [] t h = refl
  find_row-delete_rows k ((j, v) ∷ rows) t h = elim (Bool-cases (k == j)) [
    | inl same ↦ absurd (ground arith)
    | inr other ↦
        let differ : k ≢ j = ground arith in
        find_row-delete_row_ne k j (delete_rows rows t) differ
        ∙ find_row-delete_rows k rows t (ground arith)
  ]

  total-delete_row :
      (f : V → ℕ) (k : ℕ) (v : V) (t : Table V)
      → find_row k t ≡ some v
      → total f (delete_row k t) + f v ≡ total f t
  unfolding total
  total-delete_row f k v [] h = absurd (ground arith)
  total-delete_row f k v ((j, w) ∷ t) h = elim (Bool-cases (k == j)) [
    | inl same ↦ let this : w ≡ v = ground arith in rw (same, this) (omega arith)
    | inr other ↦ let rest = total-delete_row f k v t (rw other at h) in rw other (omega arith)
  ]

  pub total-delete_rows :
      (f : V → ℕ) (rows t : Table V)
      → Known t rows
      → total f (delete_rows rows t) + total f rows ≡ total f t
  unfolding total
  total-delete_rows f [] t known = omega arith
  total-delete_rows f ((k, v) ∷ rows) t (found, once, known) =
      let rest = total-delete_rows f rows t known in
      let still = find_row-delete_rows k rows t once ∙ found in
      let gone = total-delete_row f k v (delete_rows rows t) still in omega arith

  delete_row-All :
      (P : V → Type 0) (k : ℕ) (t : Table V)
      → All (λ row. P row.1) t
      → All (λ row. P row.1) (delete_row k t)
  delete_row-All P k [] all = tt
  delete_row-All P k (e ∷ t) (first, all) = elim (Bool-cases (k == e.0)) [
    | inl same ↦ rw same all
    | inr other ↦ rw other (first, delete_row-All P k t all)
  ]

  pub delete_rows-All :
      (P : V → Type 0) (rows t : Table V)
      → All (λ row. P row.1) t
      → All (λ row. P row.1) (delete_rows rows t)
  delete_rows-All P [] t all = all
  delete_rows-All P ((k, v) ∷ rows) t all =
      delete_row-All P k (delete_rows rows t) (delete_rows-All P rows t all)

  delete_row-Distinct : (k : ℕ) (t : Table V) → Distinct t → Distinct (delete_row k t)
  delete_row-Distinct k [] distinct = tt
  delete_row-Distinct k ((j, v) ∷ t) (fresh, distinct) = elim (Bool-cases (k == j)) [
    | inl same ↦ rw same distinct
    | inr other ↦ rw other (delete_row_missing j k t fresh, delete_row-Distinct k t distinct)
  ]

  pub delete_rows-Distinct : (rows t : Table V) → Distinct t → Distinct (delete_rows rows t)
  delete_rows-Distinct [] t distinct = distinct
  delete_rows-Distinct ((k, v) ∷ rows) t distinct =
      delete_row-Distinct k (delete_rows rows t) (delete_rows-Distinct rows t distinct)

  -- What has been removed is gone.
  pub delete_rows_gone :
      (k : ℕ) (v : V) (rows t : Table V)
      → Distinct t
      → find_row k rows ≡ some v
      → find_row k (delete_rows rows t) ≡ none
  delete_rows_gone k v [] t distinct h = absurd (ground arith)
  delete_rows_gone k v ((j, w) ∷ rows) t distinct h = elim (Bool-cases (k == j)) [
    | inl same ↦
        let e = ==→eq k j same in
        rw e
          (find_row-delete_row_self j (delete_rows rows t) (delete_rows-Distinct rows t distinct))
    | inr other ↦
        delete_row_missing k j (delete_rows rows t)
          (delete_rows_gone k v rows t distinct (rw other at h))
  ]
