-- ===== src/Prelude/Table.antt =====
-- A database table: rows under a numeric primary key, in insertion order.
use Prim.Native.Nat.{ℕ, ◌+◌}
use mathlib.Core.Path.{◌≡◌, refl, sym}
use mathlib.Core.Logic.{◌≢◌, ◌⊎◌, inl, inr}
use mathlib.Core.Bool.{Bool, true}
use mathlib.Core.Option.{Option, none, some}
use mathlib.Core.List.{List, [], ◌∷◌}
use native.Mathlib.Omega.{arith}
use rabbit_backend.Prelude.Tests.{◌==◌, if◌then◌else◌, ==→eq, Bool-cases, Option-cases}

abbrev pub Table : Type 0 → Type 0
Table V = List (ℕ × V)

module _ {V : Type 0} where
  -- `manager.findOne`, by key
  abbrev pub find_row : ℕ → Table V → Option V
  find_row k [] = none
  find_row k ((j, v) ∷ t) = if k == j then some v else find_row k t

  abbrev pub or_later : (V → Bool) → ℕ → Option V → Option (ℕ × V) → Option (ℕ × V)
  or_later p k none later = later
  or_later p k (some v) later = if p v then some (k, v) else later

  -- The first row, in the order of the keys, that meets a test, with its key
  abbrev pub find_among : (V → Bool) → Table V → List ℕ → Option (ℕ × V)
  find_among p t [] = none
  find_among p t (k ∷ ks) = or_later p k (find_row k t) (find_among p t ks)

  abbrev pub keys : Table V → List ℕ
  keys [] = []
  keys ((k, _) ∷ t) = k ∷ keys t

  abbrev pub find_where : (V → Bool) → Table V → Option (ℕ × V)
  find_where p t = find_among p t (keys t)

  -- `manager.save`: replaces the row, or inserts it
  abbrev pub save_row : ℕ → V → Table V → Table V
  save_row k v [] = (k, v) ∷ []
  save_row k v (e ∷ t) = if k == e.0 then (k, v) ∷ t else e ∷ save_row k v t

  pub find_row-save_row_self : (k : ℕ) (v : V) (t : Table V) → find_row k (save_row k v t) ≡ some v
  find_row-save_row_self k v [] = ground arith
  find_row-save_row_self k v (e ∷ t) = ground (arith, find_row-save_row_self k v t)

  pub find_row-save_row_ne :
      (j k : ℕ) (v : V) (t : Table V) → j ≢ k → find_row j (save_row k v t) ≡ find_row j t
  find_row-save_row_ne j k v [] h = ground arith
  find_row-save_row_ne j k v (e ∷ t) h = ground (arith, find_row-save_row_ne j k v t h)

  -- A lookup after a save: the key is the saved one, or the table before answers.
  pub find_row-save_row :
      (j k : ℕ) (v : V) (t : Table V)
      → ((j ≡ k) × (find_row j (save_row k v t) ≡ some v))
        ⊎ ((j ≢ k) × (find_row j (save_row k v t) ≡ find_row j t))
  find_row-save_row j k v t = elim (Bool-cases (j == k)) [
    | inl e ↦ let same = ==→eq j k e in inl (same, rw same (find_row-save_row_self k v t))
    | inr e ↦ let differ : j ≢ k = ground arith in inr (differ, find_row-save_row_ne j k v t differ)
  ]

  -- The sum of a quantity over the rows of a table.
  unfoldable pub total : (V → ℕ) → Table V → ℕ
  total f [] = 0
  total f ((_, v) ∷ t) = f v + total f t

  -- What a row counts for, none counting nothing.
  abbrev pub row_value : (V → ℕ) → Option V → ℕ
  row_value f none = 0
  row_value f (some v) = f v

  -- Saving a row trades its old value for the new one.
  pub total-save_row :
      (f : V → ℕ) (k : ℕ) (v : V) (t : Table V)
      → total f (save_row k v t) + row_value f (find_row k t) ≡ total f t + f v
  unfolding total
  total-save_row f k v [] = omega arith
  total-save_row f k v (e ∷ t) =
      let rest = total-save_row f k v t in
      elim (Bool-cases (k == e.0)) [
        | inl same ↦ rw same (omega arith)
        | inr other ↦ rw other (omega arith)
      ]

  pub total-save_row_over :
      (f : V → ℕ) (k : ℕ) (v w : V) (t : Table V)
      → find_row k t ≡ some w
      → total f (save_row k v t) + f w ≡ total f t + f v
  total-save_row_over f k v w t e =
      let traded = total-save_row f k v t in
      let old : row_value f (find_row k t) ≡ f w = rw e refl in omega arith

  pub total-save_row_new :
      (f : V → ℕ) (k : ℕ) (v : V) (t : Table V)
      → find_row k t ≡ none
      → total f (save_row k v t) ≡ total f t + f v
  total-save_row_new f k v t e =
      let traded = total-save_row f k v t in
      let old : row_value f (find_row k t) ≡ 0 = rw e refl in omega arith

  pub save_row_twice :
      (k : ℕ) (v w : V) (t : Table V) → save_row k v (save_row k w t) ≡ save_row k v t
  save_row_twice k v w [] = ground arith
  save_row_twice k v w (e ∷ t) = ground (arith, save_row_twice k v w t)

  pub find_among-find_row :
      (p : V → Bool) (t : Table V) (ks : List ℕ) (k : ℕ) (v : V)
      → find_among p t ks ≡ some (k, v)
      → (find_row k t ≡ some v) × (p v ≡ true)
  find_among-find_row p t [] k v h = absurd (ground arith)
  find_among-find_row p t (j ∷ ks) k v h = elim (Option-cases (find_row j t)) [
    | inl missing ↦ find_among-find_row p t ks k v (ground arith)
    | inr (u, row) ↦ elim (Bool-cases (p u)) [
      | inr fails ↦ find_among-find_row p t ks k v (ground arith)
      | inl meets ↦
          let this : ◌≡◌ {A = Option (ℕ × V)} (some (j, u)) (some (k, v)) = ground arith in
          let key : j ≡ k = ground arith in
          let value : u ≡ v = ground arith in (rw (sym key, sym value) row, rw (sym value) meets)
    ]
  ]

  -- A save of the row that was found, which still meets the test: it is found again.
  pub find_among-save_row :
      (p : V → Bool) (t : Table V) (ks : List ℕ) (k : ℕ) (v w : V)
      → find_among p t ks ≡ some (k, v)
      → p w ≡ true
      → find_among p (save_row k w t) ks ≡ some (k, w)
  find_among-save_row p t [] k v w h good = absurd (ground arith)
  find_among-save_row p t (j ∷ ks) k v w h good = elim (find_row-save_row j k w t) [
    | inl (same, hit) ↦ rw (hit, good, same) refl
    | inr (other, kept) ↦ elim (Option-cases (find_row j t)) [
      | inl missing ↦ rw (kept, missing) (find_among-save_row p t ks k v w (ground arith) good)
      | inr (u, row) ↦ elim (Bool-cases (p u)) [
        | inl meets ↦
            let this : ◌≡◌ {A = Option (ℕ × V)} (some (j, u)) (some (k, v)) = ground arith in
            absurd (ground arith)
        | inr fails ↦ rw (kept, row, fails) (find_among-save_row p t ks k v w (ground arith) good)
      ]
    ]
  ]

  pub keys-save_row :
      (k : ℕ) (v w : V) (t : Table V) → find_row k t ≡ some w → keys (save_row k v t) ≡ keys t
  keys-save_row k v w [] h = absurd (ground arith)
  keys-save_row k v w ((j, u) ∷ t) h = ground (arith, keys-save_row k v w t)
