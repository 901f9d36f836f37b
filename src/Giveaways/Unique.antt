-- ===== src/Giveaways/Unique.antt =====
-- Lists of participants: no id stands twice, and an index finds an id of the list.
use rabbit_backend.Prelude.{
  ℕ, zero, suc, ◌≡◌, refl, true, false, not, ◌&&◌, ◌||◌, some, List, [], ◌∷◌, ◌++◌, includes,
  unique, all_unique, get_elem?, keep, ◌==◌, ==_refl, ==→eq, Bool-cases, inl, inr, arith,
}

includes-keep_other :
    (id a : ℕ) (ids : List ℕ)
    → includes (keep (λ other. not (other == id)) ids) a ≡ (includes ids a && not (a == id))
includes-keep_other id a [] = refl
includes-keep_other id a (x ∷ ids) =
    let rest = includes-keep_other id a ids in
    elim (Bool-cases (x == a)) [
      | inl same ↦ let e = ==→eq x a same in ground (arith, rest)
      | inr other ↦ ground (arith, rest)
    ]

pub includes-unique : (a : ℕ) (ids : List ℕ) → includes (unique ids) a ≡ includes ids a
includes-unique a [] = refl
includes-unique a (x ∷ ids) =
    let rest = includes-unique a ids in
    let others = includes-keep_other x a (unique ids) in
    elim (Bool-cases (x == a)) [
      | inl same ↦ rw same refl
      | inr other ↦
          let differ : (a == x) ≡ false = ground arith in
          rw (other, others, differ, rest) (ground arith)
    ]

all_unique-keep_other :
    (id : ℕ) (ids : List ℕ)
    → all_unique ids ≡ true
    → all_unique (keep (λ other. not (other == id)) ids) ≡ true
all_unique-keep_other id [] h = refl
all_unique-keep_other id (x ∷ ids) h =
    let rest = all_unique-keep_other id ids (ground arith) in
    let others = includes-keep_other id x ids in
    elim (Bool-cases (x == id)) [
      | inl same ↦ rw same rest
      | inr other ↦
          let alone : includes ids x ≡ false = ground arith in rw (other, others, alone, rest) refl
    ]

pub all_unique-unique : (ids : List ℕ) → all_unique (unique ids) ≡ true
all_unique-unique [] = refl
all_unique-unique (x ∷ ids) =
    let rest = all_unique-keep_other x (unique ids) (all_unique-unique ids) in
    let others = includes-keep_other x x (unique ids) in
    let self = ==_refl x in rw (others, self, rest) (ground arith)

includes-snoc : (a b : ℕ) (ids : List ℕ) → includes (ids ++ b ∷ []) a ≡ (includes ids a || (b == a))
includes-snoc a b [] = ground arith
includes-snoc a b (x ∷ ids) = ground (arith, includes-snoc a b ids)

pub all_unique-snoc :
    (b : ℕ) (ids : List ℕ)
    → all_unique ids ≡ true
    → includes ids b ≡ false
    → all_unique (ids ++ b ∷ []) ≡ true
all_unique-snoc b [] h fresh = refl
all_unique-snoc b (x ∷ ids) h fresh =
    let alone : includes ids x ≡ false = ground arith in
    let differ : (b == x) ≡ false = ground arith in
    let rest = all_unique-snoc b ids (ground arith) (ground arith) in
    rw (includes-snoc x b ids, alone, differ, rest) refl

pub includes-get_elem? : (i a : ℕ) (ids : List ℕ) → get_elem? ids i ≡ some a → includes ids a ≡ true
includes-get_elem? i a [] h = absurd (ground arith)
includes-get_elem? zero a (x ∷ ids) h =
    let this : x ≡ a = ground arith in rw this (rw (==_refl a) refl)
includes-get_elem? (suc i) a (x ∷ ids) h = rw (includes-get_elem? i a ids h) (ground arith)
