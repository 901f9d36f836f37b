-- ===== src/Partners/Levels.antt =====
-- The level of a partner is the highest whose threshold the deposits have reached.
use rabbit_backend.Prelude.{
  ℕ, ◌≤◌, ◌<◌, ◌≡◌, ◌⊎◌, inl, inr, true, false, some, Bool, List, [], ◌∷◌, leb, if◌then◌else◌, All,
  Any, leb→le, sym, refl, ap, ◌∙◌, ◌==◌, ==_refl, ==→eq, Bool-cases, arith,
}
use mathlib.Core.Path.{subst}
use rabbit_backend.Prelude.Table.{find_row, save_row, find_row-save_row_self}
use rabbit_backend.Partners.{
  LevelRow, Profile, PartnerDb, bronze, insert_level, sort_levels, next_level, recompute_level,
}

-- Level rows in ascending order
Ascending : List LevelRow → Type 0
Ascending [] = Unit
Ascending (r ∷ rs) = All (λ s. r.level ≤ s.level) rs × Ascending rs

All-map :
    (P Q : LevelRow → Type 0)
    → ((r : LevelRow) → P r → Q r)
    → (rs : List LevelRow) → All P rs
    → All Q rs
All-map P Q f [] h = tt
All-map P Q f (r ∷ rs) (p, rest) = (f r p, All-map P Q f rs rest)

All-insert_level :
    (P : LevelRow → Type 0) (r : LevelRow) (rs : List LevelRow)
    → P r
    → All P rs
    → All P (insert_level r rs)
All-insert_level P r [] p h = (p, tt)
All-insert_level P r (s ∷ rest) p (q, h) = elim (Bool-cases (leb r.level s.level)) [
  | inl e ↦ rw e (p, (q, h))
  | inr e ↦ rw e (q, All-insert_level P r rest p h)
]

All-insert_level_back :
    (P : LevelRow → Type 0) (r : LevelRow) (rs : List LevelRow)
    → All P (insert_level r rs)
    → P r × All P rs
All-insert_level_back P r [] (p, h) = (p, tt)
All-insert_level_back P r (s ∷ rest) h =
    placed (leb r.level s.level) (All-insert_level_back P r rest) h
  where
    placed :
        (first : Bool)
        → (All P (insert_level r rest) → P r × All P rest)
        → All P (if first then r ∷ s ∷ rest else s ∷ insert_level r rest)
        → P r × All P (s ∷ rest)
    placed true _ (p, (q, t)) = (p, (q, t))
    placed false back (q, t) = let (p, t') = back t in (p, (q, t'))

All-sort_levels : (P : LevelRow → Type 0) (rs : List LevelRow) → All P rs → All P (sort_levels rs)
All-sort_levels P [] h = tt
All-sort_levels P (r ∷ rs) (p, h) = All-insert_level P r (sort_levels rs) p (All-sort_levels P rs h)

All-sort_levels_back :
    (P : LevelRow → Type 0) (rs : List LevelRow) → All P (sort_levels rs) → All P rs
All-sort_levels_back P [] h = tt
All-sort_levels_back P (r ∷ rs) h =
    let (p, t) = All-insert_level_back P r (sort_levels rs) h in (p, All-sort_levels_back P rs t)

insert_level-Ascending :
    (r : LevelRow) (rs : List LevelRow) → Ascending rs → Ascending (insert_level r rs)
unfolding Ascending
insert_level-Ascending r [] h = (tt, tt)
insert_level-Ascending r (s ∷ rest) (low, h) = elim (Bool-cases (leb r.level s.level)) [
  | inl e ↦
      let below : r.level ≤ s.level = ground arith in
      rw (e, Ascending)
        (
          (
            below,
            All-map (λ t. s.level ≤ t.level) (λ t. r.level ≤ t.level) (λ t le. omega arith) rest
                low,
          ),
          (low, h),
        )
  | inr e ↦
      let below : s.level ≤ r.level = ground arith in
      rw (e, Ascending)
        (
          All-insert_level (λ t. s.level ≤ t.level) r rest below low,
          insert_level-Ascending r rest h,
        )
]

sort_levels-Ascending : (rs : List LevelRow) → Ascending (sort_levels rs)
unfolding Ascending
sort_levels-Ascending [] = tt
sort_levels-Ascending (r ∷ rs) =
    insert_level-Ascending r (sort_levels rs) (sort_levels-Ascending rs)

-- The loop never goes down.
next_level_least :
    (total chosen low : ℕ) (rs : List LevelRow)
    → low ≤ chosen
    → All (λ r. low ≤ r.level) rs
    → low ≤ next_level total chosen rs
unfolding next_level
next_level_least total chosen low [] h t = h
next_level_least total chosen low (r ∷ rs) h (q, t) =
    let rest = next_level_least total r.level low rs q t in ground arith

Any-insert_level :
    (P : LevelRow → Type 0) (r : LevelRow) (rs : List LevelRow)
    → Any P (insert_level r rs)
    → P r ⊎ Any P rs
Any-insert_level P r [] h = h
Any-insert_level P r (s ∷ rest) h = placed (leb r.level s.level) (Any-insert_level P r rest) h
  where
    placed :
        (first : Bool)
        → (Any P (insert_level r rest) → P r ⊎ Any P rest)
        → Any P (if first then r ∷ s ∷ rest else s ∷ insert_level r rest)
        → P r ⊎ Any P (s ∷ rest)
    placed true _ t = t
    placed false _ (inl q) = inr (inl q)
    placed false back (inr t) = elim (back t) [ inl p ↦ inl p | inr u ↦ inr (inr u) ]

Any-sort_levels : (P : LevelRow → Type 0) (rs : List LevelRow) → Any P (sort_levels rs) → Any P rs
Any-sort_levels P [] h = h
Any-sort_levels P (r ∷ rs) h = elim (Any-insert_level P r (sort_levels rs) h) [
  | inl p ↦ inl p
  | inr t ↦ inr (Any-sort_levels P rs t)
]

-- A level that is the first one, or that some row stands for whose threshold has been reached.
pub Reached : ℕ → ℕ → List LevelRow → Type 0
Reached total level rs = Any (λ r. (r.level ≡ level) × (r.min_referrals_deposit ≤ total)) rs

next_level-Reached :
    (total chosen : ℕ) (rs : List LevelRow)
    → (next_level total chosen rs ≡ chosen) ⊎ Reached total (next_level total chosen rs) rs
unfolding next_level Reached
next_level-Reached total chosen [] = inl refl
next_level-Reached total chosen (r ∷ rs) = elim (Bool-cases (leb r.min_referrals_deposit total)) [
  | inr above ↦ inl (rw above refl)
  | inl below ↦
      let rest : next_level total r.level rs ≡ next_level total chosen (r ∷ rs) = rw below refl in
      subst (λ n. (n ≡ chosen) ⊎ Reached total n (r ∷ rs)) rest
        (elim (next_level-Reached total r.level rs) [
          | inl same ↦ inr (inl (sym same, leb→le r.min_referrals_deposit total below))
          | inr later ↦ inr (inr later)
        ])
]

-- A row of no higher level, or with a threshold above the total
pub IsPast : ℕ → ℕ → LevelRow → Type 0
IsPast total level r = (r.level ≤ level) ⊎ (total < r.min_referrals_deposit)

module _ (threshold : ℕ → ℕ) (rising : (m n : ℕ) → m ≤ n → threshold m ≤ threshold n) where
  -- What the loop leaves out.
  beyond :
      (total chosen : ℕ) (r : LevelRow) (rs : List LevelRow)
      → total < threshold r.level
      → All (λ s. r.level ≤ s.level) rs
      → All (λ s. s.min_referrals_deposit ≡ threshold s.level) rs
      → All (IsPast total chosen) rs
  unfolding IsPast
  beyond total chosen r [] above low t = tt
  beyond total chosen r (s ∷ rs) above (le, low) (q, t) = (
    inr (let up = rising r.level s.level le in omega arith),
    beyond total chosen r rs above low t,
  )

  next_level_highest :
      (total chosen : ℕ) (rs : List LevelRow)
      → Ascending rs
      → All (λ r. r.min_referrals_deposit ≡ threshold r.level) rs
      → All (IsPast total (next_level total chosen rs)) rs
  unfolding next_level Ascending IsPast
  next_level_highest total chosen [] h t = tt
  next_level_highest total chosen (r ∷ rs) (low, h) (q, t) =
      elim (Bool-cases (leb r.min_referrals_deposit total)) [
        | inl below ↦
            let least = next_level_least total r.level r.level rs (omega arith) low in
            let rest : next_level total r.level rs ≡ next_level total chosen (r ∷ rs) =
              rw below refl in
            subst (λ n. All (IsPast total n) (r ∷ rs)) rest
              (inl least, next_level_highest total r.level rs h t)
        | inr above ↦
            let over : total < threshold r.level = ground arith in
            let kept : chosen ≡ next_level total chosen (r ∷ rs) = rw above refl in
            subst (λ n. All (IsPast total n) (r ∷ rs)) kept
              (inr (omega arith), beyond total chosen r rs over low t)
      ]

  -- Levels whose thresholds do not fall from one level to the next, in any order in the table, and a
  -- partner with a profile: the level is the highest one reached. All rows of a higher level have a
  -- threshold above the partner's total; the level itself is the first one, or a row of it has a
  -- threshold that the total reaches. It is stored, and computing it again changes nothing.
  pub recompute_level_highest :
      (uid : ℕ) (profile : Profile) (db : PartnerDb)
      → find_row uid db.profiles ≡ some profile
      → All (λ r. r.min_referrals_deposit ≡ threshold r.level) db.levels
      → let total = profile.total_referrals_deposit in
        (level : ℕ) × (after : PartnerDb) × (recompute_level uid db ≡ (level, after))
        × All (IsPast total level) db.levels
        × ((level ≡ bronze) ⊎ Reached total level db.levels)
        × (find_row uid after.profiles ≡ some (record profile { level = level }))
        × (recompute_level uid after ≡ (level, after))
  unfolding recompute_level Reached
  recompute_level_highest uid profile db row thresholds =
      let total = profile.total_referrals_deposit in
      let level = next_level total bronze (sort_levels db.levels) in
      let highest = All-sort_levels_back (IsPast total level) db.levels (
        next_level_highest total bronze (sort_levels db.levels) (sort_levels-Ascending db.levels) (
          All-sort_levels (λ r. r.min_referrals_deposit ≡ threshold r.level) db.levels
            thresholds)) in
      let reached : (level ≡ bronze) ⊎ Reached total level db.levels =
        elim (next_level-Reached total bronze (sort_levels db.levels)) [
          | inl first ↦ inl first
          | inr some_row ↦ inr (
              Any-sort_levels (λ r. (r.level ≡ level) × (r.min_referrals_deposit ≤ total)) db.levels
                some_row)
        ] in
      let stored = find_row-save_row_self uid (record profile { level = level }) db.profiles in
      elim (Bool-cases (profile.level == level)) [
        | inl same ↦
            let kept =
              ap (λ l. some (record profile { level = l })) (==→eq profile.level level same) in
            (
              level,
              db,
              rw (recompute_level, row, same) refl,
              highest,
              reached,
              row ∙ kept,
              rw (recompute_level, row, same) refl,
            )
        | inr other ↦ (
          level,
          record db { profiles = save_row uid (record profile { level = level }) db.profiles },
          rw (recompute_level, row, other) refl,
          highest,
          reached,
          stored,
          rw (recompute_level, stored, ==_refl level) refl,
        )
      ]
