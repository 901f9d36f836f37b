-- ===== src/Mines/Board/Draw.antt =====
-- The draw of the mines.
use rabbit_backend.Prelude.{
  ℕ, suc, ◌≤◌, ◌<◌, ◌≡◌, refl, true, false, ◌||◌, some, List, [], ◌∷◌, leb, ◌==◌, length, All,
  includes, Bool-cases, Option-cases, inl, inr, arith, leb→le, le→leb,
}
use rabbit_backend.Mines.Board.{
  add_position, collect_positions, insert_position, sort_positions, draw_mine_positions,
}

-- Each number is at least `low` and above the one before.
abbrev pub IsIncreasing : ℕ → List ℕ → Type 0
IsIncreasing low [] = Unit
IsIncreasing low (p ∷ ps) = (low ≤ p) × IsIncreasing (suc p) ps

abbrev IsDistinct : List ℕ → Type 0
IsDistinct [] = Unit
IsDistinct (p ∷ ps) = (includes ps p ≡ false) × IsDistinct ps

abbrev pub IsWithin : ℕ → List ℕ → Type 0
IsWithin n ps = All (λ p. p < n) ps

includes-insert_position :
    (p : ℕ) (qs : List ℕ) (x : ℕ) → includes (insert_position p qs) x ≡ ((p == x) || includes qs x)
unfolding insert_position
includes-insert_position p [] x = refl
includes-insert_position p (q ∷ qs) x = ground (arith, includes-insert_position p qs x)

includes-sort_positions : (ps : List ℕ) (x : ℕ) → includes (sort_positions ps) x ≡ includes ps x
unfolding sort_positions
includes-sort_positions [] x = refl
includes-sort_positions (p ∷ ps) x =
    rw (includes-insert_position p (sort_positions ps) x, includes-sort_positions ps x) refl

length-insert_position : (p : ℕ) (qs : List ℕ) → length (insert_position p qs) ≡ suc (length qs)
unfolding insert_position
length-insert_position p [] = refl
length-insert_position p (q ∷ qs) = ground (arith, length-insert_position p qs)

length-sort_positions : (ps : List ℕ) → length (sort_positions ps) ≡ length ps
unfolding sort_positions
length-sort_positions [] = refl
length-sort_positions (p ∷ ps) =
    rw (length-insert_position p (sort_positions ps), length-sort_positions ps) refl

insert_position-IsWithin :
    (n p : ℕ) (qs : List ℕ) → p < n → IsWithin n qs → IsWithin n (insert_position p qs)
unfolding insert_position
insert_position-IsWithin n p [] h w = (h, tt)
insert_position-IsWithin n p (q ∷ qs) h (k, w) =
    let rest = insert_position-IsWithin n p qs h w in
    elim (Bool-cases (leb p q)) [ inl e ↦ rw e (h, (k, w)) | inr e ↦ rw e (k, rest) ]

sort_positions-IsWithin : (n : ℕ) (ps : List ℕ) → IsWithin n ps → IsWithin n (sort_positions ps)
unfolding sort_positions
sort_positions-IsWithin n [] w = tt
sort_positions-IsWithin n (p ∷ ps) (h, w) =
    insert_position-IsWithin n p (sort_positions ps) h (sort_positions-IsWithin n ps w)

insert_position-IsIncreasing :
    (low p : ℕ) (qs : List ℕ)
    → low ≤ p
    → includes qs p ≡ false
    → IsIncreasing low qs
    → IsIncreasing low (insert_position p qs)
unfolding insert_position
insert_position-IsIncreasing low p [] h fresh up = (h, tt)
insert_position-IsIncreasing low p (q ∷ qs) h fresh (k, up) = elim (Bool-cases (leb p q)) [
  | inl e ↦ rw e (h, (ground arith, up))
  | inr e ↦ rw e (k, insert_position-IsIncreasing (suc q) p qs (ground arith) (ground arith) up)
]

sort_positions-IsIncreasing : (ps : List ℕ) → IsDistinct ps → IsIncreasing 0 (sort_positions ps)
unfolding sort_positions
sort_positions-IsIncreasing [] d = tt
sort_positions-IsIncreasing (p ∷ ps) (fresh, d) =
    insert_position-IsIncreasing 0 p (sort_positions ps) (omega arith)
      (rw (includes-sort_positions ps p) fresh) (sort_positions-IsIncreasing ps d)

-- The numbers collected so far.
record Collected (n mines_count : ℕ) (ps : List ℕ) : Type 0 where
  distinct : IsDistinct ps
  within : IsWithin n ps
  few : length ps ≤ mines_count

add_position-Collected :
    (n mines_count r : ℕ) (ps : List ℕ)
    → r < n
    → leb mines_count (length ps) ≡ false
    → Collected n mines_count ps
    → Collected n mines_count (add_position r ps)
add_position-Collected n mines_count r ps h short c = elim (Bool-cases (includes ps r)) [
  | inl e ↦ rw e c
  | inr e ↦ rw e (record { distinct = (e, c.distinct); within = (h, c.within); few = ground arith })
]

Collected-enough :
    {n mines_count : ℕ} {ps found : List ℕ}
    → Collected n mines_count ps
    → leb mines_count (length ps) ≡ true
    → some ps ≡ some found
    → Collected n mines_count found × (length found ≡ mines_count)
Collected-enough {mines_count = m} {ps = ps} {found = found} c e h =
    let same : found ≡ ps = ground arith in
    let full = leb→le m (length ps) e in rw same (c, omega arith)

collect_positions-Collected :
    (n mines_count : ℕ) (ps rs : List ℕ) {found : List ℕ}
    → IsWithin n rs
    → Collected n mines_count ps
    → collect_positions mines_count ps rs ≡ some found
    → Collected n mines_count found × (length found ≡ mines_count)
unfolding collect_positions
collect_positions-Collected n mines_count ps [] w c h =
    elim (Bool-cases (leb mines_count (length ps))) [
      | inl e ↦ Collected-enough c e (rw e at h)
      | inr e ↦ absurd (ground arith)
    ]
collect_positions-Collected n mines_count ps (r ∷ rs) (k, w) c h =
    let rest = collect_positions-Collected n mines_count (add_position r ps) rs w in
    elim (Bool-cases (leb mines_count (length ps))) [
      | inl e ↦ Collected-enough c e (rw e at h)
      | inr e ↦ rest (add_position-Collected n mines_count r ps k e c) (rw e at h)
    ]

-- A draw that has collected enough numbers, each below the size of the board as the generator
-- promises: the positions are as many as the mines, increasing and so distinct, and on the board.
pub draw_mine_positions-IsIncreasing :
    (board_size mines_count : ℕ) (randoms : List ℕ) {mines : List ℕ}
    → 0 < mines_count
    → mines_count < board_size
    → IsWithin board_size randoms
    → draw_mine_positions board_size mines_count randoms ≡ some mines
    → (length mines ≡ mines_count) × IsIncreasing 0 mines × IsWithin board_size mines
unfolding draw_mine_positions
draw_mine_positions-IsIncreasing board_size mines_count randoms {mines = mines} p q w h =
    let proper : (leb board_size 0 || leb mines_count 0 || leb board_size mines_count) ≡ false =
      ground arith in
    elim (Option-cases (collect_positions mines_count [] randoms)) [
      | inl e ↦ absurd (ground arith)
      | inr (found, e) ↦
          let start : Collected board_size mines_count [] = record {
            distinct = tt;
            within = tt;
            few = omega arith;
          } in
          let (c, full) = collect_positions-Collected board_size mines_count [] randoms w start e in
          let sorted : mines ≡ sort_positions found = ground arith in
          rw (sorted, length-sort_positions found)
            (
              full,
              sort_positions-IsIncreasing found c.distinct,
              sort_positions-IsWithin board_size found c.within,
            )
    ]

-- The distinct numbers of a list, beside those of another.
abbrev pub distinct_numbers : List ℕ → List ℕ → List ℕ
distinct_numbers ps [] = ps
distinct_numbers ps (r ∷ rs) = distinct_numbers (add_position r ps) rs

collect_positions_returns :
    (mines_count : ℕ) (ps rs : List ℕ)
    → mines_count ≤ length (distinct_numbers ps rs)
    → (found : List ℕ) × (collect_positions mines_count ps rs ≡ some found)
unfolding collect_positions
collect_positions_returns m ps [] h = (ps, rw (le→leb m (length ps) h) refl)
collect_positions_returns m ps (r ∷ rs) h =
    let (found, e') = collect_positions_returns m (add_position r ps) rs h in
    elim (Bool-cases (leb m (length ps))) [ inl e ↦ (ps, rw e refl) | inr e ↦ (found, rw e e') ]

-- The draw ends as soon as the generator has returned as many distinct numbers as there are mines.
pub draw_mine_positions_returns :
    (board_size mines_count : ℕ) (randoms : List ℕ)
    → mines_count ≤ length (distinct_numbers [] randoms)
    → (mines : List ℕ) × (draw_mine_positions board_size mines_count randoms ≡ some mines)
unfolding draw_mine_positions
draw_mine_positions_returns board_size mines_count randoms h =
    let (found, e) = collect_positions_returns mines_count [] randoms h in
    elim (Bool-cases (leb board_size 0 || leb mines_count 0 || leb board_size mines_count)) [
      | inl c ↦ ([], rw c refl)
      | inr c ↦ (sort_positions found, rw (c, e) refl)
    ]
