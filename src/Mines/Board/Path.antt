-- ===== src/Mines/Board/Path.antt =====
-- The multipliers of a board.
use rabbit_backend.Prelude.{
  ℕ, zero, suc, ◌+◌, ◌-◌, ◌*◌, ◌≤◌, ◌<◌, ◌≡◌, refl, false, ◌||◌, List, [], ◌∷◌, leb, length, arith,
}
use rabbit_backend.Prelude.Money.{round_div, round_div_bounds, round_div_mono, round_div_scale}
use rabbit_backend.Mines.Board.{multiplier_of, path_from, build_mines_multiplier_path}

-- Every multiplier is at least the one before.
abbrev pub IsRising : ℕ → List ℕ → Type 0
IsRising low [] = Unit
IsRising low (m ∷ ms) = (low ≤ m) × IsRising m ms

-- Each multiplier times the chance of its reveals is 96 hundredths, up to a rounding of half a
-- hundredth; den / num is the chance of the reveals before.
abbrev pub IsFair : ℕ → ℕ → ℕ → ℕ → List ℕ → Type 0
IsFair cells safe num den [] = Unit
IsFair cells safe num den (m ∷ ms) =
    (2 * (m * (den * safe)) ≤ 2 * (96 * (num * cells)) + den * safe)
    × (2 * (96 * (num * cells)) < 2 * (m * (den * safe)) + den * safe)
    × IsFair (cells - 1) (safe - 1) (num * cells) (den * safe) ms

mul_pos : (a b : ℕ) → 0 < a → 0 < b → 0 < a * b
mul_pos a b p q = grind arith

scaled_le : (n a b : ℕ) → a ≤ b → n * a ≤ n * b
scaled_le n a b h = grind arith

-- One more reveal never lowers the multiplier.
multiplier_of_mono :
    (cells safe num den : ℕ)
    → 0 < safe
    → safe ≤ cells
    → multiplier_of num den ≤ multiplier_of (num * cells) (den * safe)
multiplier_of_mono cells safe num den p h =
    let scaled = round_div_scale (96 * num) den safe p in
    let wider = scaled_le (96 * num) safe cells h in
    let grown : 96 * num * safe ≤ 96 * (num * cells) = omega arith in
    let higher = round_div_mono (96 * num * safe) (96 * (num * cells)) (den * safe) grown in
    rw scaled at higher

path_from-IsRising :
    (left cells safe num den : ℕ)
    → left ≤ safe
    → safe ≤ cells
    → IsRising (multiplier_of num den) (path_from left cells safe num den)
unfolding path_from
path_from-IsRising zero cells safe num den h k = tt
path_from-IsRising (suc left) cells safe num den h k = (
  multiplier_of_mono cells safe num den (omega arith) k,
  path_from-IsRising left (cells - 1) (safe - 1) (num * cells) (den * safe) (omega arith)
      (omega arith),
)

path_from-IsFair :
    (left cells safe num den : ℕ)
    → left ≤ safe
    → 0 < den
    → IsFair cells safe num den (path_from left cells safe num den)
unfolding path_from
path_from-IsFair zero cells safe num den h p = tt
path_from-IsFair (suc left) cells safe num den h p =
    let q = mul_pos den safe p (omega arith) in
    let (low, high) = round_div_bounds (96 * (num * cells)) (den * safe) q in
    (
      low,
      high,
      path_from-IsFair left (cells - 1) (safe - 1) (num * cells) (den * safe) (omega arith) q,
    )

length-path_from : (left cells safe num den : ℕ) → length (path_from left cells safe num den) ≡ left
unfolding path_from
length-path_from zero cells safe num den = refl
length-path_from (suc left) cells safe num den =
    omega (arith, length-path_from left (cells - 1) (safe - 1) (num * cells) (den * safe))

-- For a number of mines between none and the whole board: there is one multiplier for each safe
-- cell, no multiplier is below the one before or below 96 hundredths, and each is 96 hundredths
-- over the chance of its reveals, rounded to a hundredth.
pub build_mines_multiplier_path-IsFair :
    (board_size mines_count : ℕ)
    → 0 < mines_count
    → mines_count < board_size
    → let path = build_mines_multiplier_path board_size mines_count in
      (length path ≡ board_size - mines_count)
      × IsRising 96 path
      × IsFair board_size (board_size - mines_count) 1 1 path
unfolding build_mines_multiplier_path round_div
build_mines_multiplier_path-IsFair board_size mines_count p h =
    let safe = board_size - mines_count in
    let open_path : (leb board_size 0 || leb mines_count 0 || leb safe 0) ≡ false = ground arith in
    rw open_path (
      length-path_from safe board_size safe 1 1,
      path_from-IsRising safe board_size safe 1 1 (omega arith) (omega arith),
      path_from-IsFair safe board_size safe 1 1 (omega arith) (omega arith),
    )
