-- ===== src/Mines/Board.antt =====
-- mines-game.logic.ts: the multipliers of a board, its cells and the draw of its mines.
pub mod Path
pub mod Draw
pub mod Cells
use rabbit_backend.Prelude.{
  ℕ, zero, suc, ◌+◌, ◌-◌, ◌*◌, ◌/◌, ◌%◌, Bool, true, false, not, ◌||◌, Option, none, some, List, [],
  ◌∷◌, ◌++◌, leb, if◌then◌else◌, length, keep, includes,
}
use rabbit_backend.Prelude.Money.{round_div}

abbrev pub mines_board_size : ℕ
mines_board_size = 25

abbrev pub mines_grid_size : ℕ
mines_grid_size = 5

unfoldable pub calculate_projected_win : ℕ → ℕ → ℕ
calculate_projected_win bet_amount multiplier = round_div (bet_amount * multiplier) 100

unfoldable pub count_safe_mines_reveals : List ℕ → List ℕ → ℕ
count_safe_mines_reveals revealed mines = length (keep (λ cell. not (includes mines cell)) revealed)

-- The multiplier of a probability `den / num`: the house returns 96 of 100.
abbrev pub multiplier_of : ℕ → ℕ → ℕ
multiplier_of num den = round_div (96 * num) den

-- The loop of `buildMinesMultiplierPath` for `left` more reveals; `cells` and `safe` are
-- `boardSize - revealIndex` and `safeCells - revealIndex`, and den / num is `safeProbability`.
unfoldable pub path_from : ℕ → ℕ → ℕ → ℕ → ℕ → List ℕ
path_from zero cells safe num den = []
path_from (suc left) cells safe num den =
    multiplier_of (num * cells) (den * safe)
    ∷ path_from left (cells - 1) (safe - 1) (num * cells) (den * safe)

unfoldable pub build_mines_multiplier_path : ℕ → ℕ → List ℕ
unfolding path_from
build_mines_multiplier_path board_size mines_count =
    let safe_cells = board_size - mines_count in
    if leb board_size 0 || leb mines_count 0 || leb safe_cells 0
    then []
    else path_from safe_cells board_size safe_cells 1 1

unfoldable pub to_cell_index : ℕ → ℕ → ℕ
to_cell_index x y = y * mines_grid_size + x

unfoldable pub to_cell_position : ℕ → ℕ × ℕ
to_cell_position index = (index % mines_grid_size, index / mines_grid_size)

-- `positions.add`, the newest first; the order does not outlive the sort
abbrev pub add_position : ℕ → List ℕ → List ℕ
add_position p ps = if includes ps p then ps else p ∷ ps

-- The `while` loop on the numbers that `randomInteger` returns; `none` while it still runs when
-- they are used up.
unfoldable pub collect_positions : ℕ → List ℕ → List ℕ → Option (List ℕ)
collect_positions mines_count ps [] = if leb mines_count (length ps) then some ps else none
collect_positions mines_count ps (r ∷ rs) =
    let rest = collect_positions mines_count (add_position r ps) rs in
    if leb mines_count (length ps) then some ps else rest

-- `sort((a, b) => a - b)`
unfoldable pub insert_position : ℕ → List ℕ → List ℕ
insert_position p [] = p ∷ []
insert_position p (q ∷ qs) =
    let rest = insert_position p qs in if leb p q then p ∷ q ∷ qs else q ∷ rest

unfoldable pub sort_positions : List ℕ → List ℕ
sort_positions [] = []
sort_positions (p ∷ ps) = insert_position p (sort_positions ps)

abbrev pub sorted_result : Option (List ℕ) → Option (List ℕ)
sorted_result none = none
sorted_result (some ps) = some (sort_positions ps)

unfoldable pub draw_mine_positions : ℕ → ℕ → List ℕ → Option (List ℕ)
draw_mine_positions board_size mines_count randoms =
    if leb board_size 0 || leb mines_count 0 || leb board_size mines_count
    then some []
    else sorted_result (collect_positions mines_count [] randoms)
