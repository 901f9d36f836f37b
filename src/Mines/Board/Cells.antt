-- ===== src/Mines/Board/Cells.antt =====
-- The numbers of the cells and their places on the grid.
use Prim.Native.Nat.{◌/◌, ◌%◌}
use rabbit_backend.Prelude.{ℕ, ◌+◌, ◌*◌, ◌<◌, ◌≡◌, refl, arith}
use rabbit_backend.Mines.Board.{to_cell_index, to_cell_position}

-- The cells of the grid of five by five and the numbers below 25 stand for each other: a cell's number
-- is below 25 and gives the cell back, and a number's cell is on the grid and gives the number back.
pub to_cell_position-to_cell_index :
    (x y index : ℕ)
    → x < 5
    → y < 5
    → index < 25
    → (to_cell_position (to_cell_index x y) ≡ (x, y))
      × (to_cell_index x y < 25)
      × (to_cell_index (to_cell_position index).0 (to_cell_position index).1 ≡ index)
      × ((to_cell_position index).0 < 5)
      × ((to_cell_position index).1 < 5)
unfolding to_cell_index to_cell_position
to_cell_position-to_cell_index x y index h k l =
    let column : (y * 5 + x) % 5 ≡ x = grind arith in
    let row : (y * 5 + x) / 5 ≡ y = grind arith in
    (rw (column, row) refl, omega arith, grind arith, grind arith, grind arith)
