-- ===== src/Mines/Tests.antt =====
-- A concrete round, and what the theorems say of it.
use rabbit_backend.Prelude.{
  ℕ, ◌-◌, ◌<◌, ◌≡◌, refl, none, some, List, [], ◌∷◌, length, Result, ok, err, arith,
}
use rabbit_backend.Prelude.Money.{Amount, round_div}
use rabbit_backend.Vip.Earning.{calculate_vip_earning, calculate_fixed_house_edge_vip_earning}
use rabbit_backend.Vip.Tiers.{get_vip_tier_for_xp}
use rabbit_backend.Vip.Store.{VipUser, record_earning}
use rabbit_backend.Mines.Board.{
  calculate_projected_win, count_safe_mines_reveals, path_from, build_mines_multiplier_path,
  to_cell_index, to_cell_position, collect_positions, insert_position, sort_positions,
  draw_mine_positions,
}
use rabbit_backend.Mines.Board.Path.{IsRising, IsFair, build_mines_multiplier_path-IsFair}
use rabbit_backend.Mines.Board.Cells.{to_cell_position-to_cell_index}
use rabbit_backend.Mines.Board.Draw.{
  IsIncreasing, IsWithin, draw_mine_positions-IsIncreasing, draw_mine_positions_returns,
}
use rabbit_backend.Mines.Rounds.{
  Session, active, MinesDb, MinesError, get_balance_stake, has_active_session, start_game,
  record_vip_earning, pay_out, make_move, cashout,
}
use rabbit_backend.Mines.Rounds.Paid.{Balanced}
use rabbit_backend.Mines.Rounds.Steps.{History, start, then_step, started, moved, cashed}
use rabbit_backend.Mines.Rounds.Money.{AllValid, rounds_balance}

build_mines_multiplier_path-IsFair_example :
    let path = build_mines_multiplier_path 25 3 in
    (length path ≡ 25 - 3) × IsRising 96 path × IsFair 25 (25 - 3) 1 1 path
build_mines_multiplier_path-IsFair_example =
    build_mines_multiplier_path-IsFair 25 3 (omega arith) (omega arith)

abbrev randoms : List ℕ
randoms = 17 ∷ 4 ∷ 17 ∷ 9 ∷ []

draw_mine_positions_returns_example :
    (drawn : List ℕ) × (draw_mine_positions 25 3 randoms ≡ some drawn)
draw_mine_positions_returns_example = draw_mine_positions_returns 25 3 randoms (omega arith)

abbrev mines : List ℕ
mines = 4 ∷ 9 ∷ 17 ∷ []

randoms_are_drawn : draw_mine_positions 25 3 randoms ≡ some mines
unfolding draw_mine_positions collect_positions sort_positions insert_position
randoms_are_drawn = refl

randoms-IsWithin : IsWithin 25 randoms
randoms-IsWithin = (omega arith, (omega arith, (omega arith, (omega arith, tt))))

draw_mine_positions-IsIncreasing_example :
    (length mines ≡ 3) × IsIncreasing 0 mines × IsWithin 25 mines
draw_mine_positions-IsIncreasing_example =
    draw_mine_positions-IsIncreasing 25 3 randoms (omega arith) (omega arith) randoms-IsWithin
      randoms_are_drawn

abbrev player : VipUser
player = record {
  balance = 2000;
  vip_xp = some 100;
  vip_theoretical_rake = some 10;
  vip_qualifying_volume = none;
}

abbrev db : MinesDb
db = record {
  vip = record { users = (1, player) ∷ []; ledger = []; claims = []; level_ups = [] };
  sessions = [];
}

abbrev no_session : Session
no_session = record {
  user_id = 0;
  bet_amount = 0;
  mines_count = 0;
  board_size = 0;
  mine_positions = [];
  revealed_cells = [];
  current_multiplier = 0;
  win_amount = none;
  status = active;
}

-- What a result holds, or a value in its place.
abbrev result_or : {A : Type 0} → A → Result MinesError A → A
result_or a (ok b) = b
result_or a (err _) = a

-- A bet of 10.00 on three mines, one safe cell, and the cash-out.
abbrev opening : Session × MinesDb
opening = result_or (no_session, db) (start_game 1 (Amount.at_least_zero 100000000000) 3 mines 7 db)

abbrev moving : Session × MinesDb
moving = result_or (no_session, db) (make_move 1 7 0 0 1000 opening.1)

abbrev closing : Session × MinesDb
closing = result_or (no_session, db) (cashout 1 7 2000 moving.1)

round_starts :
    start_game 1 (Amount.at_least_zero 100000000000) 3 mines 7 db ≡ ok (opening.0, opening.1)
unfolding start_game get_balance_stake has_active_session round_div
round_starts = refl

cell_opens : make_move 1 7 0 0 1000 opening.1 ≡ ok (moving.0, moving.1)
unfolding start_game get_balance_stake has_active_session round_div make_move to_cell_index
    count_safe_mines_reveals build_mines_multiplier_path path_from
cell_opens = refl

round_pays : cashout 1 7 2000 moving.1 ≡ ok (closing.0, closing.1)
unfolding start_game get_balance_stake has_active_session round_div make_move to_cell_index
    count_safe_mines_reveals build_mines_multiplier_path path_from cashout pay_out
    record_vip_earning record_earning calculate_fixed_house_edge_vip_earning calculate_vip_earning
    calculate_projected_win get_vip_tier_for_xp
round_pays = refl

abbrev history : History db closing.1
history =
    then_step
      (then_step
        (then_step start (
          started 1 (Amount.at_least_zero 100000000000) 3 mines 7 opening.0 refl (omega arith)
            (omega arith) round_starts))
        (moved 1 7 0 0 1000 moving.0 cell_opens))
      (cashed 1 7 2000 closing.0 round_pays)

rounds_balance_example : Balanced db closing.1 × AllValid closing.1
rounds_balance_example = rounds_balance tt history

to_cell_position-to_cell_index_example :
    (to_cell_position (to_cell_index 3 4) ≡ (3, 4))
    × (to_cell_index 3 4 < 25)
    × (to_cell_index (to_cell_position 17).0 (to_cell_position 17).1 ≡ 17)
    × ((to_cell_position 17).0 < 5)
    × ((to_cell_position 17).1 < 5)
to_cell_position-to_cell_index_example =
    to_cell_position-to_cell_index 3 4 17 (omega arith) (omega arith) (omega arith)
