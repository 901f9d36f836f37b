-- ===== src/Mines/Rounds/Steps.antt =====
-- The calls on the rounds as steps, and what each of them does to its session.
use rabbit_backend.Prelude.{
  ℕ, ◌-◌, ◌≤◌, ◌<◌, ◌≡◌, ◌⊎◌, true, false, none, some, List, leb, includes, ok, Bool-cases,
  Option-cases, inl, inr, arith,
}
use rabbit_backend.Prelude.Money.{Amount}
use rabbit_backend.Prelude.Table.{find_row, save_row}
use rabbit_backend.Mines.Board.{to_cell_index}
use rabbit_backend.Mines.Rounds.{
  Session, MinesDb, lost, cashed_out, is_running, start_game, find_session, win_of, pay_out, lose,
  reveal, raise, safe_reveals, make_move, cashout,
}

-- MIN_MINES and MAX_MINES
abbrev pub min_mines : ℕ
min_mines = 2

abbrev pub max_mines : ℕ
max_mines = 20

-- One committed call; the key of a new round is fresh, and its number of mines is one that
-- start-game.dto.ts admits.
pub data Step : MinesDb → MinesDb → Type 0 where
  started :
      (uid : ℕ) (bet : Amount) (mines_count : ℕ) (mines : List ℕ) (id : ℕ) (s : Session)
      {db after : MinesDb}
      → find_row id db.sessions ≡ none
      → min_mines ≤ mines_count
      → mines_count ≤ max_mines
      → start_game uid bet mines_count mines id db ≡ ok (s, after)
      → Step db after
  moved :
      (uid id x y now : ℕ) (s : Session) {db after : MinesDb}
      → make_move uid id x y now db ≡ ok (s, after)
      → Step db after
  cashed :
      (uid id now : ℕ) (s : Session) {db after : MinesDb}
      → cashout uid id now db ≡ ok (s, after)
      → Step db after

pub data History : MinesDb → MinesDb → Type 0 where
  start : {db : MinesDb} → History db db
  then_step :
      {first middle last : MinesDb} → History first middle → Step middle last → History first last

pub find_session-find_row :
    (uid id : ℕ) (db : MinesDb) (s : Session)
    → find_session uid id db ≡ some s
    → find_row id db.sessions ≡ some s
find_session-find_row uid id db s h = elim (Option-cases (find_row id db.sessions)) [
  | inl missing ↦ absurd (ground arith)
  | inr (t, row) ↦ ground arith
]

-- How a move that is not refused ends.
abbrev pub Moved : ℕ → ℕ → ℕ → ℕ → Session → MinesDb → Session → MinesDb → Type 0
Moved uid id cell now was db s after =
    ((includes was.mine_positions cell ≡ true)
      × (lose uid id now (reveal cell was) db ≡ ok (s, after)))
    ⊎ (((includes was.mine_positions cell ≡ false)
          × (pay_out uid id now (raise (reveal cell was)) db ≡ ok (s, after)))
        ⊎ ((includes was.mine_positions cell ≡ false)
            × (leb (was.board_size - was.mines_count) (safe_reveals (reveal cell was)) ≡ false)
            × (s ≡ raise (reveal cell was))
            × (after ≡ record db { sessions = save_row id s db.sessions })))

pub mover_session :
    (uid id x y now : ℕ) (s : Session) (db after : MinesDb)
    → make_move uid id x y now db ≡ ok (s, after)
    → (was : Session) × (find_session uid id db ≡ some was)
unfolding make_move
mover_session uid id x y now s db after h = elim (Option-cases (find_session uid id db)) [
  | inl missing ↦ absurd (ground arith)
  | inr found ↦ found
]

pub make_move-Moved :
    (uid id x y now : ℕ) (was s : Session) (db after : MinesDb)
    → find_session uid id db ≡ some was
    → make_move uid id x y now db ≡ ok (s, after)
    → (is_running was.status ≡ true)
      × (leb was.board_size (to_cell_index x y) ≡ false)
      × (includes was.revealed_cells (to_cell_index x y) ≡ false)
      × Moved uid id (to_cell_index x y) now was db s after
unfolding make_move
make_move-Moved uid id x y now was s db after found h = (
  ground arith,
  ground arith,
  ground arith,
  elim (Bool-cases (includes was.mine_positions (to_cell_index x y))) [
    | inl e ↦ inl (e, ground arith)
    | inr e ↦
        elim (Bool-cases (
          leb (was.board_size - was.mines_count) (safe_reveals (reveal (to_cell_index x y) was)))) [
            | inl f ↦ inr (inl (e, ground arith))
            | inr f ↦ inr (inr (e, f, ground arith, ground arith))
          ]
  ],
)

pub pay_out_settles :
    (uid id now : ℕ) (t s : Session) (db after : MinesDb)
    → pay_out uid id now t db ≡ ok (s, after)
    → s ≡ record t { status = cashed_out; win_amount = some (win_of t) }
unfolding pay_out
pay_out_settles uid id now t s db after h = elim (Option-cases (find_row uid db.vip.users)) [
  | inl missing ↦ absurd (ground arith)
  | inr (user, row) ↦ ground arith
]

pub lose_settles :
    (uid id now : ℕ) (t s : Session) (db after : MinesDb)
    → lose uid id now t db ≡ ok (s, after)
    → s ≡ record t { status = lost; win_amount = some 0 }
unfolding lose
lose_settles uid id now t s db after h = elim (Option-cases (find_row uid db.vip.users)) [
  | inl missing ↦ absurd (ground arith)
  | inr (user, row) ↦ ground arith
]

pub casher_session :
    (uid id now : ℕ) (s : Session) (db after : MinesDb)
    → cashout uid id now db ≡ ok (s, after)
    → (was : Session) × (find_session uid id db ≡ some was)
unfolding cashout
casher_session uid id now s db after h = elim (Option-cases (find_session uid id db)) [
  | inl missing ↦ absurd (ground arith)
  | inr found ↦ found
]

pub cashout_pays :
    (uid id now : ℕ) (was s : Session) (db after : MinesDb)
    → find_session uid id db ≡ some was
    → cashout uid id now db ≡ ok (s, after)
    → (is_running was.status ≡ true)
      × (0 < safe_reveals was)
      × (pay_out uid id now was db ≡ ok (s, after))
unfolding cashout
cashout_pays uid id now was s db after found h = (ground arith, ground arith, ground arith)
