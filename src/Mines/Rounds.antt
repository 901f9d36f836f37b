-- ===== src/Mines/Rounds.antt =====
-- mines.service.ts: the rounds, each call a transaction with the rows locked. `now` is the moment of
-- the call, `id` the fresh key of a new round, and `mines` the draw of its mines. The stakes are of
-- the balance mode; the stake in skins is not modelled. The replies are the changed session.
pub mod Steps
pub mod Play
pub mod Paid
pub mod Money
use rabbit_backend.Prelude.{
  ℕ, ◌+◌, ◌-◌, ◌*◌, Bool, true, false, not, ◌&&◌, Option, none, some, List, [], ◌∷◌, ◌++◌, ltb, leb,
  ◌==◌, if◌then◌else◌, get_elem?, includes, Result, ok, err, ◌>>=◌, ◌>>◌, throw_if, or_throw,
}
use rabbit_backend.Prelude.Money.{round_div, Amount, units_per_cent}
use rabbit_backend.Prelude.Table.{Table, find_row, save_row}
use rabbit_backend.Vip.Earning.{
  LedgerSource, mines_product_house_edge_bps, VipEarning, calculate_fixed_house_edge_vip_earning,
}
use rabbit_backend.Vip.Store.{VipUser, VipDb, record_earning}
use rabbit_backend.Mines.Board.{
  mines_board_size, calculate_projected_win, count_safe_mines_reveals, build_mines_multiplier_path,
  to_cell_index,
}

pub data SessionStatus : Type 0 where
  active lost cashed_out : SessionStatus

abbrev pub is_running : SessionStatus → Bool
is_running active = true
is_running _ = false

pub record Session : Type 0 where
  pub user_id : ℕ
  pub bet_amount : ℕ
  pub mines_count : ℕ
  pub board_size : ℕ
  pub mine_positions : List ℕ
  pub revealed_cells : List ℕ
  pub current_multiplier : ℕ
  pub win_amount : Option ℕ
  pub status : SessionStatus

pub record MinesDb : Type 0 where
  pub vip : VipDb  -- with the users
  pub sessions : Table Session

pub data MinesError : Type 0 where
  user_not_found session_not_found unfinished_game invalid_bet stake_too_low stake_too_high :
      MinesError
  insufficient_balance not_active invalid_cell already_revealed nothing_revealed : MinesError

-- UPGRADE_LIMITS.MIN_AMOUNT and MAX_AMOUNT
abbrev pub min_stake : ℕ
min_stake = 50

abbrev pub max_stake : ℕ
max_stake = 500000

-- `getBalanceStake` with `assertStakeAmount`, for a stake in units of 10^-10
unfoldable pub get_balance_stake : Amount → Result MinesError ℕ
get_balance_stake Amount.not_finite = err invalid_bet
get_balance_stake (Amount.below_zero _) = err stake_too_low
get_balance_stake (Amount.at_least_zero stake) = do
  throw_if (ltb stake (min_stake * units_per_cent)) stake_too_low
  throw_if (ltb (max_stake * units_per_cent) stake) stake_too_high
  ok (round_div stake units_per_cent)

-- The row that `assertNoActiveSession` looks for
unfoldable pub has_active_session : ℕ → Table Session → Bool
has_active_session uid [] = false
has_active_session uid ((_, s) ∷ rows) =
    let rest = has_active_session uid rows in
    if s.user_id == uid && is_running s.status then true else rest

-- `startGame` in balance mode
unfoldable pub start_game :
    ℕ → Amount → ℕ → List ℕ → ℕ → MinesDb → Result MinesError (Session × MinesDb)
start_game uid bet mines_count mines id db = do
  user ← or_throw (find_row uid db.vip.users) user_not_found
  throw_if (has_active_session uid db.sessions) unfinished_game
  bet_amount ← get_balance_stake bet
  throw_if (ltb user.balance bet_amount) insufficient_balance
  let paid : VipUser = record user { balance = user.balance - bet_amount }
  let session : Session = record {
    user_id = uid;
    bet_amount = bet_amount;
    mines_count = mines_count;
    board_size = mines_board_size;
    mine_positions = mines;
    revealed_cells = [];
    current_multiplier = 100;
    win_amount = none;
    status = active;
  }
  ok (
    session,
    record {
      vip = record (db.vip) { users = save_row uid paid db.vip.users };
      sessions = save_row id session db.sessions;
    },
  )

abbrev pub session_of : ℕ → Option Session → Option Session
session_of uid none = none
session_of uid (some s) = if s.user_id == uid then some s else none

-- The row that `lockSession` finds
abbrev pub find_session : ℕ → ℕ → MinesDb → Option Session
find_session uid id db = session_of uid (find_row id db.sessions)

abbrev pub mines_earning : Session → VipEarning
mines_earning s =
    calculate_fixed_house_edge_vip_earning LedgerSource.mines_round
      (Amount.at_least_zero s.bet_amount) mines_product_house_edge_bps

-- `recordVipEarning` for the user that the caller holds, then `manager.save(user)`
unfoldable pub record_vip_earning : ℕ → VipUser → Session → ℕ → VipDb → VipDb
record_vip_earning uid user s now vip =
    let (user', vip') = record_earning uid user (mines_earning s) now vip in
    record vip' { users = save_row uid user' vip'.users }

abbrev pub win_of : Session → ℕ
win_of s = calculate_projected_win s.bet_amount s.current_multiplier

-- Pays a session out: the end of `cashout`, and of `makeMove` on the last safe cell.
unfoldable pub pay_out : ℕ → ℕ → ℕ → Session → MinesDb → Result MinesError (Session × MinesDb)
pay_out uid id now s db = do
  user ← or_throw (find_row uid db.vip.users) user_not_found
  let won : Session = record s { status = cashed_out; win_amount = some (win_of s) }
  let paid : VipUser = record user { balance = user.balance + win_of s }
  ok (
    won,
    record {
      vip = record_vip_earning uid paid won now db.vip;
      sessions = save_row id won db.sessions;
    },
  )

unfoldable pub lose : ℕ → ℕ → ℕ → Session → MinesDb → Result MinesError (Session × MinesDb)
lose uid id now s db = do
  user ← or_throw (find_row uid db.vip.users) user_not_found
  let ended : Session = record s { status = lost; win_amount = some 0 }
  ok (
    ended,
    record {
      vip = (record_earning uid user (mines_earning ended) now db.vip).1;
      sessions = save_row id ended db.sessions;
    },
  )

abbrev pub or_current : Option ℕ → ℕ → ℕ
or_current none current = current
or_current (some m) current = m

-- The session after a cell of it is revealed
abbrev pub reveal : ℕ → Session → Session
reveal cell s = record s { revealed_cells = s.revealed_cells ++ (cell ∷ []) }

abbrev pub safe_reveals : Session → ℕ
safe_reveals s = count_safe_mines_reveals s.revealed_cells s.mine_positions

-- The session with the multiplier of its safe reveals
abbrev pub raise : Session → Session
raise s = record s {
  current_multiplier =
      or_current
        (get_elem? (build_mines_multiplier_path s.board_size s.mines_count) (safe_reveals s - 1))
        s.current_multiplier;
}

unfoldable pub make_move : ℕ → ℕ → ℕ → ℕ → ℕ → MinesDb → Result MinesError (Session × MinesDb)
make_move uid id x y now db = do
  session ← or_throw (find_session uid id db) session_not_found
  throw_if (not (is_running session.status)) not_active
  let cell = to_cell_index x y
  throw_if (leb session.board_size cell) invalid_cell
  throw_if (includes session.revealed_cells cell) already_revealed
  let revealed = reveal cell session
  let raised = raise revealed
  if includes session.mine_positions cell
      then lose uid id now revealed db
      else if leb (session.board_size - session.mines_count) (safe_reveals revealed)
      then pay_out uid id now raised db
      else ok (raised, record db { sessions = save_row id raised db.sessions })

unfoldable pub cashout : ℕ → ℕ → ℕ → MinesDb → Result MinesError (Session × MinesDb)
cashout uid id now db = do
  session ← or_throw (find_session uid id db) session_not_found
  throw_if (not (is_running session.status)) not_active
  throw_if (leb (safe_reveals session) 0) nothing_revealed
  pay_out uid id now session db
