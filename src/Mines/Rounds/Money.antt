-- ===== src/Mines/Rounds/Money.antt =====
-- The money of the rounds: what the balances lose and gain is what the sessions record.
use rabbit_backend.Prelude.{
  ℕ, ◌-◌, ◌≤◌, ◌<◌, ◌≡◌, refl, true, none, some, List, [], All, ok, Option-cases, inl, inr, arith,
}
use rabbit_backend.Prelude.Money.{Amount}
use rabbit_backend.Prelude.Table.{find_row, save_row, total-save_row_over, total-save_row_new}
use rabbit_backend.Prelude.Rows.{save_row-All, find_row-All}
use rabbit_backend.Vip.Store.{VipUser}
use rabbit_backend.Mines.Board.{mines_board_size, to_cell_index}
use rabbit_backend.Mines.Rounds.{
  Session, MinesDb, active, is_running, start_game, pay_out, reveal, raise,
}
use rabbit_backend.Vip.Store.Balances.{balance_of}
use rabbit_backend.Mines.Rounds.Paid.{
  bet_of, won_by, Balanced, Played, Played-Balanced, pay_out-Played, lose-Played,
}
use rabbit_backend.Mines.Rounds.Play.{
  IsValid, running-unpaid, lost-IsValid, raised-IsValid, paid-IsValid, last-IsValid,
  safe_reveals_none,
}
use rabbit_backend.Mines.Rounds.Steps.{
  Step, started, moved, cashed, History, start, then_step, find_session-find_row, Moved,
  mover_session, make_move-Moved, pay_out_settles, lose_settles, casher_session, cashout_pays,
}

-- Every session of the database is valid.
abbrev pub AllValid : MinesDb → Type 0
AllValid db = All (λ row. IsValid row.1) db.sessions

-- What a committed call keeps.
abbrev Keeps : MinesDb → MinesDb → Type 0
Keeps db after = Balanced db after × AllValid after

Played-Keeps :
    {uid id : ℕ} {was s : Session} {db after : MinesDb}
    → Played uid id was s db after
    → IsValid s
    → AllValid db
    → Keeps db after
Played-Keeps {id = id} {s = s} {db = db} p v all =
    (Played-Balanced p, rw (p.stored) (save_row-All IsValid id s db.sessions v all))

move-Keeps :
    (uid id cell now : ℕ) (was s : Session) (db after : MinesDb)
    → find_row id db.sessions ≡ some was
    → is_running was.status ≡ true
    → AllValid db
    → Moved uid id cell now was db s after
    → Keeps db after
move-Keeps uid id cell now was s db after found running all (inl (mine, h)) =
    let v = find_row-All IsValid id was db.sessions all found in
    let played =
      lose-Played uid id now was (reveal cell was) s db after found (running-unpaid was v running)
        refl h in
    let settled = lose_settles uid id now (reveal cell was) s db after h in
    Played-Keeps played (rw settled (lost-IsValid cell was v running mine)) all
move-Keeps uid id cell now was s db after found running all (inr (inl (safe, h))) =
    let v = find_row-All IsValid id was db.sessions all found in
    let played =
      pay_out-Played uid id now was (raise (reveal cell was)) s db after found
        (running-unpaid was v running) refl h in
    let settled = pay_out_settles uid id now (raise (reveal cell was)) s db after h in
    let valid = last-IsValid cell was v running safe in Played-Keeps played (rw settled valid) all
move-Keeps uid id cell now was s db after found running all (inr (inr (safe, more, shown, kept))) =
    let v = find_row-All IsValid id was db.sessions all found in
    let valid = raised-IsValid cell was v running safe more in
    let unpaid = running-unpaid was v running in
    let played : Played uid id was s db after = record {
      found = found;
      stored = rw kept refl;
      same_bet = rw shown refl;
      paid = rw (kept, shown) (omega arith);
    } in
    Played-Keeps played (rw shown valid) all

cashout-Keeps :
    (uid id now : ℕ) (was s : Session) (db after : MinesDb)
    → find_row id db.sessions ≡ some was
    → is_running was.status ≡ true
    → AllValid db
    → pay_out uid id now was db ≡ ok (s, after)
    → Keeps db after
cashout-Keeps uid id now was s db after found running all h =
    let v = find_row-All IsValid id was db.sessions all found in
    let played =
      pay_out-Played uid id now was was s db after found (running-unpaid was v running) refl h in
    let settled = pay_out_settles uid id now was s db after h in
    let left = v.unfinished in
    let valid = paid-IsValid was v.some_mines v.some_safe v.priced (omega arith) in
    Played-Keeps played (rw settled valid) all

-- What a started round has changed.
record Started (uid id mines_count : ℕ) (user : VipUser) (s : Session) (db after : MinesDb)
    : Type 0 where
  affordable : s.bet_amount ≤ user.balance
  no_win : s.win_amount ≡ none
  running : s.status ≡ active
  untouched : s.current_multiplier ≡ 100
  no_reveals : s.revealed_cells ≡ []
  counted : s.mines_count ≡ mines_count
  board : s.board_size ≡ mines_board_size
  paid :
      after.vip.users
      ≡ save_row uid (record user { balance = user.balance - s.bet_amount }) db.vip.users
  stored : after.sessions ≡ save_row id s db.sessions

start_game-Started :
    (uid : ℕ) (bet : Amount) (mines_count : ℕ) (mines : List ℕ) (id : ℕ) (user : VipUser)
    (s : Session) (db after : MinesDb)
    → find_row uid db.vip.users ≡ some user
    → start_game uid bet mines_count mines id db ≡ ok (s, after)
    → Started uid id mines_count user s db after
unfolding start_game
start_game-Started uid bet mines_count mines id user s db after row h = record {
  affordable = ground arith;
  no_win = ground arith;
  running = ground arith;
  untouched = ground arith;
  no_reveals = ground arith;
  counted = ground arith;
  board = ground arith;
  paid = ground arith;
  stored = ground arith;
}

Started-Keeps :
    {uid id mines_count : ℕ} {user : VipUser} {s : Session} {db after : MinesDb}
    → find_row uid db.vip.users ≡ some user
    → find_row id db.sessions ≡ none
    → 0 < mines_count
    → mines_count < mines_board_size
    → Started uid id mines_count user s db after
    → AllValid db
    → Keeps db after
Started-Keeps {uid = uid} {id = id} {user = user} {s = s} {db = db} row fresh p q o all =
    let paid : VipUser = record user { balance = user.balance - s.bet_amount } in
    let u = total-save_row_over balance_of uid paid user db.vip.users row in
    let b = total-save_row_new bet_of id s db.sessions fresh in
    let w = total-save_row_new won_by id s db.sessions fresh in
    let unpaid : won_by s ≡ 0 = rw (o.no_win) refl in
    let affordable = o.affordable in
    let counted = o.counted in
    let board = o.board in
    let hidden = safe_reveals_none s o.no_reveals in
    let valid : IsValid s = record {
      some_mines = omega arith;
      some_safe = omega arith;
      settled = rw (o.running) (o.no_win);
      priced = rw hidden (o.untouched);
      unfinished = rw (hidden, o.running) (omega arith);
    } in
    (
      rw (o.paid, o.stored) (omega arith),
      rw (o.stored) (save_row-All IsValid id s db.sessions valid all),
    )

starter_has_account :
    (uid : ℕ) (bet : Amount) (mines_count : ℕ) (mines : List ℕ) (id : ℕ) (s : Session)
    (db after : MinesDb)
    → start_game uid bet mines_count mines id db ≡ ok (s, after)
    → (user : VipUser) × (find_row uid db.vip.users ≡ some user)
unfolding start_game
starter_has_account uid bet mines_count mines id s db after h =
    elim (Option-cases (find_row uid db.vip.users)) [
      | inl missing ↦ absurd (ground arith)
      | inr account ↦ account
    ]

Step-Keeps : {db after : MinesDb} → Step db after → AllValid db → Keeps db after
Step-Keeps (started uid bet mines_count mines id s {db = db} {after = after} fresh p q h) all =
    let (user, row) = starter_has_account uid bet mines_count mines id s db after h in
    Started-Keeps row fresh (omega arith) (omega arith)
      (start_game-Started uid bet mines_count mines id user s db after row h) all
Step-Keeps (moved uid id x y now s {db = db} {after = after} h) all =
    let (was, found) = mover_session uid id x y now s db after h in
    let (running, _, _, end) = make_move-Moved uid id x y now was s db after found h in
    move-Keeps uid id (to_cell_index x y) now was s db after
      (find_session-find_row uid id db was found) running all end
Step-Keeps (cashed uid id now s {db = db} {after = after} h) all =
    let (was, found) = casher_session uid id now s db after h in
    let (running, _, paid) = cashout_pays uid id now was s db after found h in
    cashout-Keeps uid id now was s db after (find_session-find_row uid id db was found) running all
      paid

-- Along any history of started rounds, moves and cash-outs from valid sessions: the balances
-- change by just the wins less the bets that the sessions record; and every session stays valid:
-- its multiplier is that of its number of safe reveals, a running round has no win and a safe cell
-- left, a lost one has won nothing, and a cashed-out one its bet times its multiplier.
pub rounds_balance :
    {first last : MinesDb}
    → AllValid first
    → History first last
    → Balanced first last × AllValid last
rounds_balance all start = (refl, all)
rounds_balance all (then_step h step) =
    let (before, valid) = rounds_balance all h in
    let (after, valid') = Step-Keeps step valid in (omega arith, valid')
