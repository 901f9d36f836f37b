-- ===== src/Mines/Rounds/Paid.antt =====
-- What the ends of a round do to the balances.
use rabbit_backend.Prelude.{ℕ, ◌+◌, ◌≡◌, Option, none, some, ok, Option-cases, inl, inr, arith}
use rabbit_backend.Prelude.Table.{find_row, save_row, total, total-save_row_over}
use rabbit_backend.Vip.Store.{VipUser, VipDb}
use rabbit_backend.Vip.Store.Balances.{balance_of, recorded_balances, record_earning_balances}
use rabbit_backend.Mines.Rounds.{
  Session, MinesDb, lost, cashed_out, mines_earning, record_vip_earning, win_of, pay_out, lose,
}

abbrev pub bet_of : Session → ℕ
bet_of s = s.bet_amount

abbrev pub or_none : Option ℕ → ℕ
or_none none = 0
or_none (some n) = n

abbrev pub won_by : Session → ℕ
won_by s = or_none s.win_amount

-- The users' balances together.
abbrev pub balances : MinesDb → ℕ
balances db = total balance_of db.vip.users

abbrev pub bets : MinesDb → ℕ
bets db = total bet_of db.sessions

abbrev pub wins : MinesDb → ℕ
wins db = total won_by db.sessions

record_vip_earning_balances :
    (uid now : ℕ) (user was : VipUser) (s : Session) (vip : VipDb)
    → find_row uid vip.users ≡ some was
    → total balance_of (record_vip_earning uid user s now vip).users + was.balance
      ≡ total balance_of vip.users + user.balance
unfolding record_vip_earning
record_vip_earning_balances uid now user was s vip row =
    recorded_balances uid now user was (mines_earning s) vip row

-- What a call does to the money.
abbrev pub Balanced : MinesDb → MinesDb → Type 0
Balanced db after = balances after + bets after + wins db ≡ balances db + bets db + wins after

-- A call that replaces a running session by one of the same stake.
pub record Played (uid id : ℕ) (was s : Session) (db after : MinesDb) : Type 0 where
  pub found : find_row id db.sessions ≡ some was
  pub stored : after.sessions ≡ save_row id s db.sessions
  pub same_bet : s.bet_amount ≡ was.bet_amount
  pub paid : balances after + won_by was ≡ balances db + won_by s

pub Played-Balanced :
    {uid id : ℕ} {was s : Session} {db after : MinesDb}
    → Played uid id was s db after
    → Balanced db after
Played-Balanced {id = id} {was = was} {s = s} {db = db} p =
    let b = total-save_row_over bet_of id s was db.sessions p.found in
    let w = total-save_row_over won_by id s was db.sessions p.found in
    let same = p.same_bet in let paid = p.paid in rw (p.stored) (omega arith)

pub pay_out-Played :
    (uid id now : ℕ) (was t s : Session) (db after : MinesDb)
    → find_row id db.sessions ≡ some was
    → was.win_amount ≡ none
    → t.bet_amount ≡ was.bet_amount
    → pay_out uid id now t db ≡ ok (s, after)
    → Played uid id was s db after
unfolding pay_out
pay_out-Played uid id now was t s db after found unpaid same h =
    elim (Option-cases (find_row uid db.vip.users)) [
      | inl missing ↦ absurd (ground arith)
      | inr (user, row) ↦
          let won : Session = record t { status = cashed_out; win_amount = some (win_of t) } in
          let kept =
            record_vip_earning_balances uid now (record user { balance = user.balance + win_of t })
              user won db.vip row in
          record {
            found = found;
            stored = ground arith;
            same_bet = ground arith;
            paid = ground arith;
          }
    ]

pub lose-Played :
    (uid id now : ℕ) (was t s : Session) (db after : MinesDb)
    → find_row id db.sessions ≡ some was
    → was.win_amount ≡ none
    → t.bet_amount ≡ was.bet_amount
    → lose uid id now t db ≡ ok (s, after)
    → Played uid id was s db after
unfolding lose
lose-Played uid id now was t s db after found unpaid same h =
    elim (Option-cases (find_row uid db.vip.users)) [
      | inl missing ↦ absurd (ground arith)
      | inr (user, row) ↦
          let ended : Session = record t { status = lost; win_amount = some 0 } in
          let kept = record_earning_balances uid now user (mines_earning ended) db.vip row in
          record {
            found = found;
            stored = ground arith;
            same_bet = ground arith;
            paid = ground arith;
          }
    ]
