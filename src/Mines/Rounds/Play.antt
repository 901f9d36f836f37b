-- ===== src/Mines/Rounds/Play.antt =====
-- The play of one round: what holds of its session after every call.
use rabbit_backend.Prelude.{
  ℕ, zero, suc, ◌+◌, ◌-◌, ◌≤◌, ◌<◌, ◌≡◌, refl, Bool, true, false, not, Option, none, some, List, [],
  ◌∷◌, leb, if◌then◌else◌, length, get_elem?, keep, includes, length-append, keep-append,
  Bool-cases, inl, inr, arith,
}
use rabbit_backend.Mines.Board.{count_safe_mines_reveals, build_mines_multiplier_path}
use rabbit_backend.Mines.Board.Path.{build_mines_multiplier_path-IsFair}
use rabbit_backend.Mines.Rounds.{
  Session, SessionStatus, active, lost, cashed_out, is_running, win_of, or_current, reveal, raise,
  safe_reveals,
}

-- The multiplier of a number of safe reveals.
abbrev pub multiplier_at : List ℕ → ℕ → ℕ
multiplier_at path zero = 100
multiplier_at path (suc k) = or_current (get_elem? path k) 100

abbrev pub path_of : Session → List ℕ
path_of s = build_mines_multiplier_path s.board_size s.mines_count

-- What a session of this status has paid.
abbrev pub owed : SessionStatus → ℕ → Option ℕ
owed active win = none
owed lost win = some 0
owed cashed_out win = some win

pub record IsValid (s : Session) : Type 0 where
  pub some_mines : 0 < s.mines_count
  pub some_safe : s.mines_count < s.board_size
  pub settled : s.win_amount ≡ owed s.status (win_of s)
  pub priced : s.current_multiplier ≡ multiplier_at (path_of s) (safe_reveals s)
  pub unfinished :
      safe_reveals s + (if is_running s.status then 1 else 0) ≤ s.board_size - s.mines_count

get_elem?_lt : (xs : List ℕ) (i : ℕ) → i < length xs → (a : ℕ) × (get_elem? xs i ≡ some a)
get_elem?_lt [] i h = absurd (omega arith)
get_elem?_lt (x ∷ xs) zero h = (x, refl)
get_elem?_lt (x ∷ xs) (suc i) h = get_elem?_lt xs i (omega arith)

pub safe_reveals-reveal :
    (cell : ℕ) (s : Session)
    → safe_reveals (reveal cell s)
      ≡ safe_reveals s + (if includes s.mine_positions cell then 0 else 1)
unfolding count_safe_mines_reveals
safe_reveals-reveal cell s =
    let safe : ℕ → Bool = λ c. not (includes s.mine_positions c) in
    let parts = keep-append safe s.revealed_cells (cell ∷ []) in
    let lengths = length-append (keep safe s.revealed_cells) (keep safe (cell ∷ [])) in
    rw (parts, lengths)
      (elim (Bool-cases (includes s.mine_positions cell)) [ inl e ↦ rw e refl | inr e ↦ rw e refl ])

-- The multiplier after a safe reveal is that of the next place of the path.
raise-priced :
    (cell : ℕ) (was : Session)
    → IsValid was
    → is_running was.status ≡ true
    → includes was.mine_positions cell ≡ false
    → (raise (reveal cell was)).current_multiplier
      ≡ multiplier_at (path_of was) (safe_reveals (reveal cell was))
raise-priced cell was v running safe =
    let path = path_of was in
    let (lengths, _, _) =
      build_mines_multiplier_path-IsFair was.board_size was.mines_count v.some_mines v.some_safe in
    let room : safe_reveals was + 1 ≤ was.board_size - was.mines_count =
      rw running at (v.unfinished) in
    let (m, at) = get_elem?_lt path (safe_reveals was) (omega arith) in
    let more : safe_reveals (reveal cell was) ≡ safe_reveals was + 1 =
      rw safe at (safe_reveals-reveal cell was) in
    let next : safe_reveals (reveal cell was) ≡ suc (safe_reveals was) = omega arith in
    let index : suc (safe_reveals was) - 1 ≡ safe_reveals was = omega arith in
    rw (next, index, at) refl

-- A running session owes nothing, whatever its win would be.
running-owed :
    (status : SessionStatus) (win win' : ℕ) {paid : Option ℕ}
    → is_running status ≡ true
    → paid ≡ owed status win
    → paid ≡ owed status win'
running-owed active win win' h e = e
running-owed lost win win' h e = e
running-owed cashed_out win win' h e = absurd (ground arith)

unpaid_if :
    (status : SessionStatus) (win : ℕ) {paid : Option ℕ}
    → is_running status ≡ true
    → paid ≡ owed status win
    → paid ≡ none
unpaid_if active win h e = e
unpaid_if lost win h e = absurd (ground arith)
unpaid_if cashed_out win h e = absurd (ground arith)

pub running-unpaid : (s : Session) → IsValid s → is_running s.status ≡ true → s.win_amount ≡ none
running-unpaid s v h = unpaid_if s.status (win_of s) h v.settled

-- Each end of a move leaves a valid session.
pub lost-IsValid :
    (cell : ℕ) (was : Session)
    → IsValid was
    → is_running was.status ≡ true
    → includes was.mine_positions cell ≡ true
    → IsValid (record (reveal cell was) { status = lost; win_amount = some 0 })
lost-IsValid cell was v running mine =
    let same : safe_reveals (reveal cell was) ≡ safe_reveals was + 0 =
      rw mine at (safe_reveals-reveal cell was) in
    let still : safe_reveals (reveal cell was) ≡ safe_reveals was = omega arith in
    let left = v.unfinished in
    record {
      some_mines = v.some_mines;
      some_safe = v.some_safe;
      settled = refl;
      priced = rw still (v.priced);
      unfinished = omega arith;
    }

pub raised-IsValid :
    (cell : ℕ) (was : Session)
    → IsValid was
    → is_running was.status ≡ true
    → includes was.mine_positions cell ≡ false
    → leb (was.board_size - was.mines_count) (safe_reveals (reveal cell was)) ≡ false
    → IsValid (raise (reveal cell was))
raised-IsValid cell was v running safe more =
    let one_more : safe_reveals (reveal cell was) ≡ safe_reveals was + 1 =
      rw safe at (safe_reveals-reveal cell was) in
    let room : safe_reveals (reveal cell was) < was.board_size - was.mines_count = ground arith in
    record {
      some_mines = v.some_mines;
      some_safe = v.some_safe;
      settled = running-owed was.status _ _ running v.settled;
      priced = raise-priced cell was v running safe;
      unfinished = rw running (omega arith);
    }

pub paid-IsValid :
    (t : Session)
    → 0 < t.mines_count
    → t.mines_count < t.board_size
    → t.current_multiplier ≡ multiplier_at (path_of t) (safe_reveals t)
    → safe_reveals t ≤ t.board_size - t.mines_count
    → IsValid (record t { status = cashed_out; win_amount = some (win_of t) })
paid-IsValid t p q priced within = record {
  some_mines = p;
  some_safe = q;
  settled = refl;
  priced = priced;
  unfinished = omega arith;
}

-- The pay-out on the last safe cell.
pub last-IsValid :
    (cell : ℕ) (was : Session)
    → IsValid was
    → is_running was.status ≡ true
    → includes was.mine_positions cell ≡ false
    → let t = raise (reveal cell was) in
      IsValid (record t { status = cashed_out; win_amount = some (win_of t) })
last-IsValid cell was v running safe =
    let one_more : safe_reveals (reveal cell was) ≡ safe_reveals was + 1 =
      rw safe at (safe_reveals-reveal cell was) in
    let room : safe_reveals was + 1 ≤ was.board_size - was.mines_count =
      rw running at (v.unfinished) in
    paid-IsValid (raise (reveal cell was)) v.some_mines v.some_safe
      (raise-priced cell was v running safe) (omega arith)

pub safe_reveals_none : (s : Session) → s.revealed_cells ≡ [] → safe_reveals s ≡ 0
unfolding count_safe_mines_reveals
safe_reveals_none s e = rw e refl
