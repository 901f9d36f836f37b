-- ===== src/Crash/Tests.antt =====
-- A concrete crash session, and what the theorems say of it.
use rabbit_backend.Prelude.{◌+◌, ◌≡◌, refl, none, some, [], ◌∷◌, ok}
use rabbit_backend.Prelude.Table.{find_row}
use rabbit_backend.Vip.Store.{VipUser}
use rabbit_backend.Crash.{calculate_crash_payout, active, CrashSession, CrashDb, cash_out, settle}
use rabbit_backend.Crash.Once.{cash_out_once}

abbrev player : VipUser
player = record {
  balance = 2000;
  vip_xp = some 100;
  vip_theoretical_rake = some 10;
  vip_qualifying_volume = none;
}

abbrev session : CrashSession
session = record {
  user_id = 1;
  stake_amount = 500;
  status = active;
  cashout_multiplier = none;
  win_amount = none;
}

abbrev db : CrashDb
db = record {
  vip = record { users = (1, player) ∷ []; ledger = []; claims = []; level_ups = [] };
  sessions = (3, session) ∷ [];
}

-- The client names a multiplier of 100000.
cash_out_once_example :
    (s : CrashSession) × (after : CrashDb) × (u : VipUser) × (cash_out 1 3 10000000 60000 db
      ≡ ok (s, after))
    × (find_row 1 after.vip.users ≡ some u)
    × (u.balance ≡ 2000 + calculate_crash_payout 500 10000000)
    × (cash_out 1 3 200 70000 after ≡ ok (s, after))
    × (settle 1 3 70000 after ≡ ok (s, after))
cash_out_once_example =
    cash_out_once 1 3 10000000 60000 200 70000 session player db refl refl refl refl
