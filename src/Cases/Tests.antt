-- ===== src/Cases/Tests.antt =====
-- A case of two skins, of which one drops in a quarter of the openings.
use rabbit_backend.Prelude.{◌≡◌, refl, true, false, some, List, [], ◌∷◌, ok, err, arith}
use rabbit_backend.Inventory.Tests.{seller}
use rabbit_backend.Inventory.{Skin}
use rabbit_backend.Upgrade.Tests.{target}
use rabbit_backend.Withdraw.{csgo}
use rabbit_backend.Cases.{
  SkinCase, TicketRange, tickets_for, sort_skin_cases_for_lottery, CaseError, prepare_ticket_ranges,
  assign_ticket_ranges, select_winner, random_scale, CaseEntity, CasesDb, comes_first,
  get_available_skins, open_case,
}
use rabbit_backend.Cases.Lottery.{drawn-eq-shown}
use rabbit_backend.Cases.Winner.{Drawn, select_winner-Drawn}
use rabbit_backend.Cases.Opening.{Opened, open_case-Opened}

abbrev cheap_skin : Skin
cheap_skin = record target { market_price = 100 }

abbrev rare : SkinCase
rare = record { id = 2; case_id = 3; skin = some (90, target); chance = 2500; is_drop_out = true }

abbrev common : SkinCase
common = record rare { id = 1; skin = some (91, cheap_skin); chance = 7500 }

abbrev shown_only : SkinCase
shown_only = record rare { id = 4; chance = 100; is_drop_out = false }

-- A chance of 2.01% loses a ticket to its double.
lost_ticket : tickets_for 201 ≡ 2009
unfolding tickets_for
lost_ticket = refl

drawn-eq-shown_example :
    prepare_ticket_ranges 1 (sort_skin_cases_for_lottery (rare ∷ common ∷ []))
    ≡ ok (assign_ticket_ranges 1 (sort_skin_cases_for_lottery (rare ∷ shown_only ∷ common ∷ [])))
drawn-eq-shown_example = drawn-eq-shown (rare ∷ shown_only ∷ common ∷ []) (refl, (refl, (refl, tt)))

abbrev ranges : List TicketRange
ranges =
    record { skin_case = rare; start = 1; end = 25000 }
    ∷ record { skin_case = common; start = 25001; end = 100000 }
    ∷ []

prepared : prepare_ticket_ranges 1 (rare ∷ common ∷ []) ≡ ok ranges
unfolding prepare_ticket_ranges tickets_for
prepared = refl

nobody : select_winner ranges random_scale ≡ err CaseError.no_winner
unfolding select_winner
nobody = refl

select_winner-Drawn_example : Drawn (rare ∷ common ∷ []) 1000000000 ranges
select_winner-Drawn_example =
    select_winner-Drawn rare (common ∷ []) ranges 1000000000 prepared (omega arith)

abbrev case_row : CaseEntity
case_row = record {
  game_type = csgo;
  case_price = 200;
  remaining_count = 0;
  is_limited = false;
  is_available = true;
}

abbrev pub store : CasesDb
store = record {
  inventory = record {
    vip = record { users = (1, seller) ∷ []; ledger = []; claims = []; level_ups = [] };
    skins = record { items = []; withdrawals = [] };
  };
  cases = (3, case_row) ∷ [];
  skin_cases = common ∷ rare ∷ [];
}

open_case-Opened_example :
    Opened 3 2 false store (open_case 3 1 ((7, 10) ∷ (4000000000, 11) ∷ []) false 5 store)
unfolding get_available_skins comes_first
open_case-Opened_example =
    open_case-Opened 3 1 5 ((7, 10) ∷ (4000000000, 11) ∷ []) false store (refl, (refl, tt))
      (omega arith, (omega arith, tt)) (refl, ((λ e. absurd (omega arith)), tt), (refl, tt, tt))
      (tt, tt)
