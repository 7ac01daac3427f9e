-- ===== src/Trading/PositionSync/Tests.antt =====
-- Snapshots of position_sync.py on a table of one open position.
use lumine_hedge_fund.Prelude.{ℕ, ◌≡◌, refl, Bool, true, false, Option, none, some, List, [], ◌∷◌}
use lumine_hedge_fund.Decimal.{of_int}
use lumine_hedge_fund.Trading.PositionSync.{
  newest, Values, Item, Position, State, contains_ticket, tickets_of, upsert_positions, newest,
}
use lumine_hedge_fund.Trading.PositionSync.Snapshot.{has_open, upsert_positions-has_open}
use lumine_hedge_fund.Trading.PositionSync.Empty.{
  are_readable, AllReadable, cycles, last_listing, shows, cycles-has_open,
}

abbrev gold : Values
gold = record {
  symbol = "XAUUSD";
  side = "buy";
  volume = of_int 1;
  price_open = of_int 2400;
  stop_loss = none;
  take_profit = none;
  opened_at = none;
  profit = of_int 0;
}

abbrev item : ℕ → Item
item t = record { ticket = some t; values = some gold }

abbrev row : ℕ → Bool → Position
row t open_ = record {
  mt5_ticket = some t;
  is_open = open_;
  symbol = "XAUUSD";
  side = "buy";
  size = of_int 1;
  avg_entry = of_int 2400;
  stop_loss = none;
  take_profit = none;
  opened_at = 5;
  profit = some (of_int 0);
}

abbrev before : List Position
before = row 1 true ∷ []

abbrev after : List Position
after = row 1 false ∷ record (row 2 true) { opened_at = 9 } ∷ []

snapshot_taken : upsert_positions 9 (item 2 ∷ []) before ≡ some after
unfolding upsert_positions
snapshot_taken = refl

upsert_positions-has_open_example : has_open 1 after ≡ contains_ticket 1 (tickets_of (item 2 ∷ []))
upsert_positions-has_open_example =
    upsert_positions-has_open 1 9 (item 2 ∷ []) before refl snapshot_taken

abbrev state : State
state = record { snapshots = []; positions = before }

-- A listing with its ticket, then empty snapshots.
abbrev pushes : List (List (Option (List Item)))
pushes = (some (item 2 ∷ []) ∷ []) ∷ (some [] ∷ []) ∷ (none ∷ some [] ∷ []) ∷ []

are_read : AllReadable pushes
unfolding newest are_readable
are_read = (refl, (refl, (refl, tt)))

cycles-has_open_example :
    has_open 2 (cycles 9 pushes state).positions ≡ shows 2 (last_listing pushes) (has_open 2 before)
cycles-has_open_example = cycles-has_open 2 9 pushes state are_read refl

-- It is open still.
stays_open : shows 2 (last_listing pushes) (has_open 2 before) ≡ true
unfolding shows last_listing
stays_open = refl
