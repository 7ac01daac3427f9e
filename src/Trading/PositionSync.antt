-- ===== src/Trading/PositionSync.antt =====
-- backend/src/lumine/trading/position_sync.py: a cycle of the worker that brings the table of positions
-- up to the broker's newest snapshot. Every item is an object, and its values come parsed; the live price, which the
-- table does not keep, and the times of the loop are not modelled. A ticket is at most once in the
-- table, as its unique index has it: an update takes the first row.
pub mod Snapshot
pub mod Empty
mod Tests
use lumine_hedge_fund.Prelude.{
  ℕ, Bool, true, false, not, ◌&&◌, Option, none, some, List, [], ◌∷◌, String, ◌==◌, if◌then◌else◌,
  is_empty,
}
use lumine_hedge_fund.Decimal.{Decimal}

-- What an item sets: the stop and the target are `none` where it gives none or zero.
pub record Values : Type 0 where
  pub symbol : String
  pub side : String
  pub volume : Decimal
  pub price_open : Decimal
  pub stop_loss : Option Decimal
  pub take_profit : Option Decimal
  pub opened_at : Option ℕ
  pub profit : Decimal

-- An item of a snapshot. `ticket` is none where it is no integer, `values` where a number of it is no
-- decimal, which raises.
pub record Item : Type 0 where
  pub ticket : Option ℕ
  pub values : Option Values

-- A row of `positions`. Those of fills have no ticket.
pub record Position : Type 0 where
  pub mt5_ticket : Option ℕ
  pub is_open : Bool
  pub symbol : String
  pub side : String
  pub size : Decimal
  pub avg_entry : Decimal
  pub stop_loss : Option Decimal
  pub take_profit : Option Decimal
  pub opened_at : ℕ
  pub profit : Option Decimal

unfoldable pub is_ticket : ℕ → Option ℕ → Bool
is_ticket t none = false
is_ticket t (some u) = u == t

unfoldable pub contains_ticket : ℕ → List ℕ → Bool
contains_ticket t [] = false
contains_ticket t (u ∷ tickets) =
    let rest = contains_ticket t tickets in if u == t then true else rest

unfoldable pub or_time : Option ℕ → ℕ → ℕ
or_time none default = default
or_time (some t) default = t

unfoldable pub updated : Values → Position → Position
unfolding or_time
updated v p = record {
  mt5_ticket = p.mt5_ticket;
  is_open = true;
  symbol = v.symbol;
  side = v.side;
  size = v.volume;
  avg_entry = v.price_open;
  stop_loss = v.stop_loss;
  take_profit = v.take_profit;
  opened_at = or_time v.opened_at p.opened_at;
  profit = some v.profit;
}

unfoldable pub added : ℕ → ℕ → Values → Position
unfolding or_time
added now ticket v = record {
  mt5_ticket = some ticket;
  is_open = true;
  symbol = v.symbol;
  side = v.side;
  size = v.volume;
  avg_entry = v.price_open;
  stop_loss = v.stop_loss;
  take_profit = v.take_profit;
  opened_at = or_time v.opened_at now;
  profit = some v.profit;
}

-- `_upsert_one`
unfoldable pub upsert_one : ℕ → ℕ → Values → List Position → List Position
unfolding is_ticket updated added
upsert_one now ticket v [] = added now ticket v ∷ []
upsert_one now ticket v (p ∷ positions) =
    let rest = upsert_one now ticket v positions in
    if is_ticket ticket p.mt5_ticket then updated v p ∷ positions else p ∷ rest

-- The tickets of a snapshot.
unfoldable pub with_ticket : Option ℕ → List ℕ → List ℕ
with_ticket none tickets = tickets
with_ticket (some t) tickets = t ∷ tickets

unfoldable pub tickets_of : List Item → List ℕ
unfolding with_ticket
tickets_of [] = []
tickets_of (item ∷ items) = with_ticket item.ticket (tickets_of items)

unfoldable pub upsert_item : ℕ → Option ℕ → Option Values → List Position → Option (List Position)
unfolding upsert_one
upsert_item now none values positions = some positions
upsert_item now (some ticket) none positions = none
upsert_item now (some ticket) (some v) positions = some (upsert_one now ticket v positions)

unfoldable pub then_all :
    Option (List Position) → (List Position → Option (List Position)) → Option (List Position)
then_all none rest = none
then_all (some positions) rest = rest positions

-- The loop over the items; none where it raises.
unfoldable pub upsert_all : ℕ → List Item → List Position → Option (List Position)
unfolding upsert_item then_all
upsert_all now [] positions = some positions
upsert_all now (item ∷ items) positions =
    then_all (upsert_item now item.ticket item.values positions) (upsert_all now items)

-- A row of the broker that is open and not in the snapshot is closed.
unfoldable pub is_gone : List ℕ → Option ℕ → Bool
unfolding contains_ticket
is_gone tickets none = false
is_gone tickets (some t) = not (contains_ticket t tickets)

unfoldable pub close_gone : List ℕ → List Position → List Position
unfolding is_gone
close_gone tickets [] = []
close_gone tickets (p ∷ positions) =
    (if is_gone tickets p.mt5_ticket then record p { is_open = false } else p)
    ∷ close_gone tickets positions

unfoldable pub closed : List ℕ → Option (List Position) → Option (List Position)
unfolding close_gone
closed tickets none = none
closed tickets (some positions) = some (close_gone tickets positions)

-- `_upsert_positions`, in one transaction.
unfoldable pub upsert_positions : ℕ → List Item → List Position → Option (List Position)
unfolding closed upsert_all tickets_of
upsert_positions now payload positions =
    if is_empty payload
    then some positions
    else closed (tickets_of payload) (upsert_all now payload positions)

-- The Redis list of snapshots, newest first (none where one is not valid), and the table.
pub record State : Type 0 where
  pub snapshots : List (Option (List Item))
  pub positions : List Position

unfoldable pub newest : List (Option (List Item)) → Option (List Item)
newest [] = none
newest (none ∷ snapshots) = newest snapshots
newest (some items ∷ snapshots) = some items

unfoldable pub committed : State → Option (List Position) → State
committed s none = s
committed s (some positions) = record { snapshots = []; positions = positions }

unfoldable pub consume : ℕ → Option (List Item) → State → State
unfolding committed upsert_positions
consume now none s = record { snapshots = []; positions = s.positions }
consume now (some payload) s = committed s (upsert_positions now payload s.positions)

-- `_sync_once`; an exception ends the cycle, and the snapshots stay.
unfoldable pub sync_once : ℕ → State → State
unfolding consume newest
sync_once now s = if is_empty s.snapshots then s else consume now (newest s.snapshots) s
