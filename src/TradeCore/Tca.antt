-- ===== src/TradeCore/Tca.antt =====
-- backend/src/lumine/trade_core/tca.py. Instants are numbers. The `ticks` table is a list, and a
-- query that orders it by `ts` with LIMIT 1 takes the first of the rows that share the extreme
-- time. `str.upper` is modelled on ASCII letters.
pub mod Benchmarks
mod Tests
use Prim.Native.Char.{code}
use Prim.Native.String
use lumine_hedge_fund.Prelude.{
  ℕ, ◌-◌, Bool, true, false, ◌&&◌, Option, none, some, List, [], ◌∷◌, String, str_eq, ltb, leb,
  ◌==◌, if◌then◌else◌,
}
use lumine_hedge_fund.Decimal.{Decimal, of_int, lt, le, add, sub, mul, quot, quantize_half_up}

pub record Tick : Type 0 where
  pub symbol : String
  pub ts : ℕ
  pub bid : Decimal
  pub ask : Decimal

pub data Source : Type 0 where
  arrival_mid session_open : Source

pub record Benchmark : Type 0 where
  pub price : Decimal
  pub ts : ℕ
  pub source : Source

pub record TcaCalculation : Type 0 where
  pub slippage : Decimal
  pub slippage_bps : Decimal
  pub slippage_cost_ccy : Decimal
  pub benchmark_source : Source

-- The messages of the module's `ValueError`s; `invalid_operation` is `quantize`'s own exception.
pub data TcaError : Type 0 where
  invalid_bid_ask bad_side bad_benchmark bad_fill bad_size bad_pip_size : TcaError
  next_open_undefined open_tick_missing arrival_tick_missing invalid_operation : TcaError

pub data Outcome (A : Type 0) : Type 0 where
  ok : A → Outcome A
  raised : TcaError → Outcome A

infixl 5 ◌>>=◌ ◌>>◌
abbrev pub ◌>>=◌ : {A B : Type 0} → Outcome A → (A → Outcome B) → Outcome B
ok a >>= f = f a
raised e >>= f = raised e

abbrev pub ◌>>◌ : {B : Type 0} → Outcome (Unit {0}) → Outcome B → Outcome B
m >> k = m >>= λ _. k

abbrev pub raise_if : Bool → TcaError → Outcome (Unit {0})
raise_if true e = raised e
raise_if false e = ok tt

abbrev pub or_raise : {A : Type 0} → Option A → TcaError → Outcome A
or_raise none e = raised e
or_raise (some a) e = ok a

abbrev pub or_else : Bool → Bool → Bool
or_else a b = if a then true else b

-- `_mid`
unfoldable pub mid : Tick → Outcome Decimal
mid tick =
    if or_else (le tick.bid (of_int 0)) (or_else (le tick.ask (of_int 0)) (lt tick.ask tick.bid))
    then raised invalid_bid_ask
    else ok (quot (add tick.bid tick.ask) (of_int 2))

-- The letters of `side.upper()`.
upper_codes : String → List ℕ
upper_codes String.[] = []
upper_codes (String.◌∷◌ c s) =
    (if leb b'a' (code c) && leb (code c) b'z' then code c - 32 else code c) ∷ upper_codes s

unfoldable pub same_codes : List ℕ → List ℕ → Bool
same_codes [] [] = true
same_codes (x ∷ xs) (y ∷ ys) = (x == y) && same_codes xs ys
same_codes _ _ = false

unfoldable pub is_side : String → String → Bool
unfolding upper_codes same_codes
is_side side word = same_codes (upper_codes side) (upper_codes word)

unfoldable pub calculate_tca :
    String
    → Decimal
    → Decimal
    → Decimal
    → Decimal
    → Option Decimal
    → Source
    → Outcome TcaCalculation
calculate_tca side fill_price benchmark_price size pip_value pip_size source = do
  raise_if (if is_side side "BUY" then false else if is_side side "SELL" then false else true)
      bad_side
  raise_if (le benchmark_price (of_int 0)) bad_benchmark
  raise_if (le fill_price (of_int 0)) bad_fill
  raise_if (or_else (lt size (of_int 0)) (lt pip_value (of_int 0))) bad_size
  raise_if (elim pip_size [ none ↦ false | some p ↦ le p (of_int 0) ]) bad_pip_size
  let slippage =
      if is_side side "BUY" then sub fill_price benchmark_price else sub benchmark_price fill_price
  slippage_bps ←
      or_raise (quantize_half_up (mul (quot slippage benchmark_price) (of_int 10000)) 4)
        invalid_operation
  cost ← or_raise (quantize_half_up (mul (mul slippage size) pip_value) 4) invalid_operation
  ok (record {
    slippage = slippage;
    slippage_bps = slippage_bps;
    slippage_cost_ccy = cost;
    benchmark_source = source;
  })

-- The session calendar that callers inject; it is not part of the repository.
pub record Calendar : Type 0 where
  pub is_closed : String → ℕ → Bool
  pub next_session_open : String → ℕ → Option ℕ

-- `_calendar_closed` and `_next_open`
unfoldable pub calendar_closed : Option Calendar → String → ℕ → Bool
calendar_closed none symbol ts = false
calendar_closed (some c) symbol ts = c.is_closed symbol ts

unfoldable pub next_open : Option Calendar → String → ℕ → Option ℕ
next_open none symbol ts = none
next_open (some c) symbol ts = c.next_session_open symbol ts

-- ORDER BY ts ASC LIMIT 1 among the ticks of `symbol` at `open_ts` or later.
earlier_of : Tick → Option Tick → Option Tick
earlier_of t none = some t
earlier_of t (some u) = if leb t.ts u.ts then some t else some u

unfoldable pub first_tick_from : String → ℕ → List Tick → Option Tick
unfolding earlier_of
first_tick_from symbol open_ts [] = none
first_tick_from symbol open_ts (t ∷ ticks) =
    let rest = first_tick_from symbol open_ts ticks in
    if str_eq t.symbol symbol && leb open_ts t.ts then earlier_of t rest else rest

-- ORDER BY ts DESC LIMIT 1 among the ticks of `symbol` at `decision_ts` or before.
later_of : Tick → Option Tick → Option Tick
later_of t none = some t
later_of t (some u) = if leb u.ts t.ts then some t else some u

unfoldable pub last_tick_until : String → ℕ → List Tick → Option Tick
unfolding later_of
last_tick_until symbol decision_ts [] = none
last_tick_until symbol decision_ts (t ∷ ticks) =
    let rest = last_tick_until symbol decision_ts ticks in
    if str_eq t.symbol symbol && leb t.ts decision_ts then later_of t rest else rest

-- The two branches of `resolve_benchmark`.
unfoldable pub session_open_benchmark : List Tick → String → ℕ → Option Calendar → Outcome Benchmark
session_open_benchmark ticks symbol decision_ts calendar = do
  open_ts ← or_raise (next_open calendar symbol decision_ts) next_open_undefined
  tick ← or_raise (first_tick_from symbol open_ts ticks) open_tick_missing
  price ← mid tick
  ok (record { price = price; ts = tick.ts; source = session_open })

unfoldable pub arrival_benchmark : List Tick → String → ℕ → Outcome Benchmark
arrival_benchmark ticks symbol decision_ts = do
  tick ← or_raise (last_tick_until symbol decision_ts ticks) arrival_tick_missing
  price ← mid tick
  ok (record { price = price; ts = tick.ts; source = arrival_mid })

unfoldable pub resolve_benchmark : List Tick → String → ℕ → Option Calendar → Outcome Benchmark
unfolding session_open_benchmark arrival_benchmark
resolve_benchmark ticks symbol decision_ts calendar =
    if calendar_closed calendar symbol decision_ts
    then session_open_benchmark ticks symbol decision_ts calendar
    else arrival_benchmark ticks symbol decision_ts

-- What `persist_tca` reads of a fill, and the row that it stages.
pub record Fill : Type 0 where
  pub fill_id : ℕ
  pub symbol : String
  pub side : String
  pub size : Decimal
  pub price : Decimal

pub record TcaRecord : Type 0 where
  pub fill_id : ℕ
  pub benchmark_price : Decimal
  pub slippage_bps : Decimal
  pub slippage_cost_ccy : Decimal
  pub decision_ts : ℕ
  pub benchmark_source : Source

unfoldable pub persist_tca :
    List Tick → Fill → ℕ → Decimal → Option Decimal → Option Calendar → Outcome TcaRecord
persist_tca ticks fill decision_ts pip_value pip_size calendar = do
  benchmark ← resolve_benchmark ticks fill.symbol decision_ts calendar
  calculation ←
      calculate_tca fill.side fill.price benchmark.price fill.size pip_value pip_size
        benchmark.source
  ok (record {
    fill_id = fill.fill_id;
    benchmark_price = benchmark.price;
    slippage_bps = calculation.slippage_bps;
    slippage_cost_ccy = calculation.slippage_cost_ccy;
    decision_ts = decision_ts;
    benchmark_source = benchmark.source;
  })
