-- ===== src/TradeCore/Sizing.antt =====
-- backend/src/lumine/trade_core/sizing_calculator.py. `SizingError` is a value for each of the
-- messages; `SizeResult.violations`, which is always empty, is left out.
pub mod Bounds
mod Tests
use lumine_hedge_fund.Prelude.{
  ℕ, Bool, true, false, Option, none, some, String, str_eq, if◌then◌else◌,
}
use lumine_hedge_fund.Decimal.{
  Decimal, of_int, of_digits, lt, le, add, sub, mul, quot, quantize_down,
}

pub record SizeResult : Type 0 where
  pub base_volume : Decimal
  pub final_volume : Decimal
  pub stop_distance : Decimal
  pub stop_price : Decimal

-- `invalid_operation` is the decimal module's own exception, which `base_volume` lets through
-- where `quantize` raises it.
pub data SizingError : Type 0 where
  bad_equity bad_risk bad_stop bad_pip_value bad_atr bad_pip_size : Decimal → SizingError
  bad_side : String → SizingError
  invalid_operation : SizingError

pub data Sized (A : Type 0) : Type 0 where
  ok : A → Sized A
  raised : SizingError → Sized A

infixl 5 ◌>>=◌ ◌>>◌
abbrev pub ◌>>=◌ : {A B : Type 0} → Sized A → (A → Sized B) → Sized B
ok a >>= f = f a
raised e >>= f = raised e

abbrev pub ◌>>◌ : {B : Type 0} → Sized (Unit {0}) → Sized B → Sized B
m >> k = m >>= λ _. k

abbrev pub raise_if : Bool → SizingError → Sized (Unit {0})
raise_if true e = raised e
raise_if false e = ok tt

abbrev pub or_invalid : Option Decimal → Sized Decimal
or_invalid none = raised invalid_operation
or_invalid (some d) = ok d

unfoldable pub stop_distance : Decimal → Decimal → Decimal
stop_distance atr_14 multiplier = mul atr_14 multiplier

-- The denominator is positive where it is divided by.
unfoldable pub base_volume : Decimal → Decimal → Decimal → Decimal → Sized Decimal
base_volume equity risk_per_trade stop_distance_pips pip_value = do
  raise_if (le equity (of_int 0)) (bad_equity equity)
  raise_if (if le risk_per_trade (of_int 0) then true else le (of_int 1) risk_per_trade)
      (bad_risk risk_per_trade)
  raise_if (le stop_distance_pips (of_int 0)) (bad_stop stop_distance_pips)
  raise_if (le pip_value (of_int 0)) (bad_pip_value pip_value)
  or_invalid (quantize_down (quot (mul equity risk_per_trade) (mul stop_distance_pips pip_value)) 2)

unfoldable pub clamp_volume : Decimal → Decimal → Decimal → Decimal
clamp_volume volume min_volume max_volume =
    if lt volume min_volume then min_volume else if lt max_volume volume then max_volume else volume

unfoldable pub normalized_stop_price : Decimal → Decimal → String → Sized Decimal
normalized_stop_price entry_price stop_dist side =
    if str_eq side "BUY"
    then ok (sub entry_price stop_dist)
    else if str_eq side "SELL"
    then ok (add entry_price stop_dist)
    else raised (bad_side side)

pub record SizeRequest : Type 0 where
  pub entry_price : Decimal
  pub atr_14 : Decimal
  pub equity : Decimal
  pub risk_per_trade : Decimal
  pub atr_multiplier : Decimal
  pub pip_value : Decimal
  pub side : String
  pub pip_size : Decimal
  pub min_volume : Decimal
  pub max_volume : Decimal
  pub risk_adjustment_multiplier : Decimal

unfoldable pub calculate_size : SizeRequest → Sized SizeResult
unfolding stop_distance
calculate_size r = do
  raise_if (le r.atr_14 (of_int 0)) (bad_atr r.atr_14)
  raise_if (le r.pip_size (of_int 0)) (bad_pip_size r.pip_size)
  let stop_dist = stop_distance r.atr_14 r.atr_multiplier
  let stop_pips = quot stop_dist r.pip_size
  base ← base_volume r.equity r.risk_per_trade stop_pips r.pip_value
  let final = clamp_volume (mul base r.risk_adjustment_multiplier) r.min_volume r.max_volume
  signed_stop ← normalized_stop_price r.entry_price stop_dist r.side
  ok (record {
    base_volume = base;
    final_volume = final;
    stop_distance = stop_dist;
    stop_price = signed_stop;
  })
