-- ===== src/TradeCore/Sizing/Bounds.antt =====
-- The guarantees of the size calculation: sizing_calculator.py, `calculate_size`, `base_volume`.
use lumine_hedge_fund.Prelude.{◌≡◌, ◌⊎◌, true, false, none, some, String, str_eq, arith}
use lumine_hedge_fund.Decimal.{Decimal, of_int, lt, le, mul, quot, quantize_down}
use lumine_hedge_fund.Decimal.Order.{le_refl, le-of_not_lt}
use lumine_hedge_fund.Decimal.Quantize.{
  step_up, IsNonneg-of_pos, mul-IsNonneg, quot-IsNonneg, quantize_down_bounds,
}
use lumine_hedge_fund.TradeCore.Sizing.{
  SizingError, ok, raised, invalid_operation, SizeRequest, SizeResult, stop_distance, base_volume,
  clamp_volume, normalized_stop_price, calculate_size,
}

-- The clamp returns a value of the broker's range.
pub clamp_volume_bounds :
    (v lo hi : Decimal)
    → le lo hi ≡ true
    → (le lo (clamp_volume v lo hi) ≡ true) × (le (clamp_volume v lo hi) hi ≡ true)
unfolding clamp_volume
clamp_volume_bounds v lo hi h =
    ground (arith, le_refl lo, le_refl hi, le-of_not_lt v lo, le-of_not_lt hi v)

-- What `base_volume` requires of its arguments.
pub record IsTradable (equity risk stop pip : Decimal) : Type 0 where
  pub equity_pos : le equity (of_int 0) ≡ false
  pub risk_pos : le risk (of_int 0) ≡ false
  pub risk_below_one : le (of_int 1) risk ≡ false
  pub stop_pos : le stop (of_int 0) ≡ false
  pub pip_pos : le pip (of_int 0) ≡ false

pub base_volume-ok :
    (equity risk stop pip : Decimal) {v : Decimal}
    → base_volume equity risk stop pip ≡ ok v
    → IsTradable equity risk stop pip
      × (quantize_down (quot (mul equity risk) (mul stop pip)) 2 ≡ some v)
unfolding base_volume
base_volume-ok equity risk stop pip h = ground arith

-- A base volume is the risk budget over the loss of one lot at the stop, rounded down: it is at
-- most that quotient, and the quotient is below the next hundredth of a lot.
pub base_volume_floor :
    (equity risk stop pip : Decimal) {v : Decimal}
    → base_volume equity risk stop pip ≡ ok v
    → let target = quot (mul equity risk) (mul stop pip) in
      (le v target ≡ true) × (lt target (step_up v) ≡ true)
base_volume_floor equity risk stop pip {v} h =
    let (t, q) = base_volume-ok equity risk stop pip h in
    quantize_down_bounds (quot (mul equity risk) (mul stop pip)) 2
      (quot-IsNonneg (mul equity risk) (mul stop pip)
        (mul-IsNonneg equity risk (IsNonneg-of_pos equity t.equity_pos)
          (IsNonneg-of_pos risk t.risk_pos))
        (mul-IsNonneg stop pip (IsNonneg-of_pos stop t.stop_pos) (IsNonneg-of_pos pip t.pip_pos)))
      q

-- The stop in pips, as the calculation derives it.
abbrev pub stop_pips : SizeRequest → Decimal
stop_pips r = quot (stop_distance r.atr_14 r.atr_multiplier) r.pip_size

-- What a request must satisfy to be sized.
pub record IsSizable (r : SizeRequest) : Type 0 where
  pub atr_pos : le r.atr_14 (of_int 0) ≡ false
  pub pip_size_pos : le r.pip_size (of_int 0) ≡ false
  pub tradable : IsTradable r.equity r.risk_per_trade (stop_pips r) r.pip_value
  pub sided : (str_eq r.side "BUY" ≡ true) ⊎ (str_eq r.side "SELL" ≡ true)

stop_price-sided :
    (entry dist : Decimal) (side : String) {p : Decimal}
    → normalized_stop_price entry dist side ≡ ok p
    → (str_eq side "BUY" ≡ true) ⊎ (str_eq side "SELL" ≡ true)
unfolding normalized_stop_price
stop_price-sided entry dist side h = ground arith

-- The parts of a successful calculation.
pub record Derivation (r : SizeRequest) (s : SizeResult) : Type 0 where
  pub atr_ok : le r.atr_14 (of_int 0) ≡ false
  pub pip_size_ok : le r.pip_size (of_int 0) ≡ false
  pub base_ok : base_volume r.equity r.risk_per_trade (stop_pips r) r.pip_value ≡ ok s.base_volume
  pub final_ok :
      s.final_volume
      ≡ clamp_volume (mul s.base_volume r.risk_adjustment_multiplier) r.min_volume r.max_volume
  pub stop_ok :
      normalized_stop_price r.entry_price (stop_distance r.atr_14 r.atr_multiplier) r.side
      ≡ ok s.stop_price

pub calculate_size-Derivation :
    (r : SizeRequest) (s : SizeResult) → calculate_size r ≡ ok s → Derivation r s
unfolding calculate_size
calculate_size-Derivation r s h = ground arith

-- A request that is sized is sizable: its average range, pip size, equity, stop and pip value are
-- positive, its risk lies between 0 and 1, and its side is known. If the broker's range is not
-- empty, the final volume lies within it.
pub calculate_size_sound :
    (r : SizeRequest) (s : SizeResult)
    → calculate_size r ≡ ok s
    → le r.min_volume r.max_volume ≡ true
    → IsSizable r
      × (le r.min_volume s.final_volume ≡ true)
      × (le s.final_volume r.max_volume ≡ true)
calculate_size_sound r s h range =
    let d = calculate_size-Derivation r s h in
    let bounds =
      clamp_volume_bounds (mul s.base_volume r.risk_adjustment_multiplier) r.min_volume r.max_volume
        range in
    (
      record {
        atr_pos = d.atr_ok;
        pip_size_pos = d.pip_size_ok;
        tradable = (base_volume-ok r.equity r.risk_per_trade (stop_pips r) r.pip_value d.base_ok).0;
        sided =
            stop_price-sided r.entry_price (stop_distance r.atr_14 r.atr_multiplier) r.side
              d.stop_ok;
      },
      rw d.final_ok bounds.0,
      rw d.final_ok bounds.1,
    )

-- A sizable request fails only where the base volume has more digits than the decimal context
-- holds, and then by the context's own exception.
pub calculate_size_complete :
    (r : SizeRequest) {e : SizingError}
    → IsSizable r
    → calculate_size r ≡ raised e
    → let target = quot (mul r.equity r.risk_per_trade) (mul (stop_pips r) r.pip_value) in
      (e ≡ invalid_operation) × (quantize_down target 2 ≡ none)
unfolding calculate_size base_volume normalized_stop_price
calculate_size_complete r w h = ground arith
