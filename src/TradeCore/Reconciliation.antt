-- ===== src/TradeCore/Reconciliation.antt =====
-- backend/src/lumine/trade_core/reconciliation.py. The Redis keys are a dictionary of texts.
pub mod Drift
mod Tests
use lumine_hedge_fund.Prelude.{
  Bool, true, false, not, ◌||◌, String, str_eq, if◌then◌else◌, Dict, insert,
}
use lumine_hedge_fund.Decimal.{Decimal, of_int, of_digits, lt, is_zero, sub, quot, magnitude}

pub record FillComparison : Type 0 where
  pub expected_price : Decimal
  pub fill_price : Decimal
  pub expected_volume : Decimal
  pub fill_volume : Decimal
  pub price_deviation_pct : Decimal
  pub volume_deviation_pct : Decimal
  pub price_mismatch : Bool
  pub volume_mismatch : Bool

-- The property `FillComparison.mismatch`.
unfoldable pub mismatch : FillComparison → Bool
mismatch c = c.price_mismatch || c.volume_mismatch

unfoldable pub deviation : Decimal → Decimal → Decimal
deviation actual expected =
    if is_zero expected then of_int 0 else quot (magnitude (sub actual expected)) expected

unfoldable pub compare_fill :
    Decimal → Decimal → Decimal → Decimal → Decimal → Decimal → FillComparison
compare_fill expected_price fill_price expected_volume fill_volume price_tolerance
      volume_tolerance =
    record {
      expected_price = expected_price;
      fill_price = fill_price;
      expected_volume = expected_volume;
      fill_volume = fill_volume;
      price_deviation_pct = deviation fill_price expected_price;
      volume_deviation_pct = deviation fill_volume expected_volume;
      price_mismatch = lt price_tolerance (deviation fill_price expected_price);
      volume_mismatch = lt volume_tolerance (deviation fill_volume expected_volume);
    }

-- The default tolerances: 0.5 % of the price, 1 % of the volume.
abbrev pub price_tolerance_pct : Decimal
price_tolerance_pct = of_digits 5 3

abbrev pub volume_tolerance_pct : Decimal
volume_tolerance_pct = of_digits 1 2

pub record SettlementGate : Type 0 where
  pub internal_status : String
  pub broker_status : String
  pub settled : Bool
  pub drift : Bool

unfoldable pub reconciliation_gate : String → String → SettlementGate
reconciliation_gate internal_status broker_status =
    let settled =
      if str_eq internal_status "CLOSED" then str_eq broker_status "SETTLED" else true in
    record {
      internal_status = internal_status;
      broker_status = broker_status;
      settled = settled;
      drift = if str_eq internal_status "CLOSED" then not settled else false;
    }

-- `redis.set(key, "1")`, with no expiry.
unfoldable pub arm_kill_switch : Dict String → String → Dict String
arm_kill_switch redis key = insert key "1" redis
