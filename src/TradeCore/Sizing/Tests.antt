-- ===== src/TradeCore/Sizing/Tests.antt =====
-- The sizing of sizing_calculator.py on small inputs.
use lumine_hedge_fund.Prelude.{◌^◌, ◌≡◌, refl, true, none, inl, ◌*ℤ◌, ◌-ℤ◌}
use lumine_hedge_fund.Decimal.{of_int, of_digits, le, lt, sub, mul, quot, quantize_down}
use lumine_hedge_fund.TradeCore.Sizing.{
  SizeRequest, SizeResult, ok, raised, invalid_operation, base_volume, stop_distance,
  calculate_size, normalized_stop_price, clamp_volume,
}
use lumine_hedge_fund.TradeCore.Sizing.Bounds.{
  IsSizable, stop_pips, calculate_size_sound, calculate_size_complete,
}

abbrev request : SizeRequest
request = record {
  entry_price = of_int 2400;
  atr_14 = of_int 5;
  equity = of_int 10000;
  risk_per_trade = of_digits 1 2;
  atr_multiplier = of_digits 15 1;
  pip_value = of_int 7;
  side = "BUY";
  pip_size = of_digits 1 1;
  min_volume = of_digits 1 2;
  max_volume = of_int 1;
  risk_adjustment_multiplier = of_digits 5 1;
}

-- 100 of risk over 75 pips at 7 a lot is 0.19 lots, and half of it 0.095.
sized :
    calculate_size request
    ≡ ok (record {
      base_volume = of_digits 19 2;
      final_volume = of_digits 95 3;
      stop_distance = of_digits 75 1;
      stop_price = of_digits 23925 1;
    })
unfolding calculate_size base_volume stop_distance le ◌*ℤ◌ quot mul quantize_down
    normalized_stop_price clamp_volume sub lt ◌-ℤ◌
sized = refl

base_of_request :
    base_volume (of_int 10000) (of_digits 1 2) (of_int 75) (of_int 7) ≡ ok (of_digits 19 2)
unfolding base_volume le ◌*ℤ◌ quantize_down quot mul
base_of_request = refl

abbrev result : SizeResult
result = record {
  base_volume = of_digits 19 2;
  final_volume = of_digits 95 3;
  stop_distance = of_digits 75 1;
  stop_price = of_digits 23925 1;
}

range_of_request : le request.min_volume request.max_volume ≡ true
unfolding le ◌*ℤ◌
range_of_request = refl

calculate_size_sound_example :
    IsSizable request
    × (le request.min_volume result.final_volume ≡ true)
    × (le result.final_volume request.max_volume ≡ true)
calculate_size_sound_example = calculate_size_sound request result sized range_of_request

-- An equity whose volume has more digits than the context holds.
abbrev huge_request : SizeRequest
huge_request = record request { equity = of_int (10 ^ 33) }

huge_request-IsSizable : IsSizable huge_request
unfolding le ◌*ℤ◌ quot stop_distance mul
huge_request-IsSizable = record {
  atr_pos = refl;
  pip_size_pos = refl;
  tradable = record {
    equity_pos = refl;
    risk_pos = refl;
    risk_below_one = refl;
    stop_pos = refl;
    pip_pos = refl;
  };
  sided = inl refl;
}

huge_request_raises : calculate_size huge_request ≡ raised invalid_operation
unfolding calculate_size le ◌*ℤ◌ base_volume quot mul quantize_down
huge_request_raises = refl

calculate_size_complete_example :
    (invalid_operation ≡ invalid_operation)
    × (quantize_down
          (quot
            (mul huge_request.equity huge_request.risk_per_trade)
            (mul (stop_pips huge_request) huge_request.pip_value))
          2
        ≡ none)
calculate_size_complete_example =
    calculate_size_complete huge_request huge_request-IsSizable huge_request_raises
