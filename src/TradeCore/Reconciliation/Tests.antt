-- ===== src/TradeCore/Reconciliation/Tests.antt =====
-- The reconciliation of reconciliation.py on small inputs.
use lumine_hedge_fund.Prelude.{◌≡◌, refl, true, false, ◌*ℤ◌, ◌-ℤ◌}
use lumine_hedge_fund.Decimal.{of_int, lt, is_zero, quot, magnitude, sub}
use lumine_hedge_fund.TradeCore.Reconciliation.{
  mismatch, compare_fill, price_tolerance_pct, volume_tolerance_pct, deviation,
}

-- A fill half a percent off its price is within the tolerance, and one just beyond is not.
at_tolerance :
    mismatch (
      compare_fill
        (of_int 2000)
        (of_int 2010)
        (of_int 1)
        (of_int 1)
        price_tolerance_pct
        volume_tolerance_pct)
    ≡ false
unfolding mismatch compare_fill lt ◌*ℤ◌ deviation is_zero quot magnitude sub ◌-ℤ◌
at_tolerance = refl

beyond_tolerance :
    mismatch (
      compare_fill
        (of_int 2000)
        (of_int 2011)
        (of_int 1)
        (of_int 1)
        price_tolerance_pct
        volume_tolerance_pct)
    ≡ true
unfolding mismatch compare_fill lt ◌*ℤ◌ deviation is_zero quot magnitude sub ◌-ℤ◌
beyond_tolerance = refl
