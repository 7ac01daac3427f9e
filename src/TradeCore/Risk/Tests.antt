-- ===== src/TradeCore/Risk/Tests.antt =====
-- The risk validator of risk_validator.py on small inputs.
use lumine_hedge_fund.Prelude.{◌≡◌, refl, ◌↔◌, true, [], ◌∷◌, ◌*ℤ◌, ◌+ℤ◌, ◌-ℤ◌}
use lumine_hedge_fund.Decimal.{of_int, le, lt, add, quot, neg}
use lumine_hedge_fund.TradeCore.Risk.{
  RiskInputs, default_limits, ratio, assess_proposal, position_limit_exceeded,
}
use lumine_hedge_fund.TradeCore.Risk.Verdict.{IsWithin, assess_proposal-approved_iff}

abbrev small_trade : RiskInputs
small_trade = record {
  equity = of_int 10000;
  proposed_notional = of_int 150;
  total_notional = of_int 200;
  correlated_notional = of_int 0;
  daily_pnl = of_int 0;
  open_positions = 2;
  strategy_notional = of_int 0;
  proposed_is_correlated = true;
}

abbrev full_book : RiskInputs
full_book = record small_trade { open_positions = 10 }

small_trade_passes : (assess_proposal small_trade default_limits).approved ≡ true
unfolding assess_proposal ratio le lt add quot neg ◌*ℤ◌ ◌+ℤ◌ ◌-ℤ◌
small_trade_passes = refl

full_book_fails :
    (assess_proposal full_book default_limits).violations ≡ position_limit_exceeded 10 ∷ []
unfolding assess_proposal ratio le lt add quot neg ◌*ℤ◌ ◌+ℤ◌ ◌-ℤ◌
full_book_fails = refl

assess_proposal-approved_iff_example :
    ((assess_proposal small_trade default_limits).approved ≡ true)
    ↔ IsWithin small_trade default_limits
assess_proposal-approved_iff_example = assess_proposal-approved_iff small_trade default_limits
