-- ===== src/TradeCore/TcaQuality/Tests.antt =====
-- The alerts of tca_quality.py on three fills of one strategy.
use lumine_hedge_fund.Prelude.{
  ℕ, ◌≡◌, refl, some, List, [], ◌∷◌, String, Dict, ◌*ℤ◌, lookup, insert,
}
use lumine_hedge_fund.Decimal.{Decimal, of_int, lt}
use lumine_hedge_fund.TradeCore.TcaQuality.{TcaObservation, detect_alerts, threshold_for}
use lumine_hedge_fund.TradeCore.TcaQuality.Clusters.{page_of}

abbrev fill : String → ℕ → TcaObservation
fill id bps = record {
  tca_id = id;
  fill_id = id;
  strategy_id = "s1";
  symbol = "XAUUSD";
  broker_id = "b";
  regime_id = "calm";
  slippage_bps = of_int bps;
}

abbrev policy : Dict Decimal
policy = ("calm", of_int 7) ∷ []

abbrev observations : List TcaObservation
observations = fill "f1" 8 ∷ fill "f2" 7 ∷ fill "f3" 9 ∷ []

two_breaches :
    page_of "s1" (detect_alerts policy 1 observations).1
    ≡ some (record {
      strategy_id = "s1";
      breach_count = 2;
      cluster_limit = 1;
      fill_ids = "f1" ∷ "f3" ∷ [];
    })
unfolding page_of detect_alerts lt ◌*ℤ◌ threshold_for lookup insert
two_breaches = refl
