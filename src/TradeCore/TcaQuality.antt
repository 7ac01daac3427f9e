-- ===== src/TradeCore/TcaQuality.antt =====
-- backend/src/lumine/trade_core/tca_quality.py: the alerts on slippage. The rollups are not modelled.
pub mod Clusters
mod Tests
use Prim.Native.Nat.{Ordering}
use Prim.Native.String.{compare, ◌++◌ as ◌++ₛ◌}
use lumine_hedge_fund.Prelude.{
  ℕ, Bool, true, false, Option, none, some, List, [], ◌∷◌, ◌++◌, String, str_eq, ltb, if◌then◌else◌,
  Dict, lookup, insert, map, length,
}
use lumine_hedge_fund.Decimal.{Decimal, of_int, lt}
use lumine_hedge_fund.TradeCore.Tca.{same_codes}
use lumine_hedge_fund.LlmGateway.Fallback.{lower_codes}

-- What the alerts read of an observation.
pub record TcaObservation : Type 0 where
  pub tca_id : String
  pub fill_id : String
  pub strategy_id : String
  pub symbol : String
  pub broker_id : String
  pub regime_id : String
  pub slippage_bps : Decimal

pub record SlippageBreach : Type 0 where
  pub observation : TcaObservation
  pub threshold_bps : Decimal

pub record SlippageCluster : Type 0 where
  pub strategy_id : String
  pub breach_count : ℕ
  pub cluster_limit : ℕ
  pub fill_ids : List String

unfoldable pub default_threshold : String → Decimal
unfolding same_codes lower_codes
default_threshold regime_id =
    if same_codes (lower_codes regime_id) (lower_codes "high_vol") then of_int 10 else of_int 5

unfoldable pub configured : Option Decimal → Option Decimal → Decimal → Decimal
configured (some exact) regime default = exact
configured none (some regime) default = regime
configured none none default = default

-- `threshold_for`; no policy is an empty one.
unfoldable pub threshold_for : Dict Decimal → String → String → Decimal
unfolding configured default_threshold
threshold_for policy symbol regime_id =
    configured (lookup (symbol ++ₛ (":" ++ₛ regime_id)) policy) (lookup regime_id policy)
      (default_threshold regime_id)

unfoldable pub is_breach : Dict Decimal → TcaObservation → Bool
is_breach policy o = lt (threshold_for policy o.symbol o.regime_id) o.slippage_bps

-- The first loop of `detect_alerts`.
unfoldable pub breaches_of : Dict Decimal → List TcaObservation → List SlippageBreach
unfolding is_breach
breaches_of policy [] = []
breaches_of policy (o ∷ observations) =
    let rest = breaches_of policy observations in
    let breach : SlippageBreach = record {
      observation = o;
      threshold_bps = threshold_for policy o.symbol o.regime_id;
    } in
    if is_breach policy o then breach ∷ rest else rest

unfoldable pub or_none : Option (List SlippageBreach) → List SlippageBreach
or_none none = []
or_none (some breaches) = breaches

-- `by_strategy.setdefault(breach.strategy_id, []).append(breach)`, over the breaches in their order.
unfoldable pub by_strategy :
    List SlippageBreach → Dict (List SlippageBreach) → Dict (List SlippageBreach)
unfolding or_none
by_strategy [] groups = groups
by_strategy (b ∷ breaches) groups = by_strategy breaches (
    insert b.observation.strategy_id (or_none (lookup b.observation.strategy_id groups) ++ b ∷ [])
      groups)

-- `sorted(by_strategy.items())`; the keys are distinct, so that values are not compared.
unfoldable pub is_after : Ordering → Bool
is_after Ordering.gt = true
is_after _ = false

unfoldable pub place :
    String → List SlippageBreach → Dict (List SlippageBreach) → Dict (List SlippageBreach)
unfolding is_after
place k v [] = (k, v) ∷ []
place k v ((j, w) ∷ groups) =
    let rest = place k v groups in
    if is_after (compare k j) then (j, w) ∷ rest else (k, v) ∷ (j, w) ∷ groups

unfoldable pub sorted : Dict (List SlippageBreach) → Dict (List SlippageBreach)
unfolding place
sorted [] = []
sorted ((k, v) ∷ groups) = place k v (sorted groups)

abbrev pub fill_id_of : SlippageBreach → String
fill_id_of b = b.observation.fill_id

unfoldable pub cluster : ℕ → String → List SlippageBreach → SlippageCluster
cluster limit strategy_id breaches = record {
  strategy_id = strategy_id;
  breach_count = length breaches;
  cluster_limit = limit;
  fill_ids = map fill_id_of breaches;
}

-- The last loop.
unfoldable pub clusters_of : ℕ → Dict (List SlippageBreach) → List SlippageCluster
unfolding cluster
clusters_of limit [] = []
clusters_of limit ((strategy_id, breaches) ∷ groups) =
    let rest = clusters_of limit groups in
    if ltb limit (length breaches) then cluster limit strategy_id breaches ∷ rest else rest

unfoldable pub detect_alerts :
    Dict Decimal → ℕ → List TcaObservation → List SlippageBreach × List SlippageCluster
unfolding clusters_of sorted by_strategy breaches_of
detect_alerts policy limit observations =
    let breaches = breaches_of policy observations in
    (breaches, clusters_of limit (sorted (by_strategy breaches [])))
