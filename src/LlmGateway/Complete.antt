-- ===== src/LlmGateway/Complete.antt =====
-- backend/src/lumine/llm_gateway/gateway.py, `Gateway.complete_async`, with usage.py: budget gate,
-- resolution, fallback chain and accounting. The state is the table `llm_usage`; the calls that the
-- chain made come back in the result. Writing without a session, which writes no row, is `none`.
pub mod Accounting
pub mod Attribution
mod Tests
use lumine_hedge_fund.Prelude.{
  ℕ, suc, ◌+◌, ◌*◌, Bool, true, false, Option, none, some, List, [], ◌∷◌, ◌++◌, String, str_eq,
  if◌then◌else◌, Dict, lookup, is_empty,
}
use lumine_hedge_fund.Decimal.{Decimal, of_int, add, mul, quot, quantize_half_even}
use lumine_hedge_fund.LlmGateway.Tiers.{ModelTier, tier_value}
use lumine_hedge_fund.LlmGateway.Budget.{
  Floats, CostPolicy, BudgetDecision, Reason, Checked, passed, exceeded, check,
}
use lumine_hedge_fund.LlmGateway.Fallback.{
  Route, GatewayResponse, Reply, Call, Ended, answered, no_fallbacks, exhausted, run_chain,
}
use lumine_hedge_fund.LlmGateway.Registry.{ModelRow, ModelRoute, Resolved, route, resolve_model}

-- What the gateway reads of a request.
pub record RouterRequest : Type 0 where
  pub model_version_id : String
  pub role : String
  pub tier : ModelTier
  pub lineage_id : String

-- A row of `llm_usage`.
pub record LlmUsage : Type 0 where
  pub role : String
  pub tier : String
  pub model_version_id : String
  pub tokens_in : ℕ
  pub tokens_out : ℕ
  pub cost_usd : Decimal
  pub fallback_hops : ℕ
  pub degraded : Bool
  pub lineage_id : String

-- `_cost_usd`: none where `quantize` raises.
unfoldable pub cost_usd : ℕ → ℕ → Decimal → Decimal → Option Decimal
cost_usd prompt_tokens completion_tokens price_in price_out =
    quantize_half_even
      (quot (add (mul (of_int prompt_tokens) price_in) (mul (of_int completion_tokens) price_out))
        (of_int 1000))
      6

-- `_used_route`
unfoldable pub matching : List Route → String → Route → Route
matching [] model primary = primary
matching (r ∷ routes) model primary =
    if str_eq r.model model then r else matching routes model primary

unfoldable pub used_route : Route → List Route → GatewayResponse → Route
unfolding matching
used_route primary hops response = matching (primary ∷ hops) response.model_used primary

-- `_hops_used`
unfoldable pub hop_index : ℕ → List Route → String → ℕ
hop_index i [] model = 0
hop_index i (hop ∷ hops) model = if str_eq hop.model model then i else hop_index (i + 1) hops model

unfoldable pub hops_used : Route → List Route → GatewayResponse → ℕ
unfolding hop_index
hops_used primary hops response =
    if str_eq response.model_used primary.model then 0 else hop_index 1 hops response.model_used

pub record GatewayResult : Type 0 where
  pub response : GatewayResponse
  pub primary : Route
  pub decision : BudgetDecision
  pub fallback_hops : ℕ
  pub usage : Option LlmUsage

pub data Completed : Type 0 where
  ok : GatewayResult → Completed
  budget_exceeded : Reason → Completed
  model_unavailable : Resolved → Completed
  chain_failed : Ended → Completed
  usage_failed : Completed

-- `Decimal("0.000000")` for a model with no price.
unfoldable pub price_of : Option (Decimal × Decimal) → Decimal × Decimal
price_of none = (of_int 0, of_int 0)
price_of (some p) = p

-- The collaborators of a gateway. `flushes` says whether the database takes the usage row.
pub record Gateway : Type 0 where
  pub registry : Dict ModelRow
  pub prices : Dict (Decimal × Decimal)
  pub has_session : Bool
  pub flushes : Bool
  pub client : ℕ → Route → Reply
  pub fallbacks : Option (ModelTier → Route × List Route)

-- `_routes_for`
pub data Routes : Type 0 where
  routes : Route → List Route → Routes
  unavailable : Resolved → Routes

unfoldable pub from_registry : Resolved → Routes
from_registry (route r) =
    routes (record { model = r.model; model_version_id = r.model_version_id }) []
from_registry other = unavailable other

unfoldable pub from_fallbacks :
    Option (ModelTier → Route × List Route) → Dict ModelRow → RouterRequest → Routes
unfolding from_registry
from_fallbacks none registry request =
    from_registry (resolve_model registry request.model_version_id)
from_fallbacks (some provider) registry request =
    let (primary, hops) = provider request.tier in routes primary hops

unfoldable pub routes_for : Gateway → RouterRequest → Routes
unfolding from_fallbacks
routes_for g request = from_fallbacks g.fallbacks g.registry request

-- `record_usage`, with the request pinned again to the route that was used.
unfoldable pub record_usage :
    RouterRequest → GatewayResponse → Route → Decimal → ℕ → Bool → LlmUsage
record_usage request response used cost hops degraded = record {
  role = request.role;
  tier = tier_value request.tier;
  model_version_id = used.model_version_id;
  tokens_in = response.prompt_tokens;
  tokens_out = response.completion_tokens;
  cost_usd = cost;
  fallback_hops = hops;
  degraded = degraded;
  lineage_id = request.lineage_id;
}

-- `write_usage` and the result.
unfoldable pub written :
    Gateway
    → RouterRequest
    → BudgetDecision
    → Route
    → List Route
    → GatewayResponse
    → Option Decimal
    → List LlmUsage
    → Completed × List LlmUsage
written g request decision primary hops response none table = (usage_failed, table)
written g request decision primary hops response (some cost) table =
    let row =
      record_usage request response (used_route primary hops response) cost
        (hops_used primary hops response) decision.degraded in
    if g.flushes
    then (
      ok (record {
        response = response;
        primary = primary;
        decision = decision;
        fallback_hops = hops_used primary hops response;
        usage = some row;
      }),
      table ++ row ∷ [],
    )
    else (usage_failed, table)

unfoldable pub account :
    Gateway
    → RouterRequest
    → BudgetDecision
    → Route
    → List Route
    → GatewayResponse
    → List LlmUsage
    → Completed × List LlmUsage
unfolding written
account g request decision primary hops response table =
    let (price_in, price_out) =
      price_of (lookup (used_route primary hops response).model g.prices) in
    if g.has_session
    then written g request decision primary hops response
        (cost_usd response.prompt_tokens response.completion_tokens price_in price_out) table
    else (
      ok (record {
        response = response;
        primary = primary;
        decision = decision;
        fallback_hops = hops_used primary hops response;
        usage = none;
      }),
      table,
    )

-- What follows the chain.
unfoldable pub settle :
    Gateway
    → RouterRequest
    → BudgetDecision
    → Route
    → List Route
    → Ended
    → List LlmUsage
    → Completed × List LlmUsage
unfolding account
settle g request decision primary hops (answered response) table =
    account g request decision primary hops response table
settle g request decision primary hops failed table = (chain_failed failed, table)

unfoldable pub call_routes :
    Gateway
    → RouterRequest
    → BudgetDecision
    → Routes
    → List LlmUsage
    → Completed × List Call × List LlmUsage
unfolding settle
call_routes g request decision (unavailable r) table = (model_unavailable r, [], table)
call_routes g request decision (routes primary hops) table =
    let (chain, log) = run_chain g.client primary hops in
    let (result, table') = settle g request decision primary hops chain table in
    (result, log, table')

module _ (f : Floats) where
  -- `dict(spend or self._spend)`
  unfoldable pub effective_spend : Dict f.Float → Dict f.Float → Dict f.Float
  effective_spend [] own = own
  effective_spend (x ∷ xs) own = x ∷ xs

  unfoldable pub gated :
      Gateway → RouterRequest → Checked → List LlmUsage → Completed × List Call × List LlmUsage
  unfolding call_routes
  gated g request (exceeded reason) table = (budget_exceeded reason, [], table)
  gated g request (passed decision) table =
      call_routes g request decision (routes_for g request) table

  unfoldable pub complete_async :
      CostPolicy f
      → Dict f.Float
      → Gateway
      → RouterRequest
      → Dict f.Float
      → List LlmUsage
      → Completed × List Call × List LlmUsage
  unfolding gated effective_spend
  complete_async policy own_spend g request spend table =
      gated g request (check f policy (effective_spend spend own_spend) request.tier request.role)
        table
