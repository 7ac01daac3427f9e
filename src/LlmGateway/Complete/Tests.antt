-- ===== src/LlmGateway/Complete/Tests.antt =====
-- A call of gateway.py that falls back once, with its usage row.
use lumine_hedge_fund.Prelude.{
  ℕ, ◌+◌, ◌*◌, ◌/◌, true, none, some, [], ◌∷◌, str_eq, leb, if◌then◌else◌,
}
use lumine_hedge_fund.LlmGateway.Tiers.{context_rich}
use lumine_hedge_fund.LlmGateway.Budget.{Floats, CostPolicy}
use lumine_hedge_fund.LlmGateway.Fallback.{Route, GatewayResponse, answer, client_error}
use lumine_hedge_fund.LlmGateway.Complete.{RouterRequest, Gateway, complete_async}
use lumine_hedge_fund.LlmGateway.Complete.Accounting.{Recorded, complete_async-Recorded}

abbrev cents : Floats
cents = record {
  Float = ℕ;
  zero = 0;
  soft_default = 80;
  plus = λ a b. a + b;
  times = λ a b. a * b / 100;
  ge = λ a b. leb b a;
}

abbrev policy : CostPolicy cents
policy = record {
  daily_cap_usd = [];
  protected_roles = [];
  degrade_order = [];
  soft_warn_pct = none;
}

abbrev primary : Route
primary = record { model = "m1"; model_version_id = "v1" }

abbrev hop : Route
hop = record { model = "m2"; model_version_id = "v2" }

abbrev response : GatewayResponse
response = record {
  content = "ok";
  model_used = "m2";
  prompt_tokens = 10;
  completion_tokens = 5;
  total_tokens = 15;
}

abbrev gateway : Gateway
gateway = record {
  registry = [];
  prices = [];
  has_session = true;
  flushes = true;
  client = λ n route. if str_eq route.model "m1" then client_error "HTTP 401" else answer response;
  fallbacks = some (λ tier. (primary, hop ∷ []));
}

abbrev request : RouterRequest
request = record {
  model_version_id = "v1";
  role = "ic_forum";
  tier = context_rich;
  lineage_id = "l1";
}

complete_async-Recorded_example :
    Recorded gateway request []
      (complete_async cents policy [] gateway request [] []).0
      (complete_async cents policy [] gateway request [] []).2
complete_async-Recorded_example = complete_async-Recorded cents policy [] gateway request [] []
