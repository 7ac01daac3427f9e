-- ===== src/LlmGateway/Tests.antt =====
-- The tiers of router.py and the registry of registry.py on small inputs.
use lumine_hedge_fund.Prelude.{◌≡◌, refl, true, false, [], ◌∷◌, Dict, lookup}
use lumine_hedge_fund.LlmGateway.Tiers.{
  context_rich, tier_of_value, default_tier_for_role, escalation_decision, or_tier,
}
use lumine_hedge_fund.LlmGateway.Registry.{ModelRow, ModelRoute, route, resolve_model}

analyst_escalates : escalation_decision "technical_analyst" true false false false ≡ context_rich
unfolding escalation_decision or_tier default_tier_for_role
analyst_escalates = refl

abbrev row : ModelRow
row = record {
  version = "1";
  status = "production";
  provider = "p";
  model_id = "m";
  tier = "context-rich";
  context_window = 8000;
}

abbrev registry : Dict ModelRow
registry = ("v1", row) ∷ []

abbrev row_route : ModelRoute
row_route = record {
  model_version_id = "v1";
  version = "1";
  provider = "p";
  model = "m";
  tier = context_rich;
  context_window = 8000;
}

row_resolves : resolve_model registry "v1" ≡ route row_route
unfolding resolve_model lookup tier_of_value
row_resolves = refl
