-- ===== src/LlmGateway/Registry.antt =====
-- backend/src/lumine/llm_gateway/registry.py: the resolution of a pinned model version.
use lumine_hedge_fund.Prelude.{
  ℕ, ◌≡◌, inl, inr, Option, none, some, String, str_eq, eq_iff, arith, if◌then◌else◌, Dict, lookup,
  Option-cases,
}
use lumine_hedge_fund.LlmGateway.Tiers.{ModelTier, tier_of_value}

-- A row of `model_versions`, as `_row_to_dict` gives it; `params` is not modelled.
pub record ModelRow : Type 0 where
  pub version : String
  pub status : String
  pub provider : String
  pub model_id : String
  pub tier : String
  pub context_window : ℕ

pub record ModelRoute : Type 0 where
  pub model_version_id : String
  pub version : String
  pub provider : String
  pub model : String
  pub tier : ModelTier
  pub context_window : ℕ

-- `ModelUnavailableError` with its three reasons; `bad_tier` is the `ValueError` of `ModelTier(…)`.
pub data Resolved : Type 0 where
  route : ModelRoute → Resolved
  unknown_id retired not_production bad_tier : Resolved

unfoldable pub routed : String → ModelRow → Option ModelTier → Resolved
routed id row none = bad_tier
routed id row (some tier) = route (record {
  model_version_id = id;
  version = row.version;
  provider = row.provider;
  model = row.model_id;
  tier = tier;
  context_window = row.context_window;
})

unfoldable pub to_route : String → ModelRow → Resolved
unfolding routed
to_route id row = routed id row (tier_of_value row.tier)

unfoldable pub resolve_row : String → Option ModelRow → Resolved
unfolding to_route
resolve_row id none = unknown_id
resolve_row id (some row) =
    if str_eq row.status "production"
    then to_route id row
    else if str_eq row.status "retired"
    then retired
    else not_production

unfoldable pub resolve_model : Dict ModelRow → String → Resolved
unfolding resolve_row
resolve_model registry id = resolve_row id (lookup id registry)

-- Only a registered row in production is routable: a route that the registry resolves has the
-- identifier that was asked for, and the model and tier of that identifier's row.
pub resolve_model-production :
    (registry : Dict ModelRow) (id : String) {r : ModelRoute}
    → resolve_model registry id ≡ route r
    → (row : ModelRow) × (lookup id registry ≡ some row)
      × (row.status ≡ "production")
      × (r.model_version_id ≡ id)
      × (r.model ≡ row.model_id)
      × (tier_of_value row.tier ≡ some r.tier)
unfolding resolve_model
resolve_model-production registry id {r} h = elim (Option-cases (lookup id registry)) [
  | inl e ↦ absurd (ground arith)
  | inr (row, e) ↦ (
    row,
    e,
    ground (arith, eq_iff row.status "production"),
    ground arith,
    ground arith,
    ground arith,
  )
]
