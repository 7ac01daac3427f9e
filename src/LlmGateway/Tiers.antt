-- ===== src/LlmGateway/Tiers.antt =====
-- backend/src/lumine/llm_gateway/types.py, `ModelTier`, and router.py: the static choice of a tier.
pub mod Escalation
use lumine_hedge_fund.Prelude.{
  ℕ, ◌+◌, Bool, true, false, ◌||◌, Option, none, some, List, [], ◌∷◌, String, str_eq, ◌==◌,
  if◌then◌else◌, Dict, lookup,
}

pub data ModelTier : Type 0 where
  cost_efficient context_rich strongest : ModelTier

unfoldable pub tier_value : ModelTier → String
tier_value cost_efficient = "cost-efficient"
tier_value context_rich = "context-rich"
tier_value strongest = "strongest"

-- `ModelTier(value)`: none where it raises.
unfoldable pub tier_of_value : String → Option ModelTier
tier_of_value v =
    if str_eq v "cost-efficient"
    then some cost_efficient
    else if str_eq v "context-rich"
    then some context_rich
    else if str_eq v "strongest"
    then some strongest
    else none

-- `_ROLE_DEFAULT_TIER`
abbrev pub role_default_tier : Dict ModelTier
role_default_tier =
    ("technical_analyst", cost_efficient)
    ∷ ("macro_analyst", cost_efficient)
    ∷ ("news_analyst", cost_efficient)
    ∷ ("smc_analyst", cost_efficient)
    ∷ ("ic_forum", context_rich)
    ∷ ("cio_proposer", context_rich)
    ∷ ("risk_assessor", context_rich)
    ∷ ("journal", cost_efficient)
    ∷ ("research_sandbox", cost_efficient)
    ∷ []

-- `_TIER_RANK`, in the order of the dictionary.
abbrev pub tier_ranks : List (ModelTier × ℕ)
tier_ranks = (cost_efficient, 1) ∷ (context_rich, 2) ∷ (strongest, 3) ∷ []

unfoldable pub tier_rank : ModelTier → ℕ
tier_rank cost_efficient = 1
tier_rank context_rich = 2
tier_rank strongest = 3

first_of_rank : ℕ → List (ModelTier × ℕ) → Option ModelTier
first_of_rank rank [] = none
first_of_rank rank ((candidate, candidate_rank) ∷ rest) =
    if candidate_rank == rank then some candidate else first_of_rank rank rest

unfoldable pub next_tier : ModelTier → Option ModelTier
unfolding tier_rank first_of_rank
next_tier tier = first_of_rank (tier_rank tier + 1) tier_ranks

unfoldable pub or_tier : Option ModelTier → ModelTier → ModelTier
or_tier none tier = tier
or_tier (some t) tier = t

unfoldable pub default_tier_for_role : String → ModelTier
unfolding or_tier lookup
default_tier_for_role role = or_tier (lookup role role_default_tier) context_rich

unfoldable pub escalation_decision : String → Bool → Bool → Bool → Bool → ModelTier
unfolding next_tier
escalation_decision role low_confidence high_disagreement cio_override near_breach =
    let tier = default_tier_for_role role in
    if cio_override
    then strongest
    else if low_confidence || (high_disagreement || near_breach)
    then or_tier (next_tier tier) tier
    else tier
