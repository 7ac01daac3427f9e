-- ===== src/LlmGateway/Tiers/Escalation.antt =====
-- The ranks of escalated tiers: router.py, `escalation_decision`.
use lumine_hedge_fund.Prelude.{◌+◌, ◌≤◌, ◌≡◌, ◌⊎◌, Bool, true, false, ◌||◌, String, arith}
use lumine_hedge_fund.LlmGateway.Tiers.{
  ModelTier, cost_efficient, context_rich, strongest, tier_rank, next_tier, or_tier,
  default_tier_for_role, escalation_decision,
}

next_tier-rank :
    (t : ModelTier)
    → let u = or_tier (next_tier t) t in
      (tier_rank t ≤ tier_rank u) × (tier_rank u ≤ tier_rank t + 1)
unfolding next_tier or_tier
next_tier-rank cost_efficient = omega arith
next_tier-rank context_rich = omega arith
next_tier-rank strongest = omega arith

-- The tier of a call is never below the default of its role. It is the strongest after a CIO
-- override, at most one rank above the default otherwise, and the default where no trigger fires.
pub escalation_decision_bounds :
    (role : String) (low high cio near : Bool)
    → let tier = escalation_decision role low high cio near in
      let base = default_tier_for_role role in
      (tier_rank base ≤ tier_rank tier)
      × ((cio ≡ true) × (tier ≡ strongest) ⊎ (cio ≡ false) × (tier_rank tier ≤ tier_rank base + 1))
      × ((tier ≡ base) ⊎ ((low || (high || (cio || near))) ≡ true))
unfolding escalation_decision
escalation_decision_bounds role low high cio near =
    ground (arith, next_tier-rank (default_tier_for_role role))
