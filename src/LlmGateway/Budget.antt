-- ===== src/LlmGateway/Budget.antt =====
-- backend/src/lumine/llm_gateway/budget.py: the daily budget gate. Dollars are Python floats, which
-- enter as a record of the operations used. A policy is its `cost` section as read by `_policy_cost`
-- and `_caps`, with an absent or empty entry as an empty list or `none`; conversions of its JSON
-- values to float are not modelled.
pub mod Blocking
mod Tests
use lumine_hedge_fund.Prelude.{
  ℕ, Bool, true, false, ◌&&◌, ◌||◌, not, Option, none, some, List, [], ◌∷◌, String, str_eq,
  if◌then◌else◌, Dict, lookup, contains,
}
use lumine_hedge_fund.LlmGateway.Tiers.{ModelTier, tier_value}

-- The float operations of the gate; `ge` is Python's `>=`.
pub record Floats : Type 1 where
  pub Float : Type 0
  pub zero : Float
  pub soft_default : Float
  pub plus : Float → Float → Float
  pub times : Float → Float → Float
  pub ge : Float → Float → Bool

-- `_DEFAULT_PROTECTED_ROLES`
abbrev pub default_protected_roles : List String
default_protected_roles =
    "technical_analyst" ∷ "macro_analyst" ∷ "news_analyst" ∷ "smc_analyst" ∷ "ic_forum"
    ∷ "cio_proposer" ∷ []

-- `_DEFAULT_DEGRADE_ORDER`
abbrev pub default_degrade_order : List String
default_degrade_order = "journal" ∷ "research_sandbox" ∷ "analyst_rerun" ∷ "debate" ∷ []

-- `_DEGRADE_AS_FLAGGED_RUN`
abbrev pub degrade_as_flagged_run : List String
degrade_as_flagged_run = "analyst_rerun" ∷ []

-- `xs or default`
unfoldable pub or_default : List String → List String → List String
or_default [] d = d
or_default (x ∷ xs) d = x ∷ xs

pub data Action : Type 0 where
  allow block : Action

pub data Reason : Type 0 where
  protected_role_runs global_cap_breached rerun_keeps_tier tier_cap_breached under_caps : Reason

pub record BudgetDecision : Type 0 where
  pub action : Action
  pub degraded : Bool
  pub warn : Bool
  pub reason : Reason

-- `BudgetGate.check`: the decision, or `LLMBudgetExceededError` with its reason.
pub data Checked : Type 0 where
  passed : BudgetDecision → Checked
  exceeded : Reason → Checked

module _ (f : Floats) where
  open f use {Float, zero, soft_default, plus, times, ge}

  pub record CostPolicy : Type 0 where
    pub daily_cap_usd : Dict Float
    pub protected_roles : List String
    pub degrade_order : List String
    pub soft_warn_pct : Option Float

  unfoldable pub or_zero : Option Float → Float
  or_zero none = zero
  or_zero (some x) = x

  -- `sum(spend.values())`
  unfoldable pub total_from : Float → Dict Float → Float
  total_from acc [] = acc
  total_from acc ((k, v) ∷ spend) = total_from (plus acc v) spend

  -- `cap is not None and spent >= cap`
  unfoldable pub breached : Option Float → Float → Bool
  breached none spent = false
  breached (some cap) spent = ge spent cap

  -- `cap is not None and spent >= cap * soft`
  unfoldable pub warned : Option Float → Float → Option Float → Bool
  warned none spent soft = false
  warned (some cap) spent none = ge spent (times cap soft_default)
  warned (some cap) spent (some pct) = ge spent (times cap pct)

  unfoldable pub tier_breach : CostPolicy → Dict Float → ModelTier → Bool
  unfolding or_zero breached
  tier_breach policy spend tier =
      breached (lookup (tier_value tier) policy.daily_cap_usd)
        (or_zero (lookup (tier_value tier) spend))

  unfoldable pub global_breach : CostPolicy → Dict Float → Bool
  unfolding total_from breached
  global_breach policy spend =
      breached (lookup "global" policy.daily_cap_usd) (total_from zero spend)

  unfoldable pub soft_warning : CostPolicy → Dict Float → ModelTier → Bool
  unfolding or_zero warned
  soft_warning policy spend tier =
      warned (lookup (tier_value tier) policy.daily_cap_usd)
        (or_zero (lookup (tier_value tier) spend)) policy.soft_warn_pct

  unfoldable pub is_protected : CostPolicy → String → Bool
  unfolding or_default
  is_protected policy role =
      contains role (or_default policy.protected_roles default_protected_roles)

  -- A re-run that keeps its original output, flagged.
  unfoldable pub is_flagged_run : CostPolicy → String → Bool
  unfolding or_default
  is_flagged_run policy role =
      contains role (or_default policy.degrade_order default_degrade_order)
      && contains role degrade_as_flagged_run

  unfoldable pub budget_decision : CostPolicy → Dict Float → ModelTier → String → BudgetDecision
  budget_decision policy spend tier role =
      if is_protected policy role
      then record {
        action = allow;
        degraded = false;
        warn = soft_warning policy spend tier;
        reason = protected_role_runs;
      }
      else if global_breach policy spend
      then record { action = block; degraded = true; warn = true; reason = global_cap_breached }
      else if tier_breach policy spend tier
      then if is_flagged_run policy role
        then record { action = allow; degraded = true; warn = true; reason = rerun_keeps_tier }
        else record { action = block; degraded = true; warn = true; reason = tier_cap_breached }
      else record {
        action = allow;
        degraded = false;
        warn = soft_warning policy spend tier;
        reason = under_caps;
      }

  unfoldable pub check : CostPolicy → Dict Float → ModelTier → String → Checked
  unfolding budget_decision
  check policy spend tier role =
      let decision = budget_decision policy spend tier role in
      elim decision.action [ block ↦ exceeded decision.reason | allow ↦ passed decision ]
