-- ===== src/LlmGateway/Budget/Blocking.antt =====
-- Which calls the budget gate lets through: budget.py, `budget_decision` and `BudgetGate.check`.
use lumine_hedge_fund.Prelude.{◌≡◌, ◌↔◌, ◌⊎◌, Bool, true, false, String, arith, Dict}
use lumine_hedge_fund.LlmGateway.Tiers.{ModelTier}
use lumine_hedge_fund.LlmGateway.Budget.{
  Floats, CostPolicy, BudgetDecision, Checked, passed, exceeded, tier_breach, global_breach,
  is_protected, is_flagged_run, check,
}

-- Whether the gate raised.
abbrev pub is_exceeded : Checked → Bool
is_exceeded (passed d) = false
is_exceeded (exceeded reason) = true

module _ (f : Floats) where
  open f use {Float}

  -- The gate raises exactly for a role that is not protected while the global cap is reached, or
  -- the cap of the tier is reached and the role is no re-run that keeps its output.
  pub check-exceeded_iff :
      (policy : CostPolicy f) (spend : Dict Float) (tier : ModelTier) (role : String)
      → (is_exceeded (check f policy spend tier role) ≡ true) ↔ (
          (is_protected f policy role ≡ false)
          × ((global_breach f policy spend ≡ true)
              ⊎ ((tier_breach f policy spend tier ≡ true)
                  × (is_flagged_run f policy role ≡ false))))
  unfolding check
  check-exceeded_iff policy spend tier role = ground arith

  -- A call that passes is flagged as degraded exactly when its tier's cap is reached and its role
  -- is not protected; and a call that is flagged is a re-run that keeps its output.
  pub check-passed_degraded :
      (policy : CostPolicy f) (spend : Dict Float) (tier : ModelTier) (role : String)
      {d : BudgetDecision}
      → check f policy spend tier role ≡ passed d
      → ((d.degraded ≡ true)
          ↔ ((is_protected f policy role ≡ false) × (tier_breach f policy spend tier ≡ true)))
        × ((d.degraded ≡ false) ⊎ (is_flagged_run f policy role ≡ true))
  unfolding check
  check-passed_degraded policy spend tier role h = ground arith
