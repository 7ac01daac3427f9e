-- ===== src/LlmGateway/Budget/Tests.antt =====
-- The budget gate of budget.py with cents for floats.
use lumine_hedge_fund.Prelude.{
  ℕ, ◌+◌, ◌*◌, ◌/◌, ◌≡◌, ◌⊎◌, ◌↔◌, refl, true, false, none, [], ◌∷◌, leb, Dict, lookup,
}
use lumine_hedge_fund.LlmGateway.Tiers.{context_rich, tier_value}
use lumine_hedge_fund.LlmGateway.Budget.{
  Floats, CostPolicy, BudgetDecision, allow, rerun_keeps_tier, passed, tier_breach, global_breach,
  is_protected, is_flagged_run, check,
}
use lumine_hedge_fund.LlmGateway.Budget.Blocking.{is_exceeded, check-exceeded_iff}

abbrev cents : Floats
cents = record {
  Float = ℕ;
  zero = 0;
  soft_default = 80;
  plus = λ a b. a + b;
  times = λ a b. a * b / 100;
  ge = λ a b. leb b a;
}

abbrev policy : CostPolicy cents
policy = record {
  daily_cap_usd = ("global", 5000) ∷ ("context-rich", 1000) ∷ [];
  protected_roles = [];
  degrade_order = [];
  soft_warn_pct = none;
}

abbrev spend : Dict ℕ
spend = ("context-rich", 1000) ∷ []

abbrev rerun : BudgetDecision
rerun = record { action = allow; degraded = true; warn = true; reason = rerun_keeps_tier }

rerun_passes : check cents policy spend context_rich "analyst_rerun" ≡ passed rerun
unfolding check is_protected global_breach lookup tier_breach tier_value is_flagged_run
rerun_passes = refl

check-exceeded_iff_example :
    (is_exceeded (check cents policy spend context_rich "journal") ≡ true) ↔ (
      (is_protected cents policy "journal" ≡ false)
      × ((global_breach cents policy spend ≡ true)
          ⊎ ((tier_breach cents policy spend context_rich ≡ true)
              × (is_flagged_run cents policy "journal" ≡ false))))
check-exceeded_iff_example = check-exceeded_iff cents policy spend context_rich "journal"
