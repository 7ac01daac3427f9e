-- ===== src/TradeCore/Risk/Verdict.antt =====
-- What a verdict of the risk validator means: risk_validator.py, `assess_proposal`, `any_reject`.
use lumine_hedge_fund.Prelude.{
  ◌<◌, ◌≡◌, refl, ◌↔◌, Bool, true, false, not, ◌||◌, Option, none, some, List, [], ◌∷◌, ◌++◌, arith,
  is_empty, map, All,
}
use lumine_hedge_fund.Decimal.{Decimal, of_int, lt, le, neg}
use lumine_hedge_fund.TradeCore.Risk.{
  RiskLimits, RiskInputs, Violation, ratio, appended, total_after, correlated_after, strategy_after,
  strategy_check, assess_proposal, any_reject,
}

-- The strategy's exposure respects the limit, if there is one.
abbrev pub RespectsStrategy : Option Decimal → RiskInputs → Type 0
RespectsStrategy none i = Unit
RespectsStrategy (some limit) i = lt limit (ratio (strategy_after i) i.equity) ≡ false

-- Every limit of the module's documentation is respected.
pub record IsWithin (i : RiskInputs) (limits : RiskLimits) : Type 0 where
  pub solvent : le i.equity (of_int 0) ≡ false
  pub live : limits.kill_switch ≡ false
  pub per_trade : lt limits.max_exposure_per_trade (ratio i.proposed_notional i.equity) ≡ false
  pub total : lt limits.max_total_exposure (ratio (total_after i) i.equity) ≡ false
  pub correlated : lt limits.max_correlated_exposure (ratio (correlated_after i) i.equity) ≡ false
  pub daily_loss : le (ratio i.daily_pnl i.equity) (neg limits.max_daily_loss_pct) ≡ false
  pub positions : i.open_positions < limits.max_position_count
  pub strategy : RespectsStrategy limits.strategy_limit i

appended-empty :
    (b : Bool) (v : Violation) (rest : List Violation)
    → (is_empty (appended b v ++ rest) ≡ true) ↔ ((b ≡ false) × (is_empty rest ≡ true))
appended-empty true v rest = ((λ e. cc), (λ h. cc))
appended-empty false v rest = ((λ e. (refl, e)), (λ h. h.1))

strategy_check-empty :
    (o : Option Decimal) (i : RiskInputs)
    → (is_empty (strategy_check o i) ≡ true) ↔ RespectsStrategy o i
unfolding strategy_check
strategy_check-empty none i = ((λ e. tt), (λ h. refl))
strategy_check-empty (some l) i = ground arith

-- `assess_proposal` approves a proposal exactly when the equity is positive, the kill switch is off,
-- the trade, book, correlated and (where set) strategy exposures are at most their limits, the
-- day's loss is short of the halt, and the number of open positions is below its cap.
pub assess_proposal-approved_iff :
    (i : RiskInputs) (limits : RiskLimits)
    → ((assess_proposal i limits).approved ≡ true) ↔ IsWithin i limits
unfolding assess_proposal
assess_proposal-approved_iff i limits = (
  λ h. ground (arith, (strategy_check-empty limits.strategy_limit i).0),
  λ w. ground (arith, (strategy_check-empty limits.strategy_limit i).1 w.strategy),
)

not-or-false : (a b : Bool) → ((not a || b) ≡ false) ↔ ((a ≡ true) × (b ≡ false))
not-or-false true b = ((λ h. (refl, h)), (λ h. h.1))
not-or-false false b = ((λ h. cc), (λ h. cc))

-- A batch of proposals contains no rejection exactly when every one of them is within its limits.
pub any_reject-false_iff :
    (limits : RiskLimits) (proposals : List RiskInputs)
    → (any_reject (map (λ i. assess_proposal i limits) proposals) ≡ false)
      ↔ All (λ i. IsWithin i limits) proposals
unfolding any_reject
any_reject-false_iff limits [] = ((λ h. tt), (λ w. refl))
any_reject-false_iff limits (i ∷ rest) =
    let split =
      not-or-false (assess_proposal i limits).approved
        (any_reject (map (λ j. assess_proposal j limits) rest)) in
    let here = assess_proposal-approved_iff i limits in
    let later = any_reject-false_iff limits rest in
    ((λ h. (here.0 (split.0 h).0, later.0 (split.0 h).1)), (λ w. split.1 (here.1 w.0, later.1 w.1)))
