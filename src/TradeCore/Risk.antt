-- ===== src/TradeCore/Risk.antt =====
-- backend/src/lumine/trade_core/risk_validator.py. A violation is the code of its message and the
-- number that the message shows; the formatting of the number is not modelled.
pub mod Verdict
mod Tests
use lumine_hedge_fund.Prelude.{
  ℕ, Bool, true, false, not, ◌&&◌, ◌||◌, Option, none, some, List, [], ◌∷◌, ◌++◌, leb,
  if◌then◌else◌, is_empty,
}
use lumine_hedge_fund.Decimal.{Decimal, of_int, of_digits, lt, le, add, neg, quot}

pub record RiskLimits : Type 0 where
  pub max_exposure_per_trade : Decimal
  pub max_total_exposure : Decimal
  pub max_correlated_exposure : Decimal
  pub max_daily_loss_pct : Decimal
  pub max_position_count : ℕ
  pub strategy_limit : Option Decimal
  pub kill_switch : Bool

-- The defaults of the dataclass.
abbrev pub default_limits : RiskLimits
default_limits = record {
  max_exposure_per_trade = of_digits 2 2;
  max_total_exposure = of_digits 5 2;
  max_correlated_exposure = of_digits 3 2;
  max_daily_loss_pct = of_digits 3 2;
  max_position_count = 10;
  strategy_limit = none;
  kill_switch = false;
}

pub record RiskInputs : Type 0 where
  pub equity : Decimal
  pub proposed_notional : Decimal
  pub total_notional : Decimal
  pub correlated_notional : Decimal
  pub daily_pnl : Decimal
  pub open_positions : ℕ
  pub strategy_notional : Decimal
  pub proposed_is_correlated : Bool

pub data Violation : Type 0 where
  non_positive_equity kill_switch_active : Violation
  per_trade_exposure_exceeded total_exposure_exceeded : Decimal → Violation
  correlated_exposure_exceeded daily_loss_halt : Decimal → Violation
  position_limit_exceeded : ℕ → Violation
  strategy_limit_exceeded : Decimal → Violation

pub record RiskAssessment : Type 0 where
  pub approved : Bool
  pub violations : List Violation
  pub per_trade_exposure : Decimal
  pub total_exposure : Decimal
  pub correlated_exposure : Decimal
  pub daily_loss_pct : Decimal

-- `_ratio`
unfoldable pub ratio : Decimal → Decimal → Decimal
ratio numerator equity = if le equity (of_int 0) then of_int 0 else quot numerator equity

-- `if test: violation.append(v)`
abbrev pub appended : Bool → Violation → List Violation
appended test v = if test then v ∷ [] else []

-- The exposures that the proposal would lead to.
abbrev pub total_after : RiskInputs → Decimal
total_after i = add i.total_notional i.proposed_notional

abbrev pub correlated_after : RiskInputs → Decimal
correlated_after i =
    if i.proposed_is_correlated
    then add i.correlated_notional i.proposed_notional
    else i.correlated_notional

abbrev pub strategy_after : RiskInputs → Decimal
strategy_after i = add i.strategy_notional i.proposed_notional

-- The last test, made only where a strategy limit is set.
unfoldable pub strategy_check : Option Decimal → RiskInputs → List Violation
strategy_check none i = []
strategy_check (some limit) i =
    let strategy = ratio (strategy_after i) i.equity in
    appended (lt limit strategy) (strategy_limit_exceeded strategy)

unfoldable pub collected : RiskInputs → RiskLimits → List Violation
unfolding strategy_check
collected i limits =
    let per_trade = ratio i.proposed_notional i.equity in
    let total = ratio (total_after i) i.equity in
    let correlated = ratio (correlated_after i) i.equity in
    let daily_loss = ratio i.daily_pnl i.equity in
    appended (le i.equity (of_int 0)) non_positive_equity
    ++ (appended limits.kill_switch kill_switch_active
        ++ (appended (lt limits.max_exposure_per_trade per_trade)
              (per_trade_exposure_exceeded per_trade)
            ++ (appended (lt limits.max_total_exposure total) (total_exposure_exceeded total)
                ++ (appended (lt limits.max_correlated_exposure correlated)
                      (correlated_exposure_exceeded correlated)
                    ++ (appended (le daily_loss (neg limits.max_daily_loss_pct))
                          (daily_loss_halt daily_loss)
                        ++ (appended (leb limits.max_position_count i.open_positions)
                              (position_limit_exceeded i.open_positions)
                            ++ strategy_check limits.strategy_limit i))))))

unfoldable pub assess_proposal : RiskInputs → RiskLimits → RiskAssessment
unfolding collected
assess_proposal i limits =
    let violations = collected i limits in
    record {
      approved = is_empty violations;
      violations = violations;
      per_trade_exposure = ratio i.proposed_notional i.equity;
      total_exposure = ratio (total_after i) i.equity;
      correlated_exposure = ratio (correlated_after i) i.equity;
      daily_loss_pct = ratio i.daily_pnl i.equity;
    }

unfoldable pub check_kill_switch : Bool → Bool
check_kill_switch active = active

-- `any(assessment.approved is False for …)`
unfoldable pub any_reject : List RiskAssessment → Bool
any_reject [] = false
any_reject (a ∷ rest) = not a.approved || any_reject rest
