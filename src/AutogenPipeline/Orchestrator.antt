-- ===== src/AutogenPipeline/Orchestrator.antt =====
-- backend/src/lumine/autogen_pipeline/orchestrator.py. The world of a cycle is the list of what it has
-- committed, in order, beside the world of the execution router. The environment answers the cycle's
-- calls: the stages of language models, each with the identifiers of the traces that it wrote, the
-- clock, the commits, and the bridge. The four analysts run to their ends one after the other, and of
-- several failures the first in their list is raised. Texts of numbers and snapshots are not formed.
pub mod Steps
pub mod Cycle
pub mod Records
pub mod Execute
pub mod Effects
pub mod Outcome
pub mod Trades
pub mod Returns
pub mod Approval
pub mod Deadlines
mod Tests
use lumine_hedge_fund.Prelude.{
  ℕ, ◌+◌, ◌-◌, ◌≤◌, Bool, true, false, Option, none, some, List, [], ◌∷◌, ◌++◌, String, Dict,
  lookup, leb, str_eq, if◌then◌else◌,
}
use lumine_hedge_fund.Decimal.{Decimal, of_int, of_digits, lt, quot}
use lumine_hedge_fund.Bridge.{BridgeCommand, CommandError}
use lumine_hedge_fund.TradeCore.Execution.{TcaDispatchContext, DispatchResult, DispatchError}
use lumine_hedge_fund.TradeCore.Execution
use lumine_hedge_fund.TradeCore.Risk.{RiskLimits, RiskAssessment, Violation}
use lumine_hedge_fund.TradeCore.Sizing.{SizeResult, SizingError}
use lumine_hedge_fund.AutogenPipeline.RiskAssessor.{Assessment, AssessedSize, Adjustments}
use lumine_hedge_fund.AutogenPipeline.Debate.{Floats, AnalystOutput}

abbrev pub analyst_reserve_ms : ℕ
analyst_reserve_ms = 500

abbrev pub ic_reserve_ms : ℕ
ic_reserve_ms = 800

abbrev pub cio_reserve_ms : ℕ
cio_reserve_ms = 1000

abbrev pub risk_reserve_ms : ℕ
risk_reserve_ms = 500

abbrev pub analyst_roles : List String
analyst_roles = "technical_analyst" ∷ "macro_analyst" ∷ "news_analyst" ∷ "smc_analyst" ∷ []

unfoldable pub volatility_band : Decimal → Decimal → String
volatility_band atr_14 price =
    let pct = if lt (of_int 0) price then quot atr_14 price else of_int 0 in
    if lt pct (of_digits 5 3) then "low" else if lt pct (of_digits 1 2) then "med" else "high"

-- `_Deadline`
pub record Deadline : Type 0 where
  pub total_ms : ℕ
  pub started_ms : ℕ

-- `remaining() <= reserve_ms`, with the terms moved so that none is negative.
unfoldable pub is_exceeded : Deadline → ℕ → ℕ → Bool
is_exceeded dl now_ms reserve_ms = leb (dl.total_ms + dl.started_ms) (now_ms + reserve_ms)

pub record PortfolioState : Type 0 where
  pub equity : Decimal
  pub total_notional : Decimal
  pub correlated_notional : Decimal
  pub daily_pnl : Decimal
  pub open_positions : ℕ
  pub strategy_notional : Decimal
  pub proposed_is_correlated : Bool
  pub kill_switch : Bool

-- The parts of `Settings` that a cycle reads, the floats as the decimals that their texts make.
pub record Settings : Type 0 where
  pub decision_cycle_timeout_s : ℕ
  pub risk_per_trade : Decimal
  pub default_stop_loss_atr_multiplier : Decimal
  pub pip_value_per_lot : Decimal
  pub pip_size : Decimal
  pub min_volume : Decimal
  pub broker_max_volume : Decimal

-- What `run_cio_proposer` returns, and what the cycle stamps on it.
pub record Proposal : Type 0 where
  pub action : String
  pub content : String
  pub model_version_ids : Dict String
  pub prompt_version_ids : Dict String
  pub policy_version_id : String
  pub reasoning_trace_ids : List String

pub data Verdict : Type 0 where
  approved rejected noop : Verdict

pub data Reason : Type 0 where
  no_trade risk_assessor_veto : Reason
  violation : Violation → Reason

-- `risk_context`, by the values that its texts show.
pub record RiskContext : Type 0 where
  pub assessment : RiskAssessment
  pub assessed : AssessedSize
  pub band : String
  pub size : SizeResult

-- What `_write_lineage` records of a decision.
pub record LineageEntry : Type 0 where
  pub lineage_id : String
  pub verdict : Verdict
  pub side : String
  pub size : Option Decimal
  pub risk_context : Option RiskContext
  pub reasons : List Reason
  pub proposal : Proposal
  pub trace_ids : List String

pub record CycleResult : Type 0 where
  pub lineage_id : String
  pub verdict : Verdict
  pub action : String
  pub volume : Decimal
  pub reasons : List Reason
  pub dispatch : Option DispatchResult

-- The arguments of a stage by which its calls are told apart.
pub record StageCall : Type 0 where
  pub stage_run_id : String
  pub model_version_id : String
  pub prompt_version_id : Option String
  pub idempotency_key : String

-- What a cycle commits, or hands to the router.
pub data Effect : Type 0 where
  stage_run : StageCall → Effect
  journaled : String → Option String → Effect
  lineage_written : LineageEntry → Effect
  dispatched : BridgeCommand → Effect

pub data CycleError : Type 0 where
  deadline_exceeded : ℕ → CycleError
  missing_key bad_uuid stage_failed missing_evidence lineage_failed journal_failed :
      String → CycleError
  sizing_failed : SizingError → CycleError
  command_invalid : CommandError → CycleError
  dispatch_failed : DispatchError → CycleError

pub record World : Type 0 where
  pub effects : List Effect
  pub router : Execution.World

-- How a stage ends: with its output and the traces that it wrote, or with an exception.
pub data Answer (A : Type 0) : Type 0 where
  answered : A → List String → Answer A
  failed : String → Answer A

pub data Moment : Type 0 where
  cycle_start before_analysts before_debate before_ic before_cio before_risk : Moment

module _ (f : Floats) where
  open f use {Float}

  pub record Policy : Type 0 where
    pub ic_confidence_threshold : Option Float
    pub disagreement_threshold : Option Float
    pub risk_adjustments : Option Adjustments

  pub record CycleContext : Type 0 where
    pub symbol : String
    pub book : String
    pub workflow_id : String
    pub decision_ts : ℕ
    pub entry_price : Decimal
    pub atr_14 : Decimal
    pub strategy_id : String
    pub policy_version_id : String
    pub model_version_ids : Dict String
    pub prompt_version_ids : Dict String
    pub analyst_variables : Dict String
    pub policy : Policy
    pub risk_limits : RiskLimits
    pub broker_id : Option String
    pub account_id : Option String
    pub pip_value : Option Decimal
    pub pip_size : Option Decimal

  pub record Environment : Type 0 where
    pub lineage_id : String
    pub now_ms : Moment → ℕ
    pub is_uuid : String → Bool
    pub analyst : String → String → Answer (AnalystOutput f)
    pub moderator : List (AnalystOutput f) → Answer String
    pub ic_forum : List (AnalystOutput f) → String → Answer String
    pub cio_proposer : String → List (AnalystOutput f) → Bool → PortfolioState → Answer Proposal
    pub risk_assessor : Proposal → PortfolioState → String → Answer Assessment
    pub journals : String → Bool
    pub flushes : Bool
    pub commits : Bool
    pub to_float : Decimal → Decimal
    pub timestamp : ℕ
    pub bridge : Execution.Environment
