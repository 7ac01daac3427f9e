-- ===== src/AutogenPipeline/Orchestrator/Records.antt =====
-- `_write_lineage` and what the deterministic steps of `DecisionOrchestrator.execute` in orchestrator.py
-- compute and record.
use lumine_hedge_fund.Prelude.{
  true, false, Option, none, some, List, [], ◌∷◌, ◌++◌, map, String, if◌then◌else◌,
}
use lumine_hedge_fund.Decimal.{of_int, mul}
use lumine_hedge_fund.TradeCore.Execution.{DispatchResult}
use lumine_hedge_fund.TradeCore.Risk.{RiskLimits, RiskInputs, RiskAssessment}
use lumine_hedge_fund.TradeCore.Sizing.{SizeRequest, SizeResult, Sized, calculate_size}
use lumine_hedge_fund.TradeCore.Sizing
use lumine_hedge_fund.AutogenPipeline.RiskAssessor.{
  Assessment, AssessedSize, apply_assessment, get_or,
}
use lumine_hedge_fund.AutogenPipeline.Debate.{Floats}
use lumine_hedge_fund.AutogenPipeline.Orchestrator.{
  PortfolioState, Settings, Proposal, Verdict, rejected, noop, Reason, no_trade, risk_assessor_veto,
  violation, RiskContext, LineageEntry, CycleResult, lineage_written, lineage_failed, sizing_failed,
  CycleContext, Environment,
}
use lumine_hedge_fund.AutogenPipeline.Orchestrator.Steps.{
  M, ◌>>◌, return, raise, raise_if, commit, require_trace_evidence,
}
use lumine_hedge_fund.AutogenPipeline.Orchestrator.Cycle.{journal}

module _ (f : Floats) (env : Environment f) where
  -- `_write_lineage`: one transaction, whose effect is there only if it commits.
  unfoldable pub write_lineage : LineageEntry → M (Unit {0})
  write_lineage entry = do
    require_trace_evidence entry.trace_ids "lineage"
    raise_if (if env.flushes then false else true) (lineage_failed "flush")
    raise_if (if env.commits then false else true) (lineage_failed "commit")
    commit (lineage_written entry)

  unfoldable pub noop_entry : Proposal → List String → LineageEntry
  noop_entry proposal trace_ids = record {
    lineage_id = env.lineage_id;
    verdict = noop;
    side = "NONE";
    size = none;
    risk_context = none;
    reasons = no_trade ∷ [];
    proposal = proposal;
    trace_ids = trace_ids;
  }

  -- 5. Nothing to trade.
  unfoldable pub finish_noop : Proposal → List String → M CycleResult
  finish_noop proposal trace_ids = do
    write_lineage (noop_entry proposal trace_ids)
    journal f env "NOOP" (some env.lineage_id)
    return (record {
      lineage_id = env.lineage_id;
      verdict = noop;
      action = proposal.action;
      volume = of_int 0;
      reasons = no_trade ∷ [];
      dispatch = none;
    })

  -- 6. The base size.
  unfoldable pub sized : Sized SizeResult → M SizeResult
  sized (Sizing.ok size) = return size
  sized (Sizing.raised e) = raise (sizing_failed e)

  unfoldable pub size_request : Settings → CycleContext f → PortfolioState → String → SizeRequest
  size_request settings ctx portfolio side = record {
    entry_price = ctx.entry_price;
    atr_14 = ctx.atr_14;
    equity = portfolio.equity;
    risk_per_trade = settings.risk_per_trade;
    atr_multiplier = settings.default_stop_loss_atr_multiplier;
    pip_value = settings.pip_value_per_lot;
    side = side;
    pip_size = settings.pip_size;
    min_volume = settings.min_volume;
    max_volume = settings.broker_max_volume;
    risk_adjustment_multiplier = of_int 1;
  }

  -- 7. The size after the advice of the risk assessor.
  unfoldable pub assessed_size :
      Settings → CycleContext f → Assessment → SizeResult → String → AssessedSize
  assessed_size settings ctx assessment size band =
      apply_assessment assessment size.base_volume (get_or ctx.policy.risk_adjustments []) band
        settings.min_volume settings.broker_max_volume

  -- 8. The limits with the portfolio's kill switch, and the inputs of the risk validator.
  unfoldable pub limits_of : CycleContext f → PortfolioState → RiskLimits
  limits_of ctx portfolio = record ctx.risk_limits { kill_switch = portfolio.kill_switch }

  unfoldable pub risk_inputs : CycleContext f → PortfolioState → AssessedSize → RiskInputs
  risk_inputs ctx portfolio assessed = record {
    equity = portfolio.equity;
    proposed_notional = mul assessed.final_volume ctx.entry_price;
    total_notional = portfolio.total_notional;
    correlated_notional = portfolio.correlated_notional;
    daily_pnl = portfolio.daily_pnl;
    open_positions = portfolio.open_positions;
    strategy_notional = portfolio.strategy_notional;
    proposed_is_correlated = portfolio.proposed_is_correlated;
  }

  unfoldable pub reasons_of : RiskAssessment → AssessedSize → List Reason
  reasons_of assessment assessed =
      map violation assessment.violations ++ (if assessed.veto then risk_assessor_veto ∷ [] else [])

  unfoldable pub entry_of :
      Verdict → String → RiskContext → List Reason → Proposal → List String → LineageEntry
  entry_of verdict side context reasons proposal trace_ids = record {
    lineage_id = env.lineage_id;
    verdict = verdict;
    side = side;
    size = some context.assessed.final_volume;
    risk_context = some context;
    reasons = reasons;
    proposal = proposal;
    trace_ids = trace_ids;
  }

  unfoldable pub result_of :
      Verdict → Proposal → RiskContext → List Reason → Option DispatchResult → CycleResult
  result_of verdict proposal context reasons dispatch = record {
    lineage_id = env.lineage_id;
    verdict = verdict;
    action = proposal.action;
    volume = context.assessed.final_volume;
    reasons = reasons;
    dispatch = dispatch;
  }

  unfoldable pub finish_rejected :
      String → RiskContext → List Reason → Proposal → List String → M CycleResult
  finish_rejected side context reasons proposal trace_ids = do
    write_lineage (entry_of rejected side context reasons proposal trace_ids)
    journal f env "RISK_REJECTED" (some env.lineage_id)
    return (result_of rejected proposal context reasons none)
