-- ===== src/AutogenPipeline/Orchestrator/Execute.antt =====
-- The last steps of `DecisionOrchestrator.execute` in orchestrator.py, and the cycle as a whole.
use lumine_hedge_fund.Prelude.{
  ◌*◌, ◌||◌, Option, none, some, List, [], ◌∷◌, ◌++◌, String, lookup, str_eq, if◌then◌else◌,
}
use Prim.Native.String.{◌++◌ as ◌++ₛ◌}
use lumine_hedge_fund.Decimal.{of_int}
use lumine_hedge_fund.Bridge.{BridgeCommand, Checked, accepted, refused, check_command}
use lumine_hedge_fund.TradeCore.Execution.{TcaDispatchContext, DispatchResult, Dispatched}
use lumine_hedge_fund.TradeCore.Execution
use lumine_hedge_fund.TradeCore.Risk.{assess_proposal}
use lumine_hedge_fund.TradeCore.Sizing.{calculate_size}
use lumine_hedge_fund.AutogenPipeline.Debate.{Floats}
use lumine_hedge_fund.AutogenPipeline.Orchestrator.{
  risk_reserve_ms, volatility_band, Deadline, PortfolioState, Settings, Proposal, approved, Reason,
  RiskContext, CycleResult, dispatched, command_invalid, dispatch_failed, cycle_start, before_risk,
  CycleContext, Environment,
}
use lumine_hedge_fund.AutogenPipeline.Orchestrator.Steps.{
  M, ◌>>=◌, ◌>>◌, return, raise, require_trace_evidence,
}
use lumine_hedge_fund.AutogenPipeline.Orchestrator.Cycle.{
  ensure, journal, run_stage, analysts_stage, is_debated, debate_stage, ic_stage, cio_stage,
}
use lumine_hedge_fund.AutogenPipeline.Orchestrator.Records.{
  write_lineage, finish_noop, sized, size_request, assessed_size, limits_of, risk_inputs,
  reasons_of, entry_of, result_of, finish_rejected,
}

module _ (f : Floats) (env : Environment f) where
  -- 10. The command, the context of its cost analysis, and the dispatch.
  unfoldable pub command_of : CycleContext f → Proposal → RiskContext → BridgeCommand
  command_of ctx proposal context = record {
    command_id = env.lineage_id ++ₛ ":1";
    order_id = some env.lineage_id;
    action = proposal.action;
    symbol = ctx.symbol;
    volume = env.to_float context.assessed.final_volume;
    order_type = "market";
    stop_loss = some (env.to_float context.size.stop_price);
    take_profit = none;
    idempotency_key = none;
    timestamp = env.timestamp;
  }

  unfoldable pub checked : Checked → M BridgeCommand
  checked (accepted command) = return command
  checked (refused e) = raise (command_invalid e)

  unfoldable pub tca_context : CycleContext f → Option TcaDispatchContext
  tca_context ctx = elim ctx.broker_id [
    | none ↦ none
    | some broker_id ↦ elim ctx.account_id [
      | none ↦ none
      | some account_id ↦ elim ctx.pip_value [
        | none ↦ none
        | some pip_value ↦ some (record {
          strategy_id = ctx.strategy_id;
          book = ctx.book;
          pip_value = pip_value;
          pip_size = ctx.pip_size;
          commission = of_int 0;
          decision_ts = some ctx.decision_ts;
          calendar = none;
        })
      ]
    ]
  ]

  unfoldable pub settled_dispatch : Dispatched → M DispatchResult
  settled_dispatch (Execution.ok result) = return result
  settled_dispatch (Execution.raised e) = raise (dispatch_failed e)

  unfoldable pub dispatch_once : CycleContext f → BridgeCommand → M DispatchResult
  dispatch_once ctx command w =
      let (router, answer) =
        Execution.dispatch w.router env.bridge env.lineage_id command 1 (tca_context ctx) in
      settled_dispatch answer
        (record w { effects = w.effects ++ dispatched command ∷ []; router = router })

  unfoldable pub finish_approved :
      CycleContext f → String → RiskContext → Proposal → List String → M CycleResult
  finish_approved ctx side context proposal trace_ids = do
    write_lineage f env (entry_of f env approved side context [] proposal trace_ids)
    command ← checked (check_command (command_of ctx proposal context))
    result ← dispatch_once ctx command
    journal f env "DISPATCHED" (some env.lineage_id)
    return (result_of f env approved proposal context [] (some result))

  -- 8 to 10, by whether there are reasons to reject.
  unfoldable pub decide :
      CycleContext f → String → RiskContext → List Reason → Proposal → List String → M CycleResult
  decide ctx side context [] proposal trace_ids =
      finish_approved ctx side context proposal trace_ids
  decide ctx side context (reason ∷ reasons) proposal trace_ids =
      finish_rejected f env side context (reason ∷ reasons) proposal trace_ids

  unfoldable pub first_some : {A : Type 0} → Option A → Option A → Option A
  first_some none b = b
  first_some (some a) b = some a

  -- 6 to 10, for a proposal that trades.
  unfoldable pub trade :
      Settings
      → CycleContext f
      → PortfolioState
      → Deadline
      → String
      → Proposal
      → List String
      → M CycleResult
  trade settings ctx portfolio dl side proposal trace_ids = do
    size ← sized f env (calculate_size (size_request f env settings ctx portfolio side))
    ensure f env dl before_risk risk_reserve_ms
    let band = volatility_band ctx.atr_14 ctx.entry_price
    (assessment, more) ←
        run_stage f env ctx "risk_assessor"
          (first_some (lookup "risk_officer" ctx.model_version_ids)
            (lookup "cio_proposer" ctx.model_version_ids))
          "risk_officer" (env.risk_assessor proposal portfolio band)
    require_trace_evidence (trace_ids ++ more) "risk_assessor"
    let assessed = assessed_size f env settings ctx assessment size band
    let verdict =
        assess_proposal (risk_inputs f env ctx portfolio assessed) (limits_of f env ctx portfolio)
    let context : RiskContext = record {
      assessment = verdict;
      assessed = assessed;
      band = band;
      size = size;
    }
    decide ctx side context (reasons_of f env verdict assessed) proposal (trace_ids ++ more)

  -- 5. The route of a proposal by its action.
  unfoldable pub route :
      Settings → CycleContext f → PortfolioState → Deadline → Proposal → List String → M CycleResult
  route settings ctx portfolio dl proposal trace_ids =
      if str_eq proposal.action "HOLD" || str_eq proposal.action "REJECT"
      then finish_noop f env proposal trace_ids
      else trade settings ctx portfolio dl (if str_eq proposal.action "BUY" then "BUY" else "SELL")
          proposal trace_ids

  unfoldable pub deadline : Settings → Deadline
  deadline settings = record {
    total_ms = settings.decision_cycle_timeout_s * 1000;
    started_ms = env.now_ms cycle_start;
  }

  unfoldable pub execute : Settings → CycleContext f → PortfolioState → M CycleResult
  execute settings ctx portfolio = do
    let dl = deadline settings
    (outputs, analyst_traces) ← analysts_stage f env ctx dl
    let debate_held = is_debated f env ctx outputs
    (summary, debate_traces) ← debate_stage f env ctx dl outputs analyst_traces debate_held
    (ic_output, ic_traces) ← ic_stage f env ctx dl outputs summary debate_traces
    (proposal, trace_ids) ← cio_stage f env ctx portfolio dl outputs debate_held ic_output ic_traces
    route settings ctx portfolio dl proposal trace_ids
