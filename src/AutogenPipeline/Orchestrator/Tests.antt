-- ===== src/AutogenPipeline/Orchestrator/Tests.antt =====
-- Cycles of orchestrator.py with answers that a test can follow; floats are hundredths.
use lumine_hedge_fund.Prelude.{
  ℕ, ◌+◌, ◌-◌, ◌*◌, ◌/◌, ◌≡◌, refl, true, false, none, some, List, [], ◌∷◌, String, ltb, lookup,
  insert, ◌*ℤ◌, ◌-ℤ◌, ◌+ℤ◌,
}
use lumine_hedge_fund.Decimal.{of_int, of_digits, le, lt, sub, mul, quot, quantize_down, add, neg}
use lumine_hedge_fund.Bridge.{BridgeStatus, BridgeResult, check_command, status_value}
use lumine_hedge_fund.TradeCore.Execution
use lumine_hedge_fund.TradeCore.Risk.{assess_proposal, ratio}
use lumine_hedge_fund.TradeCore.Sizing.{
  calculate_size, base_volume, normalized_stop_price, clamp_volume,
}
use lumine_hedge_fund.AutogenPipeline.RiskAssessor.{AssessedSize, apply_assessment, get_or}
use lumine_hedge_fund.AutogenPipeline.Debate.{Floats, AnalystOutput, should_debate}
use lumine_hedge_fund.AutogenPipeline.Orchestrator.{
  PortfolioState, Settings, Proposal, approved, noop, no_trade, CycleResult, World, answered,
  failed, Moment, CycleContext, Environment, is_exceeded, volatility_band, before_risk,
  risk_reserve_ms,
}
use lumine_hedge_fund.AutogenPipeline.Orchestrator.Steps.{
  ok, ◌>>=◌, ◌>>◌, return, raise, raise_if, commit, item, require_trace_evidence,
}
use lumine_hedge_fund.AutogenPipeline.Orchestrator.Cycle.{
  parse_uuid, optional_uuid, ensure, journal, settled, run_stage, run_analyst, combined, gather,
  require_each, outputs_of, traces_of, analysts_stage, is_debated, debate_stage, ic_stage, stamped,
  cio_stage,
}
use lumine_hedge_fund.AutogenPipeline.Orchestrator.Records.{
  write_lineage, sized, size_request, assessed_size, limits_of, risk_inputs, reasons_of, entry_of,
  result_of, finish_noop, noop_entry,
}
use lumine_hedge_fund.AutogenPipeline.Orchestrator.Execute.{
  execute, deadline, command_of, checked, tca_context, settled_dispatch, dispatch_once,
  finish_approved, decide, first_some, trade, route,
}
use lumine_hedge_fund.AutogenPipeline.Orchestrator.Outcome.{Outcome}
use lumine_hedge_fund.AutogenPipeline.Orchestrator.Trades.{execute-Outcome}
use lumine_hedge_fund.AutogenPipeline.Orchestrator.Approval.{IsProposed, IsApproved, execute-Passed}

abbrev hundredths : Floats
hundredths = record {
  Float = ℕ;
  of_nat = λ n. 100 * n;
  weight_direction = 70;
  weight_spread = 30;
  default_confidence = 60;
  default_disagreement = 40;
  plus = λ a b. a + b;
  minus = λ a b. a - b;
  times = λ a b. a * b / 100;
  over = λ a b. a * 100 / b;
  less = ltb;
}

abbrev bullish : ℕ → AnalystOutput hundredths
bullish c = record { bias = "bullish"; confidence = c }

abbrev bearish : ℕ → AnalystOutput hundredths
bearish c = record { bias = "bearish"; confidence = c }

agreed : should_debate hundredths (bullish 80 ∷ bullish 70 ∷ []) 60 40 ≡ false
unfolding should_debate
agreed = refl

split :
    should_debate hundredths (bullish 90 ∷ bearish 70 ∷ bearish 90 ∷ bullish 80 ∷ []) 60 35 ≡ true
unfolding should_debate
split = refl

abbrev roles : List String
roles = "technical_analyst" ∷ "macro_analyst" ∷ "news_analyst" ∷ "smc_analyst" ∷ []

abbrev context : CycleContext hundredths
context = record {
  symbol = "XAUUSD";
  book = "b1";
  workflow_id = "w1";
  decision_ts = 90;
  entry_price = of_int 2400;
  atr_14 = of_int 5;
  strategy_id = "s1";
  policy_version_id = "p1";
  model_version_ids =
      ("technical_analyst", "m")
      ∷ ("macro_analyst", "m")
      ∷ ("news_analyst", "m")
      ∷ ("smc_analyst", "m")
      ∷ ("ic_forum", "m")
      ∷ ("cio_proposer", "m")
      ∷ [];
  prompt_version_ids = [];
  analyst_variables =
      ("technical_analyst", "v")
      ∷ ("macro_analyst", "v")
      ∷ ("news_analyst", "v")
      ∷ ("smc_analyst", "v")
      ∷ [];
  policy = record {
    ic_confidence_threshold = none;
    disagreement_threshold = none;
    risk_adjustments = none;
  };
  risk_limits = record {
    max_exposure_per_trade = of_digits 5 1;
    max_total_exposure = of_digits 5 1;
    max_correlated_exposure = of_digits 5 1;
    max_daily_loss_pct = of_digits 3 2;
    max_position_count = 10;
    strategy_limit = none;
    kill_switch = false;
  };
  broker_id = none;
  account_id = none;
  pip_value = none;
  pip_size = none;
}

abbrev portfolio : PortfolioState
portfolio = record {
  equity = of_int 10000;
  total_notional = of_int 0;
  correlated_notional = of_int 0;
  daily_pnl = of_int 0;
  open_positions = 0;
  strategy_notional = of_int 0;
  proposed_is_correlated = true;
  kill_switch = false;
}

abbrev settings : Settings
settings = record {
  decision_cycle_timeout_s = 60;
  risk_per_trade = of_digits 1 2;
  default_stop_loss_atr_multiplier = of_digits 15 1;
  pip_value_per_lot = of_int 7;
  pip_size = of_digits 1 1;
  min_volume = of_digits 1 2;
  broker_max_volume = of_int 1;
}

abbrev proposing : String → Proposal
proposing action = record {
  action = action;
  content = "";
  model_version_ids = [];
  prompt_version_ids = [];
  policy_version_id = "";
  reasoning_trace_ids = [];
}

abbrev filled : BridgeResult
filled = record {
  command_id = "l1:1";
  order_id = some "l1";
  ticket = some 7;
  status = BridgeStatus.filled;
  fill_price = some (of_int 2402);
  fill_volume = some (of_digits 19 2);
  error_code = none;
  error_message = none;
  timestamp = 101;
}

abbrev answering : String → ℕ → Environment hundredths
answering action now = record {
  lineage_id = "l1";
  now_ms = λ (m : Moment). now;
  is_uuid = λ s. true;
  analyst = λ role v. answered (bullish 80) ("t" ∷ []);
  moderator = λ outputs. failed "not called";
  ic_forum = λ outputs summary. answered "ic" ("t" ∷ []);
  cio_proposer = λ ic outputs held p. answered (proposing action) ("t" ∷ []);
  risk_assessor = λ proposal p band.
      answered (record { veto = none; regime_bucket = none; risk_notes = none }) ("t" ∷ []);
  journals = λ step. true;
  flushes = true;
  commits = true;
  to_float = λ d. d;
  timestamp = 100;
  bridge = record { now = 100; reply = Execution.replied filled; commits = true; releases = true };
}

abbrev world : World
world = record {
  effects = [];
  router = record {
    processed = [];
    claims = [];
    sent = [];
    fills = [];
    tca_records = [];
    ticks = [];
    next_fill_id = 1;
  };
}

abbrev bought : CycleResult
bought = record {
  lineage_id = "l1";
  verdict = approved;
  action = "BUY";
  volume = of_digits 19 2;
  reasons = [];
  dispatch = some (record {
    status = "filled";
    ticket = some 7;
    fill_price = some (of_int 2402);
    replayed = false;
  });
}

buys : (execute hundredths (answering "BUY" 0) settings context portfolio world).0 ≡ ok bought
unfolding execute ◌>>=◌ ◌>>◌ return raise raise_if commit item require_trace_evidence parse_uuid
    optional_uuid ensure journal settled run_stage run_analyst combined gather require_each
    outputs_of traces_of analysts_stage is_debated debate_stage ic_stage stamped cio_stage
    write_lineage sized size_request assessed_size limits_of risk_inputs reasons_of entry_of
    result_of command_of checked tca_context settled_dispatch dispatch_once finish_approved decide
    first_some trade route deadline is_exceeded lookup insert should_debate volatility_band lt quot
    le mul sub add neg ◌*ℤ◌ ◌-ℤ◌ ◌+ℤ◌ calculate_size base_volume normalized_stop_price clamp_volume
    quantize_down apply_assessment get_or assess_proposal ratio check_command Execution.dispatch
    Execution.send Execution.persist Execution.staged Execution.claim Execution.released
    Execution.is_claimed Execution.order_key Execution.is_claim_of status_value
buys = refl

execute-Outcome_example :
    Outcome hundredths
      (answering "BUY" 0)
      context
      world
      (execute hundredths (answering "BUY" 0) settings context portfolio world)
execute-Outcome_example =
    execute-Outcome hundredths (answering "BUY" 0) context settings portfolio world

range : le settings.min_volume settings.broker_max_volume ≡ true
unfolding le ◌*ℤ◌
range = refl

execute-Passed_example :
    (proposal : Proposal) × IsProposed hundredths
      (answering "BUY" 0)
      settings
      context
      portfolio
      proposal
    × (assessed : AssessedSize) × IsApproved hundredths
        (answering "BUY" 0)
        settings
        context
        portfolio
        bought
        proposal
        assessed
execute-Passed_example =
    execute-Passed hundredths (answering "BUY" 0) settings context portfolio world range buys refl

-- The clock jumps before the risk assessor.
abbrev late_at : Moment → ℕ
late_at before_risk = 70000
late_at _ = 0

abbrev late : Environment hundredths
late = record (answering "HOLD" 0) { now_ms = late_at }

abbrev held : CycleResult
held = record {
  lineage_id = "l1";
  verdict = noop;
  action = "HOLD";
  volume = of_int 0;
  reasons = no_trade ∷ [];
  dispatch = none;
}

holds : (execute hundredths late settings context portfolio world).0 ≡ ok held
unfolding execute ◌>>=◌ ◌>>◌ return raise raise_if commit item require_trace_evidence parse_uuid
    optional_uuid ensure journal settled run_stage run_analyst combined gather require_each
    outputs_of traces_of analysts_stage is_debated debate_stage ic_stage stamped cio_stage
    write_lineage sized size_request assessed_size limits_of risk_inputs reasons_of entry_of
    result_of command_of checked tca_context settled_dispatch dispatch_once finish_noop noop_entry
    decide first_some trade route deadline is_exceeded lookup insert should_debate volatility_band
    lt quot le mul sub add neg ◌*ℤ◌ ◌-ℤ◌ ◌+ℤ◌ calculate_size base_volume normalized_stop_price
    clamp_volume quantize_down apply_assessment get_or assess_proposal ratio check_command
    Execution.dispatch Execution.send Execution.persist Execution.staged Execution.claim
    Execution.released Execution.is_claimed Execution.order_key Execution.is_claim_of status_value
holds = refl

is_late :
    is_exceeded (deadline hundredths late settings) (late.now_ms before_risk) risk_reserve_ms ≡ true
unfolding is_exceeded deadline
is_late = refl
