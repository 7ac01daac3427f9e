-- ===== src/AutogenPipeline/Orchestrator/Approval.antt =====
-- What an approved cycle of orchestrator.py has passed: the limits of risk_validator.py, and the range
-- of sizes.
use lumine_hedge_fund.Prelude.{
  ◌≡◌, refl, ap, inl, inr, Bool, true, false, ◌||◌, List, [], ◌∷◌, ◌++◌, map, String, Bool-cases,
  if◌then◌else◌, is_empty, str_eq,
}
use lumine_hedge_fund.Decimal.{le}
use lumine_hedge_fund.TradeCore.Sizing.{SizeResult, Sized, calculate_size}
use lumine_hedge_fund.TradeCore.Sizing
use lumine_hedge_fund.TradeCore.Risk.{Violation, assess_proposal}
use lumine_hedge_fund.TradeCore.Risk.Verdict.{IsWithin, assess_proposal-approved_iff}
use lumine_hedge_fund.AutogenPipeline.RiskAssessor.{AssessedSize, Assessment, get_or}
use lumine_hedge_fund.AutogenPipeline.RiskAssessor.Multipliers.{apply_assessment_bounds}
use lumine_hedge_fund.AutogenPipeline.Debate.{Floats, AnalystOutput}
use lumine_hedge_fund.AutogenPipeline.Orchestrator.{
  Deadline, PortfolioState, Settings, Proposal, approved, violation, risk_assessor_veto,
  volatility_band, CycleResult, World, CycleContext, Environment, answered,
}
use lumine_hedge_fund.AutogenPipeline.Orchestrator.Steps.{ok}
use lumine_hedge_fund.AutogenPipeline.Orchestrator.Cycle.{stamped, cio_stage}
use lumine_hedge_fund.AutogenPipeline.Orchestrator.Records.{
  size_request, limits_of, risk_inputs, reasons_of, assessed_size,
}
use lumine_hedge_fund.AutogenPipeline.Orchestrator.Execute.{trade, route, execute}
use lumine_hedge_fund.AutogenPipeline.Orchestrator.Returns.{
  bind-ok, bind-both, then-ok, return-ok, run_stage-ok, sized-ok, noop-verdict, decide-approved,
}

module _ (f : Floats) (env : Environment f) (settings : Settings) (ctx : CycleContext f)
    (portfolio : PortfolioState) where
  -- The CIO proposer's answer, under the pins of the cycle.
  pub record IsProposed (proposal : Proposal) : Type 0 where
    pub ic_output : String
    pub outputs : List (AnalystOutput f)
    pub debate_held : Bool
    pub answer : Proposal
    pub cio_traces : List String
    pub trace_ids : List String
    pub answers :
        env.cio_proposer ic_output outputs debate_held portfolio ≡ answered answer cio_traces
    pub is_stamped : proposal ≡ stamped f env ctx trace_ids answer

  -- The size that the risk assessor's answer on a proposal makes of the calculated one.
  pub record IsAssessed (proposal : Proposal) (assessed : AssessedSize) : Type 0 where
    pub size : SizeResult
    pub assessment : Assessment
    pub risk_traces : List String
    pub sizes :
        calculate_size (
          size_request f env settings ctx portfolio
            (if str_eq proposal.action "BUY" then "BUY" else "SELL"))
        ≡ Sizing.ok size
    pub answers :
        env.risk_assessor proposal portfolio (volatility_band ctx.atr_14 ctx.entry_price)
        ≡ answered assessment risk_traces
    pub is_size :
        assessed
        ≡ assessed_size f env settings ctx assessment size
            (volatility_band ctx.atr_14 ctx.entry_price)

  -- A size that passed the limits without a veto, and that stands in the result.
  pub record Passed (r : CycleResult) (assessed : AssessedSize) : Type 0 where
    pub volume : r.volume ≡ assessed.final_volume
    pub within : IsWithin (risk_inputs f env ctx portfolio assessed) (limits_of f env ctx portfolio)
    pub unvetoed : assessed.veto ≡ false
    pub above : le settings.min_volume r.volume ≡ true
    pub below : le r.volume settings.broker_max_volume ≡ true

  no_reasons :
      (violations : List Violation) (veto : Bool)
      → map violation violations ++ (if veto then risk_assessor_veto ∷ [] else []) ≡ []
      → (violations ≡ []) × (veto ≡ false)
  no_reasons [] false h = (refl, refl)
  no_reasons [] true h = absurd cc
  no_reasons (v ∷ violations) veto h = absurd cc

  approved_of_empty :
      (s : AssessedSize)
      → let a =
          assess_proposal (risk_inputs f env ctx portfolio s) (limits_of f env ctx portfolio) in
        a.violations ≡ [] → a.approved ≡ true
  unfolding assess_proposal
  approved_of_empty s h = ap is_empty h

  passed :
      (a : Assessment) (size : SizeResult) (band : String) (r : CycleResult)
      → le settings.min_volume settings.broker_max_volume ≡ true
      → let s = assessed_size f env settings ctx a size band in
        reasons_of f env
            (assess_proposal (risk_inputs f env ctx portfolio s) (limits_of f env ctx portfolio))
            s
          ≡ []
        → r.volume ≡ s.final_volume
        → Passed r s
  unfolding assessed_size reasons_of
  passed a size band r range empty volume =
      let s = assessed_size f env settings ctx a size band in
      let inputs = risk_inputs f env ctx portfolio s in
      let limits = limits_of f env ctx portfolio in
      let (clean, unvetoed) = no_reasons (assess_proposal inputs limits).violations s.veto empty in
      let (_, _, low, high) =
        apply_assessment_bounds a size.base_volume (get_or ctx.policy.risk_adjustments []) band
          settings.min_volume settings.broker_max_volume range in
      record {
        volume = volume;
        within = (assess_proposal-approved_iff inputs limits).0 (approved_of_empty s clean);
        unvetoed = unvetoed;
        above = rw volume low;
        below = rw volume high;
      }

  -- What stands behind an approved result.
  abbrev pub IsApproved : CycleResult → Proposal → AssessedSize → Type 0
  IsApproved r proposal assessed =
      (r.action ≡ proposal.action) × IsAssessed proposal assessed × Passed r assessed

  trade-Passed :
      (dl : Deadline) (proposal : Proposal) (ids : List String) (w : World) {r : CycleResult}
      → le settings.min_volume settings.broker_max_volume ≡ true
      → (trade f env settings ctx portfolio dl
          (if str_eq proposal.action "BUY" then "BUY" else "SELL")
          proposal
          ids
          w).0
        ≡ ok r
      → r.verdict ≡ approved
      → (assessed : AssessedSize) × IsApproved r proposal assessed
  unfolding trade
  trade-Passed dl proposal ids w {r} range h v =
      let (size, sizes, h1) = bind-both _ _ w h in
      let (w2, h2) = then-ok _ _ _ h1 in
      let ((assessment, more), advises, h3) = bind-both _ _ w2 h2 in
      let (w4, h4) = then-ok _ _ _ h3 in
      let (empty, volume, action) = decide-approved f env ctx _ _ _ proposal _ w4 h4 v in
      let behind : IsAssessed proposal (
          assessed_size f env settings ctx assessment size
            (volatility_band ctx.atr_14 ctx.entry_price)) =
        record {
          size = size;
          assessment = assessment;
          risk_traces = more;
          sizes = sized-ok f env ctx _ w sizes;
          answers = run_stage-ok f env ctx _ _ _ _ w2 advises;
          is_size = refl;
        } in
      (
        assessed_size f env settings ctx assessment size
            (volatility_band ctx.atr_14 ctx.entry_price),
        (action, behind, passed assessment size _ r range empty volume),
      )

  route-Passed :
      (dl : Deadline) (proposal : Proposal) (ids : List String) (w : World) {r : CycleResult}
      → le settings.min_volume settings.broker_max_volume ≡ true
      → (route f env settings ctx portfolio dl proposal ids w).0 ≡ ok r
      → r.verdict ≡ approved
      → (assessed : AssessedSize) × IsApproved r proposal assessed
  unfolding route
  route-Passed dl proposal ids w range h v =
      elim (Bool-cases (str_eq proposal.action "HOLD" || str_eq proposal.action "REJECT")) [
        | inl e ↦ absurd (cc (noop-verdict f env ctx proposal ids w (rw e at h)))
        | inr e ↦ trade-Passed dl proposal ids w range (rw e at h) v
      ]

  cio_stage-IsProposed :
      (dl : Deadline) (outputs : List (AnalystOutput f)) (held : Bool) (ic_output : String)
      (traces : List String) (w : World) {proposal : Proposal} {ids : List String}
      → (cio_stage f env ctx portfolio dl outputs held ic_output traces w).0 ≡ ok (proposal, ids)
      → IsProposed proposal
  unfolding cio_stage
  cio_stage-IsProposed dl outputs held ic_output traces w {proposal} h =
      let (w1, h1) = then-ok _ _ w h in
      let ((answer, more), answers, h2) = bind-both _ _ w1 h1 in
      let (w3, h3) = then-ok _ _ _ h2 in
      let same = return-ok _ w3 h3 in
      record {
        ic_output = ic_output;
        outputs = outputs;
        debate_held = held;
        answer = answer;
        cio_traces = more;
        trace_ids = traces ++ more;
        answers = run_stage-ok f env ctx _ _ _ _ w1 answers;
        is_stamped = ap (λ (x : Proposal × List String). x.0) same;
      }

  -- Where the range of sizes is not empty, and a cycle returns an approved decision: its action is that
  -- of a proposal which the CIO proposer answered, under the cycle's pins, and its volume is the size
  -- that the risk assessor's answer on that proposal makes of the calculated size. That answer has no
  -- veto, the size keeps the trade within every limit of the risk validator under the portfolio's kill
  -- switch, and it lies in the range.
  pub execute-Passed :
      (w : World) {r : CycleResult}
      → le settings.min_volume settings.broker_max_volume ≡ true
      → (execute f env settings ctx portfolio w).0 ≡ ok r
      → r.verdict ≡ approved
      → (proposal : Proposal) × IsProposed proposal
        × (assessed : AssessedSize) × IsApproved r proposal assessed
  unfolding execute
  execute-Passed w range h v =
      let (a, w1, h1) = bind-ok _ _ w h in
      let (b, w2, h2) = bind-ok _ _ w1 h1 in
      let (c, w3, h3) = bind-ok _ _ w2 h2 in
      let ((proposal, ids), proposes, h4) = bind-both _ _ w3 h3 in
      let (assessed, behind) = route-Passed _ proposal ids _ range h4 v in
      (proposal, cio_stage-IsProposed _ _ _ _ _ w3 proposes, assessed, behind)
