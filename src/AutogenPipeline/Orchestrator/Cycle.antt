-- ===== src/AutogenPipeline/Orchestrator/Cycle.antt =====
-- The stages of language models in `DecisionOrchestrator.execute` of orchestrator.py, in their order.
use lumine_hedge_fund.Prelude.{
  ℕ, Bool, true, false, Option, none, some, List, [], ◌∷◌, ◌++◌, String, lookup, str_eq,
  if◌then◌else◌,
}
use Prim.Native.String.{◌++◌ as ◌++ₛ◌}
use lumine_hedge_fund.AutogenPipeline.RiskAssessor.{get_or}
use lumine_hedge_fund.AutogenPipeline.Debate.{Floats, AnalystOutput, should_debate}
use lumine_hedge_fund.AutogenPipeline.Orchestrator.{
  analyst_reserve_ms, ic_reserve_ms, cio_reserve_ms, analyst_roles, Deadline, is_exceeded,
  PortfolioState, Proposal, stage_run, journaled, deadline_exceeded, bad_uuid, stage_failed,
  journal_failed, Answer, answered, failed, Moment, before_analysts, before_debate, before_ic,
  before_cio, CycleContext, Environment,
}
use lumine_hedge_fund.AutogenPipeline.Orchestrator.Steps.{
  Result, ok, raised, M, ◌>>=◌, ◌>>◌, return, raise, raise_if, commit, item, require_trace_evidence,
}

module _ (f : Floats) (env : Environment f) where
  -- `uuid.UUID(text)`
  unfoldable pub parse_uuid : String → M String
  parse_uuid s = if env.is_uuid s then return s else raise (bad_uuid s)

  -- `uuid.UUID(raw) if raw else None`
  unfoldable pub optional_uuid : Option String → M (Option String)
  optional_uuid none = return none
  optional_uuid (some s) =
      if str_eq s "" then return none else (parse_uuid s >>= λ u. return (some u))

  unfoldable pub ensure : Deadline → Moment → ℕ → M (Unit {0})
  ensure dl moment reserve_ms =
      raise_if (is_exceeded dl (env.now_ms moment) reserve_ms) (deadline_exceeded reserve_ms)

  -- `_journal`, where `log_step` raises if its commit fails.
  unfoldable pub journal : String → Option String → M (Unit {0})
  journal step_name lineage_id =
      if env.journals step_name
      then commit (journaled step_name lineage_id)
      else raise (journal_failed step_name)

  unfoldable pub settled : {A : Type 0} → Answer A → M (A × List String)
  settled (answered a trace_ids) = return (a, trace_ids)
  settled (failed message) = raise (stage_failed message)

  -- A stage under the model that is pinned for a role, and the prompt that is pinned for another.
  unfoldable pub run_stage :
      {A : Type 0}
      → CycleContext f
      → String
      → Option String
      → String
      → Answer A
      → M (A × List String)
  run_stage ctx stage model prompt_role answer = do
    pinned ← item prompt_role model
    model_version_id ← parse_uuid pinned
    prompt_version_id ← optional_uuid (lookup prompt_role ctx.prompt_version_ids)
    commit (
        stage_run (record {
          stage_run_id = stage;
          model_version_id = model_version_id;
          prompt_version_id = prompt_version_id;
          idempotency_key = env.lineage_id ++ₛ ":" ++ₛ stage;
        }))
    settled answer

  -- `_run_analyst`
  unfoldable pub run_analyst : CycleContext f → String → M (AnalystOutput f × List String)
  run_analyst ctx role = do
    pinned ← item role (lookup role ctx.model_version_ids)
    _ ← parse_uuid pinned
    variables ← item role (lookup role ctx.analyst_variables)
    run_stage ctx role (lookup role ctx.model_version_ids) role (env.analyst role variables)

  unfoldable pub combined : {A : Type 0} → Result A → Result (List A) → Result (List A)
  combined (ok a) (ok rest) = ok (a ∷ rest)
  combined (ok a) (raised e) = raised e
  combined (raised e) rest = raised e

  -- `asyncio.gather`: every analyst runs, whether or not another one fails.
  unfoldable pub gather : CycleContext f → List String → M (List (AnalystOutput f × List String))
  gather ctx [] w = (ok [], w)
  gather ctx (role ∷ roles) w =
      let (first, w') = run_analyst ctx role w in
      let (rest, w'') = gather ctx roles w' in (combined first rest, w'')

  -- The check of each analyst's traces, in the order of the roles.
  unfoldable pub require_each : List String → List (AnalystOutput f × List String) → M (Unit {0})
  require_each (role ∷ roles) ((output, trace_ids) ∷ results) =
      require_trace_evidence trace_ids role >> require_each roles results
  require_each _ _ = return tt

  unfoldable pub outputs_of : List (AnalystOutput f × List String) → List (AnalystOutput f)
  outputs_of [] = []
  outputs_of ((output, _) ∷ results) = output ∷ outputs_of results

  unfoldable pub traces_of : List (AnalystOutput f × List String) → List String
  traces_of [] = []
  traces_of ((_, trace_ids) ∷ results) = trace_ids ++ traces_of results

  -- 1. The analysts.
  unfoldable pub analysts_stage :
      CycleContext f → Deadline → M (List (AnalystOutput f) × List String)
  analysts_stage ctx dl = do
    ensure dl before_analysts analyst_reserve_ms
    results ← gather ctx analyst_roles
    require_each analyst_roles results
    require_trace_evidence (traces_of results) "analysts"
    journal "ANALYSTS_VALIDATED" none
    return (outputs_of results, traces_of results)

  unfoldable pub is_debated : CycleContext f → List (AnalystOutput f) → Bool
  is_debated ctx outputs =
      should_debate f outputs
        (get_or ctx.policy.ic_confidence_threshold (Floats.default_confidence f))
        (get_or ctx.policy.disagreement_threshold (Floats.default_disagreement f))

  -- 2. The debate, where it is held: its summary, and the traces so far.
  unfoldable pub debate_stage :
      CycleContext f
      → Deadline
      → List (AnalystOutput f)
      → List String
      → Bool
      → M (String × List String)
  debate_stage ctx dl outputs trace_ids false = do
    journal "DEBATE_SKIPPED" none
    return ("", trace_ids)
  debate_stage ctx dl outputs trace_ids true = do
    ensure dl before_debate ic_reserve_ms
    (summary, more) ←
        run_stage ctx "debate" (lookup "ic_forum" ctx.model_version_ids) "ic_forum"
          (env.moderator outputs)
    require_trace_evidence (trace_ids ++ more) "debate_moderator"
    journal "DEBATE_VALIDATED" none
    return (summary, trace_ids ++ more)

  -- 3. The IC forum.
  unfoldable pub ic_stage :
      CycleContext f
      → Deadline
      → List (AnalystOutput f)
      → String
      → List String
      → M (String × List String)
  ic_stage ctx dl outputs summary trace_ids = do
    ensure dl before_ic ic_reserve_ms
    (ic_output, more) ←
        run_stage ctx "ic_forum" (lookup "ic_forum" ctx.model_version_ids) "ic_forum"
          (env.ic_forum outputs summary)
    require_trace_evidence (trace_ids ++ more) "ic_forum"
    journal "IC_VALIDATED" none
    return (ic_output, trace_ids ++ more)

  -- The pins that replace those of the model's answer.
  unfoldable pub stamped : CycleContext f → List String → Proposal → Proposal
  stamped ctx trace_ids proposal = record proposal {
    model_version_ids = ctx.model_version_ids;
    prompt_version_ids = ctx.prompt_version_ids;
    policy_version_id = ctx.policy_version_id;
    reasoning_trace_ids = trace_ids;
  }

  -- 4. The CIO proposer.
  unfoldable pub cio_stage :
      CycleContext f
      → PortfolioState
      → Deadline
      → List (AnalystOutput f)
      → Bool
      → String
      → List String
      → M (Proposal × List String)
  cio_stage ctx portfolio dl outputs debate_held ic_output trace_ids = do
    ensure dl before_cio cio_reserve_ms
    (proposal, more) ←
        run_stage ctx "cio_proposer" (lookup "cio_proposer" ctx.model_version_ids) "cio_proposer"
          (env.cio_proposer ic_output outputs debate_held portfolio)
    journal "PROPOSAL_VALIDATED" none
    return (stamped ctx (trace_ids ++ more) proposal, trace_ids ++ more)
