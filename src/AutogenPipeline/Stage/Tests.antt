-- ===== src/AutogenPipeline/Stage/Tests.antt =====
-- A stage of _base.py whose first response is prose and whose second is an object.
use lumine_hedge_fund.Prelude.{
  ℕ, ◌≡◌, refl, true, false, none, some, [], ◌∷◌, String, length, lookup, insert, ◌==◌,
  if◌then◌else◌,
}
use lumine_hedge_fund.AutogenPipeline.Stage.{
  max_attempts, StageContext, StageResult, PromptBundle, GatewayResult, returned, raised,
  schema_invalid, object, Calls, Environment, tier_from_hint, find_brace, run_llm_stage, result_of,
}
use lumine_hedge_fund.AutogenPipeline.Stage.Attempts.{Tells, run_llm_stage-Tells}

abbrev context : StageContext
context = record {
  role = "technical_analyst";
  prompt_sub_role = "technical_analyst";
  prompt_version = "v1";
  model_version_id = "m";
  lineage_id = "l1";
  workflow_run_id = "w1";
  stage_run_id = "technical_analyst";
  variables = [];
  idempotency_key = "k";
  prompt_version_id = none;
  trace_lineage_id = none;
}

abbrev bundle : PromptBundle
bundle = record {
  model_tier_hint = "balanced";
  output_schema = "schema";
  prompt_ref = "r";
  prompt_hash = "h";
}

abbrev answer : String → GatewayResult
answer content = record { content = content; model_used = "m"; degraded = false; fallback_hops = 0 }

abbrev respond : ℕ → GatewayResult
respond n = if n == 0 then answer "I think" else answer "here: {}"

abbrev environment : Environment
environment = record {
  get_prompt = λ sub_role version. some bundle;
  render = λ b variables. some "prompt";
  complete = λ calls request. some (respond (length calls.requests));
  write_trace = λ calls row. some "t";
  unfenced = λ s. s;
  raw_decode = λ s start. object "{}";
  validation_problem = λ parsed schema. none;
  has_session = true;
}

abbrev result : StageResult
result = record {
  parsed = "{}";
  trace_ids = "t" ∷ "t" ∷ [];
  raw_response = "here: {}";
  model_used = "m";
  degraded = false;
  fallback_hops = 0;
}

abbrev none_yet : Calls
none_yet = record { requests = []; traces = [] }

brace : find_brace 0 "here: {}" ≡ some 6
unfolding find_brace
brace = refl

retried : (run_llm_stage environment context none_yet).0 ≡ returned result
unfolding run_llm_stage tier_from_hint lookup insert find_brace result_of
retried = refl

abbrev refusing : Environment
refusing = record environment { validation_problem = λ parsed schema. some "bad" }

refused : (run_llm_stage refusing context none_yet).0 ≡ raised (schema_invalid "bad")
unfolding run_llm_stage tier_from_hint lookup insert find_brace
refused = refl

run_llm_stage-Tells_example :
    Tells environment context bundle max_attempts 0 none_yet
      (run_llm_stage environment context none_yet)
run_llm_stage-Tells_example = run_llm_stage-Tells environment context bundle none_yet refl
