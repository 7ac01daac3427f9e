-- ===== src/AutogenPipeline/Stage.antt =====
-- backend/src/lumine/autogen_pipeline/_base.py: one stage of a language model, with its retry. The
-- environment answers the stage's calls: the prompt registry, the gateway, the trace table, the JSON
-- decoder and the schema validator. A parsed object is kept by its text.
pub mod Attempts
mod Tests
use Prim.Native.Char.{code}
use Prim.Native.String
use Prim.Native.String.{◌++◌ as ◌++ₛ◌}
use lumine_hedge_fund.Prelude.{
  ℕ, zero, suc, ◌+◌, Bool, true, false, Option, none, some, List, [], ◌∷◌, ◌++◌, String, Dict,
  lookup, insert, ◌==◌, if◌then◌else◌,
}
use lumine_hedge_fund.LlmGateway.Tiers.{ModelTier, cost_efficient, context_rich, strongest}

abbrev pub max_attempts : ℕ
max_attempts = 2

abbrev pub tier_hint_map : Dict ModelTier
tier_hint_map =
    ("cost-efficient", cost_efficient)
    ∷ ("context-rich", context_rich)
    ∷ ("balanced", context_rich)
    ∷ ("specialized", context_rich)
    ∷ ("frontier", strongest)
    ∷ []

pub record StageContext : Type 0 where
  pub role : String
  pub prompt_sub_role : String
  pub prompt_version : String
  pub model_version_id : String
  pub lineage_id : String
  pub workflow_run_id : String
  pub stage_run_id : String
  pub variables : Dict String
  pub idempotency_key : String
  pub prompt_version_id : Option String
  pub trace_lineage_id : Option String

pub record StageResult : Type 0 where
  pub parsed : String
  pub trace_ids : List String
  pub raw_response : String
  pub model_used : String
  pub degraded : Bool
  pub fallback_hops : ℕ

pub record PromptBundle : Type 0 where
  pub model_tier_hint : String
  pub output_schema : String
  pub prompt_ref : String
  pub prompt_hash : String

-- A request, with the texts of its user messages.
pub record RouterRequest : Type 0 where
  pub model_version_id : String
  pub role : String
  pub tier : ModelTier
  pub lineage_id : String
  pub prompt_ref : String
  pub prompt_hash : String
  pub idempotency_key : String
  pub messages : List String

pub record GatewayResult : Type 0 where
  pub content : String
  pub model_used : String
  pub degraded : Bool
  pub fallback_hops : ℕ

-- What `write_trace` is given.
pub record TraceRow : Type 0 where
  pub workflow_run_id : String
  pub stage_run_id : String
  pub role : String
  pub model_version_id : String
  pub prompt_version_id : Option String
  pub prompt_sent : String
  pub response_raw : String
  pub parsed_output : Option String
  pub prompt_hash : String
  pub lineage_id : Option String

-- What `raw_decode` makes of a text from a position on.
pub data Decoded : Type 0 where
  object : String → Decoded
  other malformed : Decoded

pub data StageError : Type 0 where
  unknown_prompt unknown_tier render_failed gateway_failed trace_failed : StageError
  schema_invalid : String → StageError

pub data Staged : Type 0 where
  returned : StageResult → Staged
  raised : StageError → Staged

-- The calls of a stage, in their order; the answers may depend on what was called before.
pub record Calls : Type 0 where
  pub requests : List RouterRequest
  pub traces : List TraceRow

pub record Environment : Type 0 where
  pub get_prompt : String → String → Option PromptBundle
  pub render : PromptBundle → Dict String → Option String
  pub complete : Calls → RouterRequest → Option GatewayResult
  pub write_trace : Calls → TraceRow → Option String
  pub unfenced : String → String
  pub raw_decode : String → ℕ → Decoded
  pub validation_problem : String → String → Option String
  -- `session is not None`
  pub has_session : Bool

unfoldable pub tier_from_hint : String → Option ModelTier
tier_from_hint hint = lookup hint tier_hint_map

-- `text.find("{")`, from a position on.
unfoldable pub find_brace : ℕ → String → Option ℕ
find_brace position String.[] = none
find_brace position (String.◌∷◌ c text) =
    let rest = find_brace (position + 1) text in if code c == b'{' then some position else rest

unfoldable pub object_of : Decoded → Option String
object_of (object o) = some o
object_of other = none
object_of malformed = none

-- `_retry_messages`
unfoldable pub retry_messages : List String → String → String → List String
retry_messages messages raw_response problem =
    messages
    ++ ("Your previous output was rejected by schema validation because it was not valid JSON: "
        ++ₛ problem ++ₛ "\n\nYour previous output was:\n" ++ₛ raw_response
        ++ₛ "\n\nReturn ONLY a single valid JSON object matching the requested schema. No markdown, no code fences, no prose.")
      ∷ []

-- `messages[-1]`
unfoldable pub last_message : List String → String
last_message [] = ""
last_message (m ∷ []) = m
last_message (m ∷ (n ∷ messages)) = last_message (n ∷ messages)

-- `variables.setdefault(key, value)`
unfoldable pub with_default : String → String → Dict String → Dict String
unfolding insert
with_default key value variables = elim (lookup key variables) [
  | none ↦ insert key value variables
  | some _ ↦ variables
]

module _ (env : Environment) (ctx : StageContext) where
  unfoldable pub parse_from : String → Option ℕ → Option String
  unfolding object_of
  parse_from text none = none
  parse_from text (some start) = object_of (env.raw_decode text start)

  -- `_try_parse`
  unfoldable pub try_parse : String → Option String
  unfolding parse_from find_brace
  try_parse raw = let text = env.unfenced raw in parse_from text (find_brace 0 text)

  -- `declined_reason`: why a response is declined, `none` if it is valid.
  unfoldable pub problem_of : PromptBundle → Option String → Option String
  problem_of bundle none = some "response is not a single valid JSON object"
  problem_of bundle (some parsed) = env.validation_problem parsed bundle.output_schema

  unfoldable pub request_of : PromptBundle → ModelTier → Bool → List String → RouterRequest
  request_of bundle tier is_first messages = record {
    model_version_id = ctx.model_version_id;
    role = ctx.role;
    tier = tier;
    lineage_id = ctx.lineage_id;
    prompt_ref = bundle.prompt_ref;
    prompt_hash = bundle.prompt_hash;
    idempotency_key = if is_first then ctx.idempotency_key else ctx.idempotency_key ++ₛ "-retry";
    messages = messages;
  }

  -- `parsed if declined_reason is None else None`
  unfoldable pub output_of : Option String → Option String → Option String
  output_of none parsed = parsed
  output_of (some _) parsed = none

  unfoldable pub trace_of :
      PromptBundle → List String → String → Option String → Option String → TraceRow
  unfolding output_of last_message
  trace_of bundle messages raw parsed declined = record {
    workflow_run_id = ctx.workflow_run_id;
    stage_run_id = ctx.stage_run_id;
    role = ctx.role;
    model_version_id = ctx.model_version_id;
    prompt_version_id = ctx.prompt_version_id;
    prompt_sent = last_message messages;
    response_raw = raw;
    parsed_output = output_of declined parsed;
    prompt_hash = bundle.prompt_hash;
    lineage_id = ctx.trace_lineage_id;
  }

  unfoldable pub result_of : String → GatewayResult → List String → StageResult
  result_of parsed answer trace_ids = record {
    parsed = parsed;
    trace_ids = trace_ids;
    raw_response = answer.content;
    model_used = answer.model_used;
    degraded = answer.degraded;
    fallback_hops = answer.fallback_hops;
  }

  -- The trace of an attempt: the identifiers so far, or `none` where it cannot be written.
  unfoldable pub traced : TraceRow → List String → Calls → Option (List String) × Calls
  traced row trace_ids calls =
      if env.has_session
      then elim (env.write_trace calls row) [
        | none ↦ (none, calls)
        | some trace_id ↦
            (some (trace_ids ++ trace_id ∷ []), record calls { traces = calls.traces ++ row ∷ [] })
      ]
      else (some trace_ids, calls)

  -- How an attempt goes on: with a result, an exception, or the reason for another attempt.
  pub data Attempt : Type 0 where
    done : Staged → Attempt
    declined : String → String → List String → Attempt

  unfoldable pub judged :
      GatewayResult → Option String → Option String → Option (List String) → Attempt
  judged answer parsed problem none = done (raised trace_failed)
  judged answer parsed (some reason) (some trace_ids) = declined answer.content reason trace_ids
  judged answer (some parsed) none (some trace_ids) =
      done (returned (result_of parsed answer trace_ids))
  -- Without an object there is always a problem.
  judged answer none none (some trace_ids) = declined answer.content "" trace_ids

  -- The rest of a pass, once the gateway has answered or raised.
  unfoldable pub answered :
      PromptBundle → List String → List String → Option GatewayResult → Calls → Attempt × Calls
  unfolding try_parse problem_of trace_of traced judged
  answered bundle messages trace_ids none calls = (done (raised gateway_failed), calls)
  answered bundle messages trace_ids (some answer) calls =
      let parsed = try_parse answer.content in
      let problem = problem_of bundle parsed in
      let (ids, calls') =
        traced (trace_of bundle messages answer.content parsed problem) trace_ids calls in
      (judged answer parsed problem ids, calls')

  -- One pass of the loop.
  unfoldable pub attempt :
      PromptBundle → ModelTier → Bool → List String → List String → Calls → Attempt × Calls
  unfolding request_of answered
  attempt bundle tier is_first messages trace_ids calls =
      let request = request_of bundle tier is_first messages in
      answered bundle messages trace_ids (env.complete calls request)
        (record calls { requests = calls.requests ++ request ∷ [] })

  unfoldable pub resumed :
      (String → String → List String → Calls → Staged × Calls) → Attempt × Calls → Staged × Calls
  resumed again (done end, calls) = (end, calls)
  resumed again (declined raw reason trace_ids, calls) = again raw reason trace_ids calls

  -- The loop over the attempts that are left; a declined one is repeated with the correction.
  unfoldable pub attempts :
      PromptBundle
      → ModelTier
      → List String
      → ℕ
      → Bool
      → List String
      → List String
      → String
      → Calls
      → Staged × Calls
  unfolding attempt retry_messages resumed
  attempts bundle tier messages zero is_first current trace_ids reason calls =
      (raised (schema_invalid reason), calls)
  attempts bundle tier messages (suc left) is_first current trace_ids reason calls =
      resumed
        (λ raw why ids later.
          attempts bundle tier messages left false (retry_messages messages raw why) ids why later)
        (attempt bundle tier is_first current trace_ids calls)

  -- `_messages`
  unfoldable pub render_vars : PromptBundle → Dict String
  unfolding with_default
  render_vars bundle =
      with_default "sub_role" ctx.prompt_sub_role
        (with_default "output_schema" bundle.output_schema ctx.variables)

  unfoldable pub begun : PromptBundle → Option ModelTier → Option String → Calls → Staged × Calls
  unfolding attempts
  begun bundle none body calls = (raised unknown_tier, calls)
  begun bundle (some tier) none calls = (raised render_failed, calls)
  begun bundle (some tier) (some body) calls =
      attempts bundle tier (body ∷ []) max_attempts true (body ∷ []) [] "unknown failure" calls

  unfoldable pub prompted : Option PromptBundle → Calls → Staged × Calls
  unfolding begun render_vars tier_from_hint
  prompted none calls = (raised unknown_prompt, calls)
  prompted (some bundle) calls =
      begun bundle (tier_from_hint bundle.model_tier_hint) (env.render bundle (render_vars bundle))
        calls

  unfoldable pub run_llm_stage : Calls → Staged × Calls
  unfolding prompted
  run_llm_stage calls = prompted (env.get_prompt ctx.prompt_sub_role ctx.prompt_version) calls
