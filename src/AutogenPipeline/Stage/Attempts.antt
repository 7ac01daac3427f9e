-- ===== src/AutogenPipeline/Stage/Attempts.antt =====
-- What a stage returns and leaves behind: _base.py, `run_llm_stage`.
use lumine_hedge_fund.Prelude.{
  ℕ, zero, suc, ◌+◌, ◌≤◌, ◌≡◌, refl, ap, ◌∙◌, inl, inr, Bool, true, false, Option, none, some, List,
  [], ◌∷◌, ◌++◌, String, arith, length, length-append, Bool-cases, Option-cases, if◌then◌else◌,
}
use lumine_hedge_fund.LlmGateway.Tiers.{ModelTier}
use lumine_hedge_fund.AutogenPipeline.Stage.{
  max_attempts, StageContext, StageResult, PromptBundle, GatewayResult, RouterRequest, TraceRow,
  unknown_prompt, unknown_tier, render_failed, Staged, returned, raised, trace_failed,
  gateway_failed, schema_invalid, Calls, Environment, tier_from_hint, retry_messages, try_parse,
  problem_of, request_of, trace_of, result_of, traced, Attempt, done, declined, judged, answered,
  resumed, attempt, attempts, begun, prompted, run_llm_stage,
}

module _ (env : Environment) (ctx : StageContext) (bundle : PromptBundle) where
  -- The object was parsed from the response and conforms to the prompt's schema.
  abbrev pub IsValid : StageResult → Type 0
  IsValid r =
      (try_parse env ctx r.raw_response ≡ some r.parsed)
      × (env.validation_problem r.parsed bundle.output_schema ≡ none)

  -- The number of traces after one more attempt.
  abbrev grown : ℕ → ℕ
  grown n = if env.has_session then suc n else n

  abbrev IsSound : List String → Attempt env ctx → Type 0
  IsSound ids (done (returned r)) = IsValid r × (length r.trace_ids ≡ grown (length ids))
  IsSound ids (done (raised (schema_invalid reason))) = ⊥
  IsSound ids (done (raised e)) = Unit {0}
  IsSound ids (declined raw reason more) = length more ≡ grown (length ids)

  judged-IsSound :
      (answer : GatewayResult) (parsed problem : Option String) (ids : List String)
      (more : Option (List String))
      → try_parse env ctx answer.content ≡ parsed
      → problem_of env ctx bundle parsed ≡ problem
      → ((l : List String) → more ≡ some l → length l ≡ grown (length ids))
      → IsSound ids (judged env ctx answer parsed problem more)
  unfolding judged problem_of result_of
  judged-IsSound answer parsed problem ids none p q h = tt
  judged-IsSound answer parsed (some reason) ids (some more) p q h = h more refl
  judged-IsSound answer (some o) none ids (some more) p q h = ((p, q), h more refl)
  judged-IsSound answer none none ids (some more) p q h = h more refl

  traced-grown :
      (row : TraceRow) (ids : List String) (calls : Calls)
      → ((l : List String)
          → (traced env ctx row ids calls).0 ≡ some l
          → length l ≡ grown (length ids))
        × ((traced env ctx row ids calls).1.requests ≡ calls.requests)
  unfolding traced
  traced-grown row ids calls = elim (Bool-cases env.has_session) [
    | inr e ↦ rw e ((λ l h. cc), refl)
    | inl e ↦ elim (Option-cases (env.write_trace calls row)) [
      | inl n ↦ rw (e, n) ((λ l h. cc), refl)
      | inr (id, n) ↦
          rw (e, n)
            (
              (λ l h.
                  let same : ids ++ id ∷ [] ≡ l = cc in
                  omega
                    (arith, ap (λ (k : List String). length k) same, length-append ids (id ∷ []))),
              refl,
            )
    ]
  ]

  answered-IsSound :
      (messages ids : List String) (answer : Option GatewayResult) (calls : Calls)
      → let (a, calls') = answered env ctx bundle messages ids answer calls in
        IsSound ids a × (calls'.requests ≡ calls.requests)
  unfolding answered
  answered-IsSound messages ids none calls = (tt, refl)
  answered-IsSound messages ids (some answer) calls =
      let parsed = try_parse env ctx answer.content in
      let problem = problem_of env ctx bundle parsed in
      let row = trace_of env ctx bundle messages answer.content parsed problem in
      let (grows, same) = traced-grown row ids calls in
      (
        judged-IsSound answer parsed problem ids (traced env ctx row ids calls).0 refl refl grows,
        same,
      )

  attempt-IsSound :
      (tier : ModelTier) (is_first : Bool) (messages ids : List String) (calls : Calls)
      → let (a, calls') = attempt env ctx bundle tier is_first messages ids calls in
        IsSound ids a × (length calls'.requests ≡ suc (length calls.requests))
  unfolding attempt
  attempt-IsSound tier is_first messages ids calls =
      let request = request_of env ctx bundle tier is_first messages in
      let (sound, same) = answered-IsSound messages ids (env.complete calls request) _ in
      (
        sound,
        ap (λ (l : List RouterRequest). length l) same
            ∙ omega (arith, length-append calls.requests (request ∷ [])),
      )

  -- What the loop tells of its calls, from the traces and calls that it started with.
  abbrev pub Tells : ℕ → ℕ → Calls → Staged × Calls → Type 0
  Tells n traces calls (returned r, calls') =
      IsValid r
      × (if env.has_session
          then length r.trace_ids + length calls.requests ≡ traces + length calls'.requests
          else length r.trace_ids ≡ traces)
      × (length calls'.requests ≤ length calls.requests + n)
  Tells n traces calls (raised (schema_invalid reason), calls') =
      length calls'.requests ≡ length calls.requests + n
  Tells n traces calls (raised e, calls') = length calls'.requests ≤ length calls.requests + n

  shifted :
      (n : ℕ) (ids more : List String) (calls calls' : Calls) (x : Staged × Calls)
      → length more ≡ grown (length ids)
      → length calls'.requests ≡ suc (length calls.requests)
      → Tells n (length more) calls' x
      → Tells (suc n) (length ids) calls x
  shifted n ids more calls calls' (returned r, later) g one (valid, counted, few) = (
    valid,
    elim (Bool-cases env.has_session) [
      | inl e ↦ rw e (omega (arith, rw e at g, rw e at counted))
      | inr e ↦ rw e (omega (arith, rw e at g, rw e at counted))
    ],
    omega arith,
  )
  shifted n ids more calls calls' (raised unknown_prompt, later) g one told = omega arith
  shifted n ids more calls calls' (raised unknown_tier, later) g one told = omega arith
  shifted n ids more calls calls' (raised render_failed, later) g one told = omega arith
  shifted n ids more calls calls' (raised gateway_failed, later) g one told = omega arith
  shifted n ids more calls calls' (raised trace_failed, later) g one told = omega arith
  shifted n ids more calls calls' (raised (schema_invalid why), later) g one told = omega arith

  resumed-Tells :
      (n : ℕ) (ids : List String) (calls : Calls)
      (again : String → String → List String → Calls → Staged × Calls) (a : Attempt env ctx)
      (calls' : Calls)
      → IsSound ids a
      → length calls'.requests ≡ suc (length calls.requests)
      → ((raw why : String) (more : List String)
          → Tells n (length more) calls' (again raw why more calls'))
      → Tells (suc n) (length ids) calls (resumed env ctx again (a, calls'))
  unfolding resumed
  resumed-Tells n ids calls again (done (returned r)) calls' sound one rest = (
    sound.0,
    elim (Bool-cases env.has_session) [
      | inl e ↦ let g = sound.1 in rw e (omega (arith, rw e at g))
      | inr e ↦ let g = sound.1 in rw e (rw e at g)
    ],
    omega arith,
  )
  resumed-Tells n ids calls again (done (raised unknown_prompt)) calls' sound one rest = omega arith
  resumed-Tells n ids calls again (done (raised unknown_tier)) calls' sound one rest = omega arith
  resumed-Tells n ids calls again (done (raised render_failed)) calls' sound one rest = omega arith
  resumed-Tells n ids calls again (done (raised gateway_failed)) calls' sound one rest = omega arith
  resumed-Tells n ids calls again (done (raised trace_failed)) calls' sound one rest = omega arith
  resumed-Tells n ids calls again (done (raised (schema_invalid why))) calls' sound one rest =
      elim sound [ ]
  resumed-Tells n ids calls again (declined raw why more) calls' sound one rest =
      shifted n ids more calls calls' (again raw why more calls') sound one (rest raw why more)

  attempts-Tells :
      (tier : ModelTier) (messages : List String) (n : ℕ) (is_first : Bool)
      (current ids : List String) (reason : String) (calls : Calls)
      → Tells n
          (length ids)
          calls
          (attempts env ctx bundle tier messages n is_first current ids reason calls)
  unfolding attempts
  attempts-Tells tier messages zero is_first current ids reason calls = omega arith
  attempts-Tells tier messages (suc n) is_first current ids reason calls =
      let (sound, one) = attempt-IsSound tier is_first current ids calls in
      resumed-Tells n ids calls _ (attempt env ctx bundle tier is_first current ids calls).0
        (attempt env ctx bundle tier is_first current ids calls).1 sound one
        (λ raw why more.
          attempts-Tells tier messages n false (retry_messages messages raw why) more why _)

  begun-Tells :
      (tier : Option ModelTier) (body : Option String) (calls : Calls)
      → Tells max_attempts 0 calls (begun env ctx bundle tier body calls)
  unfolding begun
  begun-Tells none body calls = omega arith
  begun-Tells (some tier) none calls = omega arith
  begun-Tells (some tier) (some body) calls =
      attempts-Tells tier (body ∷ []) max_attempts true (body ∷ []) [] "unknown failure" calls

  -- With a prompt in the registry: a stage that returns has parsed its object from
  -- the response that it reports, the object conforms to the prompt's schema, at most two requests
  -- were made, and with a session there is one trace for each of them. A stage is given up as
  -- schema-invalid only after two requests, and no stage makes more.
  pub run_llm_stage-Tells :
      (calls : Calls)
      → env.get_prompt ctx.prompt_sub_role ctx.prompt_version ≡ some bundle
      → Tells max_attempts 0 calls (run_llm_stage env ctx calls)
  unfolding run_llm_stage prompted
  run_llm_stage-Tells calls e = rw e (begun-Tells (tier_from_hint bundle.model_tier_hint) _ calls)
