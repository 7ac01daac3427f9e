-- ===== src/LlmGateway/Fallback.antt =====
-- backend/src/lumine/llm_gateway/fallback.py: the fallback chain. The client is a parameter: the
-- answer to each call, by how many calls of the chain came before it and the route called. The log
-- keeps the calls with their answers. `RouterClientError` is its message; `str.lower` is modelled
-- on ASCII letters.
pub mod Calls
mod Tests
use Prim.Native.Char.{code}
use Prim.Native.String
use lumine_hedge_fund.Prelude.{
  ℕ, ◌+◌, Bool, true, false, ◌&&◌, ◌||◌, Option, none, some, List, [], ◌∷◌, ◌++◌, String, leb, ◌==◌,
  length, if◌then◌else◌,
}
use lumine_hedge_fund.LlmGateway.Tiers.{ModelTier}

-- A route dictionary: what the gateway reads of it.
pub record Route : Type 0 where
  pub model : String
  pub model_version_id : String

pub record GatewayResponse : Type 0 where
  pub content : String
  pub model_used : String
  pub prompt_tokens : ℕ
  pub completion_tokens : ℕ
  pub total_tokens : ℕ

pub data Reply : Type 0 where
  answer : GatewayResponse → Reply
  client_error : String → Reply

pub data Kind : Type 0 where
  auth transient permanent : Kind

-- `str(error).lower()` as code points.
unfoldable pub lower_codes : String → List ℕ
lower_codes String.[] = []
lower_codes (String.◌∷◌ c s) =
    (if leb b'A' (code c) && leb (code c) b'Z' then code c + 32 else code c) ∷ lower_codes s

pub has_prefix : List ℕ → List ℕ → Bool
has_prefix [] text = true
has_prefix (m ∷ marker) [] = false
has_prefix (m ∷ marker) (c ∷ text) = (m == c) && has_prefix marker text

-- `marker in text`
pub has_marker : List ℕ → List ℕ → Bool
unfolding has_prefix
has_marker marker [] = has_prefix marker []
has_marker marker (c ∷ text) = has_prefix marker (c ∷ text) || has_marker marker text

-- `any(marker in msg for marker in markers)`
pub any_marker : List String → List ℕ → Bool
unfolding has_marker lower_codes
any_marker [] msg = false
any_marker (m ∷ markers) msg = has_marker (lower_codes m) msg || any_marker markers msg

unfoldable pub classify : String → Kind
unfolding any_marker lower_codes
classify error =
    let msg = lower_codes error in
    if any_marker ("401" ∷ "403" ∷ []) msg
    then auth
    else if any_marker ("timed out" ∷ "429" ∷ []) msg
    then transient
    else permanent

pub record Call : Type 0 where
  pub route : Route
  pub reply : Reply

pub data Ended : Type 0 where
  answered : GatewayResponse → Ended
  -- `NoFallbacksConfiguredError` and `FallbackExhaustedError`, from the last failure.
  no_fallbacks exhausted : String → Ended

-- How the attempts at one route end: with a response, or with the last failure.
pub data Attempt : Type 0 where
  success : GatewayResponse → Attempt
  failure : String → Attempt

unfoldable pub reply_attempt : Reply → Attempt
reply_attempt (answer r) = success r
reply_attempt (client_error e) = failure e

unfoldable pub last_failure : Attempt → String → String
last_failure (success r) last = last
last_failure (failure e) last = e

-- The attempt at a route, and what the rest of the routes gives where it failed.
unfoldable pub join : Attempt → List Call → Attempt × List Call → Attempt × List Call
join (success r) log rest = (success r, log)
join (failure e) log rest = (rest.0, log ++ rest.1)

-- The error that surfaces; `hops` are the declared fallbacks.
unfoldable pub surfaced : List Route → String → Ended
surfaced [] e = elim (classify e) [ transient ↦ exhausted e | _ ↦ no_fallbacks e ]
surfaced (hop ∷ hops) e = exhausted e

unfoldable pub ended : List Route → Attempt → Ended
unfolding surfaced
ended hops (success r) = answered r
ended hops (failure e) = surfaced hops e

module _ (client : ℕ → Route → Reply) where
  -- The second attempt of a route, after a transient failure; it is the last.
  unfoldable pub retry_route : ℕ → Route → String → Kind → Attempt × List Call
  retry_route n route e transient =
      let reply = client (n + 1) route in
      (
        reply_attempt reply,
        record { route = route; reply = client_error e }
            ∷ record { route = route; reply = reply }
            ∷ [],
      )
  retry_route n route e auth = (failure e, record { route = route; reply = client_error e } ∷ [])
  retry_route n route e permanent =
      (failure e, record { route = route; reply = client_error e } ∷ [])

  unfoldable pub after_reply : ℕ → Route → Reply → Attempt × List Call
  unfolding retry_route
  after_reply n route (answer r) = (success r, record { route = route; reply = answer r } ∷ [])
  after_reply n route (client_error e) = retry_route n route e (classify e)

  -- The inner loop of `run_chain_async`, after `n` calls.
  unfoldable pub try_route : ℕ → Route → Attempt × List Call
  unfolding after_reply reply_attempt
  try_route n route = after_reply n route (client n route)

  -- The outer loop, with the last failure so far.
  unfoldable pub try_routes : ℕ → String → List Route → Attempt × List Call
  unfolding try_route join last_failure
  try_routes n last [] = (failure last, [])
  try_routes n last (route ∷ routes) =
      let (attempt, log) = try_route n route in
      let rest = try_routes (n + length log) (last_failure attempt last) routes in
      join attempt log rest

  unfoldable pub run_chain : Route → List Route → Ended × List Call
  unfolding ended try_routes
  run_chain primary hops =
      let (attempt, log) = try_routes 0 "" (primary ∷ hops) in (ended hops attempt, log)
