-- ===== src/LlmGateway/Fallback/Tests.antt =====
-- The fallback chain of fallback.py with a client whose primary route is rate limited.
use lumine_hedge_fund.Prelude.{ℕ, ◌≡◌, refl, [], ◌∷◌, str_eq, length, if◌then◌else◌}
use lumine_hedge_fund.LlmGateway.Fallback.{
  Route, GatewayResponse, Reply, answer, client_error, answered, lower_codes, has_prefix,
  has_marker, any_marker, classify, transient, run_chain,
}

abbrev primary : Route
primary = record { model = "m1"; model_version_id = "v1" }

abbrev hop : Route
hop = record { model = "m2"; model_version_id = "v2" }

abbrev response : GatewayResponse
response = record {
  content = "ok";
  model_used = "m2";
  prompt_tokens = 10;
  completion_tokens = 5;
  total_tokens = 15;
}

abbrev client : ℕ → Route → Reply
client n route = if str_eq route.model "m1" then client_error "HTTP 429" else answer response

rate_limited : classify "HTTP 429" ≡ transient
unfolding classify any_marker has_marker has_prefix lower_codes
rate_limited = refl

chain_answers : (run_chain client primary (hop ∷ [])).0 ≡ answered response
unfolding run_chain classify
chain_answers = refl

chain_calls : length (run_chain client primary (hop ∷ [])).1 ≡ 3
unfolding run_chain classify
chain_calls = refl
