-- ===== src/Api/Auth/Tests.antt =====
-- Requests to api/middleware/auth.py under a toy digest.
use lumine_hedge_fund.Prelude.{
  ◌≡◌, ◌≢◌, refl, arith, ◌+◌, true, false, none, some, [], ◌∷◌, String, pos, str_eq, ltb,
  if◌then◌else◌, Dict, lookup,
}
use lumine_hedge_fund.Api.Auth.{
  Library, Settings, AuthenticatedPrincipal, Request, accepted, raised, expired_timestamp,
  replay_detected, revoked_key, signature_mismatch, missing_auth, distance, require,
  authenticate_request,
}
use lumine_hedge_fund.Api.ReplayCache.{signature_window_seconds, ReplayCache}
use lumine_hedge_fund.Api.Auth.Once.{
  authenticate_all, authenticate_request-once, authenticate_request-again,
}

abbrev lib : Library
lib = record {
  sha256_hex = λ b. "digest";
  hmac_sha256_hex = λ secret payload. secret;
  parse_int = λ s. if str_eq s "400" then some (pos 400) else none;
}

abbrev settings : Settings
settings = record { hmac_secret_key = "" }

abbrev redis : Dict (Dict String)
redis =
    ("lumine:api_key:lk_1", ("secret", "s3") ∷ ("scopes", "read,trade") ∷ [])
    ∷ ("lumine:api_key:lk_2", ("revoked", "1") ∷ [])
    ∷ []

abbrev request : Request
request = record {
  method = "POST";
  path = "/api/v1/orders";
  query = "";
  body = 1 ∷ [];
  api_key = some "lk_1";
  timestamp = some "400";
  signature = some "s3";
}

abbrev principal : AuthenticatedPrincipal
principal = record { key_id = "lk_1"; scopes = "read" ∷ "trade" ∷ [] }

abbrev other : Request
other = record request { path = "/api/v1/positions" }

abbrev after : ReplayCache
after = (record { api_key = "lk_1"; timestamp = "400"; body_hash = "digest" }, 400) ∷ []

-- The clock stands at 100, the timestamp five minutes ahead.
is_accepted : authenticate_request lib settings redis 100 request [] ≡ (accepted principal, after)
unfolding authenticate_request lookup
is_accepted = refl

is_revoked :
    (authenticate_request lib settings redis 100 (record request { api_key = some "lk_2" }) []).0
    ≡ raised revoked_key
unfolding authenticate_request lookup
is_revoked = refl

is_mismatched :
    (authenticate_request lib settings redis 100 (record request { signature = some "s4" }) []).0
    ≡ raised signature_mismatch
unfolding authenticate_request lookup
is_mismatched = refl

is_missing :
    (authenticate_request lib settings redis 100 (record request { signature = none }) []).0
    ≡ raised (missing_auth ("X-Lumine-Signature" ∷ []))
unfolding authenticate_request
is_missing = refl

-- The scope of a key, and one that it has not.
scopes_of : (require "trade" principal ≡ true) × (require "admin" principal ≡ false)
unfolding require
scopes_of = (refl, refl)

authenticate_request-once_example :
    (authenticate_request lib settings redis 399 other
      (authenticate_all lib settings redis ((200, other) ∷ []) after)).0
    ≢ accepted principal
authenticate_request-once_example =
    authenticate_request-once lib settings redis 100 399 request other ((200, other) ∷ []) [] after
      principal principal is_accepted refl refl refl (omega arith, tt) (omega arith)

authenticate_request-again_example :
    (authenticate_request lib settings redis 700 request after).0 ≡ (
      if ltb signature_window_seconds (distance 700 (pos 400))
      then raised expired_timestamp
      else if ltb 700 (100 + signature_window_seconds)
      then raised replay_detected
      else accepted principal)
authenticate_request-again_example =
    authenticate_request-again lib settings redis 100 700 request [] after principal "400" (pos 400)
      is_accepted refl refl
