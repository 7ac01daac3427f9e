-- ===== src/Api/Auth.antt =====
-- backend/src/lumine/api/middleware/auth.py. Times are whole seconds. SHA-256, HMAC and `int` of a text
-- are parameters; the keys in Redis are a table of their fields, and a payload is its text.
pub mod Cases
pub mod Replay
pub mod Once
mod Tests
use Prim.Native.String.{◌++◌ as ◌++ₛ◌}
use Prim.Native.Char.{code}
use lumine_hedge_fund.Prelude.{
  ℕ, suc, ◌+◌, ◌-◌, Bool, true, false, not, ◌&&◌, ◌||◌, Option, none, some, List, [], ◌∷◌, ◌++◌,
  String, ℤ, pos, negsuc, str_eq, ltb, leb, length, is_empty, contains, if◌then◌else◌, Dict, lookup,
  split,
}
use lumine_hedge_fund.Api.ReplayCache.{
  signature_window_seconds, ReplayKey, ReplayCache, check_replay,
}

abbrev pub Bytes : Type 0
Bytes = List ℕ

pub record Library : Type 0 where
  pub sha256_hex : Bytes → String
  -- of a secret and a payload
  pub hmac_sha256_hex : String → String → String
  pub parse_int : String → Option ℤ

pub record Settings : Type 0 where
  pub hmac_secret_key : String

pub record AuthenticatedPrincipal : Type 0 where
  pub key_id : String
  pub scopes : List String

pub record Request : Type 0 where
  pub method : String
  pub path : String
  pub query : String
  pub body : Bytes
  pub api_key : Option String
  pub timestamp : Option String
  pub signature : Option String

-- An AuthError; `not_ascii` is the TypeError of `compare_digest`.
pub data AuthError : Type 0 where
  missing_auth : List String → AuthError
  revoked_key : AuthError
  invalid_timestamp : AuthError
  expired_timestamp : AuthError
  not_ascii : AuthError
  signature_mismatch : AuthError
  replay_detected : AuthError

pub data Authenticated : Type 0 where
  accepted : AuthenticatedPrincipal → Authenticated
  raised : AuthError → Authenticated

-- `AuthenticatedPrincipal.require`: whether it returns.
unfoldable pub require : String → AuthenticatedPrincipal → Bool
require scope principal = contains scope principal.scopes || contains "admin" principal.scopes

unfoldable pub or_text : Option String → String
or_text none = ""
or_text (some s) = s

unfoldable pub or_fields : Option (Dict String) → Dict String
or_fields none = []
or_fields (some fields) = fields

-- The secret and the scopes of a key with these fields.
unfoldable pub key_of : Dict String → Option (String × List String)
unfolding or_text split
key_of [] = none
key_of (field ∷ fields) =
    let decoded = field ∷ fields in
    if str_eq (or_text (lookup "revoked" decoded)) "1"
    then none
    else some (or_text (lookup "secret" decoded), split "," (or_text (lookup "scopes" decoded)))

unfoldable pub load_key : Settings → Dict (Dict String) → String → Option (String × List String)
unfolding key_of or_fields
load_key settings redis key_id =
    if str_eq key_id "bootstrap" && not (str_eq settings.hmac_secret_key "")
    then some (settings.hmac_secret_key, "admin" ∷ [])
    else key_of (or_fields (lookup ("lumine:api_key:" ++ₛ key_id) redis))

-- `_build_signature_payload`
unfoldable pub signature_payload : Library → String → String → String → Bytes → String
signature_payload lib method path timestamp body =
    method ++ₛ "\n" ++ₛ path ++ₛ "\n" ++ₛ timestamp ++ₛ "\n" ++ₛ lib.sha256_hex body

-- `request_path`, with the query string.
unfoldable pub request_path : Request → String
request_path request =
    if str_eq request.query "" then request.path else request.path ++ₛ "?" ++ₛ request.query

unfoldable pub is_ascii : String → Bool
is_ascii String.[] = true
is_ascii (String.◌∷◌ c text) = let rest = is_ascii text in if ltb (code c) 128 then rest else false

-- `abs(now - ts_int)`
unfoldable pub distance : ℕ → ℤ → ℕ
distance now (pos t) = if leb t now then now - t else t - now
distance now (negsuc t) = now + suc t

unfoldable pub missing_header : String → Option String → List String
missing_header name none = name ∷ []
missing_header name (some value) = if str_eq value "" then name ∷ [] else []

unfoldable pub missing_headers : Request → List String
unfolding missing_header
missing_headers request =
    missing_header "X-Lumine-API-Key" request.api_key
    ++ missing_header "X-Lumine-Timestamp" request.timestamp
    ++ missing_header "X-Lumine-Signature" request.signature

module _ (lib : Library) (settings : Settings) (redis : Dict (Dict String)) where
  unfoldable pub replay_key : String → String → Bytes → ReplayKey
  replay_key api_key timestamp body = record {
    api_key = api_key;
    timestamp = timestamp;
    body_hash = lib.sha256_hex body;
  }

  unfoldable pub verify_signature : String → String → String → Bool
  verify_signature secret payload signature = str_eq (lib.hmac_sha256_hex secret payload) signature

  unfoldable pub admitted :
      AuthenticatedPrincipal → ReplayCache → Option ReplayCache → Authenticated × ReplayCache
  admitted principal seen none = (raised replay_detected, seen)
  admitted principal seen (some after) = (accepted principal, after)

  -- From the signature on.
  unfoldable pub signed :
      ℕ
      → Request
      → String
      → String
      → String
      → String × List String
      → ReplayCache
      → Authenticated × ReplayCache
  unfolding verify_signature signature_payload request_path is_ascii check_replay replay_key
      admitted
  signed now request api_key timestamp signature (secret, scopes) seen =
      let payload =
        signature_payload lib request.method (request_path request) timestamp request.body in
      if not (is_ascii signature)
      then (raised not_ascii, seen)
      else if not (verify_signature secret payload signature)
      then (raised signature_mismatch, seen)
      else admitted (record { key_id = api_key; scopes = scopes }) seen
          (check_replay (replay_key api_key timestamp request.body) now seen)

  -- From the timestamp on.
  unfoldable pub timed :
      ℕ
      → Request
      → String
      → String
      → String
      → String × List String
      → Option ℤ
      → ReplayCache
      → Authenticated × ReplayCache
  unfolding signed distance
  timed now request api_key timestamp signature key none seen = (raised invalid_timestamp, seen)
  timed now request api_key timestamp signature key (some t) seen =
      if ltb signature_window_seconds (distance now t)
      then (raised expired_timestamp, seen)
      else signed now request api_key timestamp signature key seen

  -- From the key on.
  unfoldable pub keyed :
      ℕ
      → Request
      → String
      → String
      → String
      → Option (String × List String)
      → ReplayCache
      → Authenticated × ReplayCache
  unfolding timed
  keyed now request api_key timestamp signature none seen = (raised revoked_key, seen)
  keyed now request api_key timestamp signature (some key) seen =
      timed now request api_key timestamp signature key (lib.parse_int timestamp) seen

  unfoldable pub headed :
      ℕ
      → Request
      → Option String
      → Option String
      → Option String
      → ReplayCache
      → Authenticated × ReplayCache
  unfolding keyed load_key
  headed now request (some api_key) (some timestamp) (some signature) seen =
      keyed now request api_key timestamp signature (load_key settings redis api_key) seen
  headed now request _ _ _ seen = (raised (missing_auth []), seen)

  -- `now` is `int(time.time())`.
  unfoldable pub authenticate_request : ℕ → Request → ReplayCache → Authenticated × ReplayCache
  unfolding headed missing_headers
  authenticate_request now request seen =
      if not (is_empty (missing_headers request))
      then (raised (missing_auth (missing_headers request)), seen)
      else headed now request request.api_key request.timestamp request.signature seen
