-- ===== src/Api/Idempotency.antt =====
-- backend/src/lumine/api/middleware/idempotency.py. Times are microseconds. The downstream app, the
-- SHA-256 of a body, `json.loads` and `json.dumps` are parameters; a response is its status and the
-- chunks of its body. The body of a request is given whole.
pub mod Replay
pub mod Capture
mod Tests
use Prim.Native.String.{◌++◌ as ◌++ₛ◌}
use lumine_hedge_fund.Prelude.{
  ℕ, ◌+◌, ◌*◌, Bool, true, false, not, ◌&&◌, ◌||◌, Option, none, some, List, [], ◌∷◌, ◌++◌, String,
  str_eq, ltb, leb, if◌then◌else◌, Dict, lookup, insert, erase,
}
use lumine_hedge_fund.Api.Envelope.{Json, payload_of}

abbrev pub Bytes : Type 0
Bytes = List ℕ

-- `_IDEMPOTENCY_TTL_S`, in microseconds.
abbrev pub idempotency_ttl : ℕ
idempotency_ttl = 3600 * 1000000

pub record Request : Type 0 where
  pub is_http : Bool
  pub method : String
  pub path : String
  pub query_string : String
  pub api_key : Option String
  pub idempotency_key : Option String
  pub body : Bytes

pub record Response : Type 0 where
  pub status_code : ℕ
  pub chunks : List Bytes

pub record Record : Type 0 where
  pub created_at : ℕ
  pub body_hash : String
  pub status_code : ℕ
  pub body : Bytes

-- A value in Redis until it expires; `none` is a text that is not JSON.
pub record Entry : Type 0 where
  pub expires : ℕ
  pub cached : Option Record

-- The keys in Redis, and the requests that reached the app.
pub record State : Type 0 where
  pub store : Dict Entry
  pub calls : List Request

pub record Environment : Type 0 where
  pub now : ℕ
  pub answered_at : ℕ
  pub get_fails : Bool
  pub set_fails : Bool
  pub delete_fails : Bool

pub record Library : Type 0 where
  pub app : Request → Response
  pub sha256_hex : Bytes → String
  pub is_utf8 : Bytes → Bool
  pub loads : Bytes → Option Json
  pub dumps : Json → Bytes

pub data Sent : Type 0 where
  forwarded : Response → Sent
  replayed : ℕ → Bytes → Sent
  conflict : Sent

unfoldable pub joined : List Bytes → Bytes
joined [] = []
joined (chunk ∷ chunks) = chunk ++ joined chunks

unfoldable pub or_anonymous : Option String → String
or_anonymous none = "anonymous"
or_anonymous (some key) = key

unfoldable pub full_path : Request → String
full_path q = if str_eq q.query_string "" then q.path else q.path ++ₛ ("?" ++ₛ q.query_string)

unfoldable pub store_key : Request → String → String
unfolding or_anonymous full_path
store_key q key =
    "lumine:idem:"
    ++ₛ (or_anonymous q.api_key
        ++ₛ (":" ++ₛ (q.method ++ₛ (":" ++ₛ (full_path q ++ₛ (":" ++ₛ key))))))

-- The header, where it is there and not empty.
unfoldable pub given_key : Option String → Option String
given_key none = none
given_key (some key) = if str_eq key "" then none else some key

-- `redis.get`
unfoldable pub live : ℕ → Option Entry → Option Entry
live now none = none
live now (some entry) = if ltb now entry.expires then some entry else none

unfoldable pub is_success : ℕ → Bool
is_success status = leb 200 status && ltb status 300

module _ (lib : Library) where
  -- Straight to the app, without a record.
  unfoldable pub pass : Request → State → Sent × State
  pass q s = (forwarded (lib.app q), record s { calls = s.calls ++ q ∷ [] })

  -- `redis.set` of a response, unless it failed, is no text, or Redis refuses.
  unfoldable pub remember : Environment → String → Request → Response → State → State
  unfolding joined is_success
  remember env key q response s =
      if is_success response.status_code
        && (lib.is_utf8 (joined response.chunks) && not env.set_fails)
      then record s {
        store =
            insert key
              record {
                expires = env.answered_at + idempotency_ttl;
                cached = some record {
                  created_at = env.answered_at;
                  body_hash = lib.sha256_hex q.body;
                  status_code = response.status_code;
                  body = joined response.chunks;
                };
              }
              s.store;
      }
      else s

  unfoldable pub forward : Environment → String → Request → State → Sent × State
  unfolding remember
  forward env key q s = (
    forwarded (lib.app q),
    remember env key q (lib.app q) (record s { calls = s.calls ++ q ∷ [] }),
  )

  unfoldable pub delete : Environment → String → State → State
  delete env key s = if env.delete_fails then s else record s { store = erase key s.store }

  unfoldable pub with_record : Environment → String → Request → Option Record → State → Sent × State
  unfolding forward delete payload_of
  with_record env key q none s = forward env key q (delete env key s)
  with_record env key q (some r) s =
      if leb env.now (r.created_at + idempotency_ttl)
      then (
        if str_eq r.body_hash (lib.sha256_hex q.body)
            then replayed r.status_code (payload_of lib.loads lib.dumps r.body)
            else conflict,
        s,
      )
      else forward env key q (delete env key s)

  unfoldable pub with_entry : Environment → String → Request → Option Entry → State → Sent × State
  unfolding with_record forward
  with_entry env key q none s = forward env key q s
  with_entry env key q (some entry) s = with_record env key q entry.cached s

  unfoldable pub keyed : Environment → Option String → Request → State → Sent × State
  unfolding with_entry live pass store_key
  keyed env none q s = pass q s
  keyed env (some key) q s =
      if env.get_fails
      then pass q s
      else with_entry env (store_key q key) q (live env.now (lookup (store_key q key) s.store)) s

  -- `IdempotencyMiddleware.__call__`
  unfoldable pub call : Environment → Request → State → Sent × State
  unfolding keyed given_key pass
  call env q s =
      if q.is_http && str_eq q.method "POST"
      then keyed env (given_key q.idempotency_key) q s
      else pass q s
