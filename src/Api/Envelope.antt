-- ===== src/Api/Envelope.antt =====
-- The envelope of a stored response: `_replay` of backend/src/lumine/api/middleware/idempotency.py.
-- Of a JSON value, the objects and the truth values are told apart; any other is given by its text.
-- `json.loads` and `json.dumps` are parameters.
pub mod Marked
use lumine_hedge_fund.Prelude.{
  ℕ, ◌≡◌, ◌≢◌, refl, sym, ap, ◌∙◌, arith, eq_iff, ◌⊎◌, inl, inr, Bool, true, false, Option, none,
  some, List, String, str_eq, if◌then◌else◌,
}

mutual
  pub data Json : Type 0 where
    object : Fields → Json
    boolean : Bool → Json
    other : String → Json

  pub data Fields : Type 0 where
    empty : Fields
    field : String → Json → Fields → Fields

unfoldable pub get : String → Fields → Option Json
get key empty = none
get key (field k value fields) =
    let rest = get key fields in if str_eq k key then some value else rest

-- A key keeps its place, and a new one comes last.
unfoldable pub put : String → Json → Fields → Fields
put key value empty = field key value empty
put key value (field k old fields) =
    let rest = put key value fields in
    if str_eq k key then field k value fields else field k old rest

-- `envelope["meta"]["idempotent_replay"] = True`; none where it raises, without a `meta` or where
-- that is no object.
unfoldable pub with_meta : Fields → Option Json → Option Json
unfolding put
with_meta fields none = none
with_meta fields (some (boolean b)) = none
with_meta fields (some (other text)) = none
with_meta fields (some (object meta)) =
    some (object (put "meta" (object (put "idempotent_replay" (boolean true) meta)) fields))

unfoldable pub marked : Option Json → Option Json
unfolding with_meta get
marked none = none
marked (some (boolean b)) = none
marked (some (other text)) = none
marked (some (object fields)) = with_meta fields (get "meta" fields)

unfoldable pub dumped : (Json → List ℕ) → List ℕ → Option Json → List ℕ
dumped dumps body none = body
dumped dumps body (some envelope) = dumps envelope

-- The payload of `_replay`: the marked envelope, or the body as it is.
unfoldable pub payload_of : (List ℕ → Option Json) → (Json → List ℕ) → List ℕ → List ℕ
unfolding dumped marked
payload_of loads dumps body = dumped dumps body (marked (loads body))
