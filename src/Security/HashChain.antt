-- ===== src/Security/HashChain.antt =====
-- backend/src/lumine/security/hashchain.py. A row is a dictionary of column values. SHA-256, the
-- encoding of texts, `json.dumps` with sorted keys and the texts of numbers, decimals and instants
-- are the standard library's, and enter as a record. A hash, like every function here that
-- canonicalizes, is `none` where a naive datetime raises `ValueError`.

use lumine_hedge_fund.Prelude.{
  ℕ, ℤ, Bool, true, false, Option, none, some, List, [], ◌∷◌, ◌++◌, String, Dict, lookup, insert,
  erase,
}
use lumine_hedge_fund.Decimal.{Decimal}

mutual
  pub data Value : Type 0 where
    null : Value
    flag : Bool → Value
    int : ℤ → Value
    decimal : Decimal → Value
    text : String → Value
    uuid : String → Value
    -- A datetime: whether it has a time zone, and the instant.
    instant : Bool → ℕ → Value
    -- A value of another type, such as a float, by the text that `json.dumps` gives it.
    other : String → Value
    list : Values → Value
    dict : Fields → Value

  pub data Values : Type 0 where
    nil : Values
    cons : Value → Values → Values

  pub data Fields : Type 0 where
    end : Fields
    field : String → Value → Fields → Fields

abbrev pub Row : Type 0
Row = Dict Value

-- What the standard library computes here. `normalized` is `str` of a normalized decimal, `iso_utc`
-- the ISO text of an instant in UTC with a Z, and `str` the text of a value.
pub record Library : Type 0 where
  pub sha256_hex : List ℕ → String
  pub encode : String → List ℕ
  pub dumps : Row → List ℕ
  pub normalized : Decimal → String
  pub iso_utc : ℕ → String
  pub str : Value → String

abbrev pub mapped : {A B : Type 0} → (A → B) → Option A → Option B
mapped f none = none
mapped f (some a) = some (f a)

abbrev pub mapped₂ : {A B C : Type 0} → (A → B → C) → Option A → Option B → Option C
mapped₂ f none b = none
mapped₂ f (some a) none = none
mapped₂ f (some a) (some b) = some (f a b)

module _ (lib : Library) where
  -- `_canonicalize_ts`
  unfoldable pub canonicalize_ts : Bool → ℕ → Option Value
  canonicalize_ts true t = some (text (lib.iso_utc t))
  canonicalize_ts false t = none

  -- `_canonicalize_value`
  unfoldable mutual
    unfolding canonicalize_ts

    pub canonicalize_value : Value → Option Value
    canonicalize_value null = some null
    canonicalize_value (flag b) = some (flag b)
    canonicalize_value (int n) = some (int n)
    canonicalize_value (decimal d) = some (text (lib.normalized d))
    canonicalize_value (text s) = some (text s)
    canonicalize_value (uuid s) = some (text s)
    canonicalize_value (instant aware t) = canonicalize_ts aware t
    canonicalize_value (other s) = some (other s)
    canonicalize_value (list vs) = mapped list (canonicalize_values vs)
    canonicalize_value (dict fs) = mapped dict (canonicalize_fields fs)

    pub canonicalize_values : Values → Option Values
    canonicalize_values nil = some nil
    canonicalize_values (cons v vs) = mapped₂ cons (canonicalize_value v) (canonicalize_values vs)

    pub canonicalize_fields : Fields → Option Fields
    canonicalize_fields end = some end
    canonicalize_fields (field k v fs) =
        mapped₂ (field k) (canonicalize_value v) (canonicalize_fields fs)

  abbrev pub keyed : String → Value → Row → Row
  keyed k v row = (k, v) ∷ row

  unfoldable pub canonicalize_row : Row → Option Row
  canonicalize_row [] = some []
  canonicalize_row ((k, v) ∷ row) = mapped₂ (keyed k) (canonicalize_value v) (canonicalize_row row)

  -- The payload of `canonical_json`: every column but `self_hash`, in canonical form.
  unfoldable pub payload : Row → Option Row
  payload row = canonicalize_row (erase "self_hash" row)

  unfoldable pub canonical_json : Row → Option (List ℕ)
  unfolding payload
  canonical_json row = mapped lib.dumps (payload row)

  abbrev pub digest_of : String → List ℕ → String
  digest_of prev_hash json = lib.sha256_hex (lib.encode prev_hash ++ json)

  unfoldable pub compute_self_hash : String → Row → Option String
  unfolding canonical_json
  compute_self_hash prev_hash row = mapped (digest_of prev_hash) (canonical_json row)

  unfoldable pub present_row_for_hash : Row → String → Row
  present_row_for_hash row prev_hash = insert "prev_hash" (text prev_hash) (erase "self_hash" row)

  -- The self hash of the pair; the previous hash is the argument.
  unfoldable pub compute_chain_pair : Row → String → Option String
  unfolding compute_self_hash present_row_for_hash
  compute_chain_pair row prev_hash =
      compute_self_hash prev_hash (present_row_for_hash row prev_hash)

  unfoldable pub genesis_prev_hash : String
  genesis_prev_hash = lib.sha256_hex (lib.encode "GENESIS")

  -- A column read as a text: `str(row.get(key, ""))`.
  unfoldable pub str_or_empty : Option Value → String
  str_or_empty none = ""
  str_or_empty (some v) = lib.str v

  unfoldable pub column : String → Row → String
  unfolding str_or_empty
  column key row = str_or_empty (lookup key row)

  -- `read_last_hash`, of the table's rows in replay order.
  unfoldable pub last_hash_from : String → List Row → String
  unfolding column
  last_hash_from head [] = head
  last_hash_from head (row ∷ rows) = last_hash_from (column "self_hash" row) rows

  unfoldable pub read_last_hash : List Row → String
  unfolding last_hash_from genesis_prev_hash
  read_last_hash rows = last_hash_from genesis_prev_hash rows

  -- The row as the caller of `append_chained` stores it, with both hashes.
  unfoldable pub stored : Row → String → String → Row
  stored row prev_hash self_hash =
      insert "self_hash" (text self_hash)
        (insert "prev_hash" (text prev_hash) (erase "self_hash" row))

  -- `append_chained` under the chain lock, and the INSERT; none where hashing raises.
  unfoldable pub append_chained : List Row → Row → Option (List Row)
  unfolding compute_chain_pair read_last_hash stored
  append_chained rows row =
      let prev_hash = read_last_hash rows in
      mapped (λ self_hash. rows ++ stored row prev_hash self_hash ∷ [])
        (compute_chain_pair row prev_hash)
