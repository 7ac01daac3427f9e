-- ===== src/Security/Verifier.antt =====
-- backend/src/lumine/security/verifier.py: the verification of a chained table. Reading the tables,
-- the command line and the WORM payloads are not modelled.
pub mod Linked
pub mod Tamper
pub mod Appended
mod Tests
use Prim.Native.Char.{code}
use Prim.Native.String
use lumine_hedge_fund.Prelude.{
  ℕ, ◌+◌, Bool, true, false, not, ◌&&◌, ◌||◌, Option, none, some, List, [], ◌∷◌, ◌++◌, String,
  str_eq, ltb, ◌==◌, if◌then◌else◌, Dict, lookup, contains, length, pos, is_empty,
}
use lumine_hedge_fund.Decimal.{of_int, le}
use lumine_hedge_fund.Security.HashChain.{
  Value, flag, int, decimal, text, Row, Library, mapped, compute_chain_pair, genesis_prev_hash,
  column,
}

-- `CHAINED_TABLES`, `CHAIN_ORDER_COLUMN` and `CHAIN_PK_COLUMN`
pub record ChainedTable : Type 0 where
  pub table_name : String
  pub order_column : String
  pub pk_column : String

abbrev pub chained_tables : List ChainedTable
chained_tables =
    record { table_name = "lineage_records"; order_column = "created_at"; pk_column = "lineage_id" }
    ∷ record { table_name = "workflow_journal"; order_column = "ts"; pk_column = "id" }
    ∷ record { table_name = "reasoning_traces"; order_column = "ts"; pk_column = "trace_id" }
    ∷ []

unfoldable pub find_table : String → List ChainedTable → Option ChainedTable
find_table name [] = none
find_table name (t ∷ ts) = if str_eq t.table_name name then some t else find_table name ts

-- A failure: its kind, the row's position, and the hashes that the message shows.
pub data Failure : Type 0 where
  unsupported_version ordering_violation : ℕ → Failure
  prev_hash_mismatch self_hash_mismatch : ℕ → String → String → Failure

pub record VerificationResult : Type 0 where
  pub table_name : String
  pub row_count : ℕ
  pub head_hash : Option String
  pub failures : List Failure

unfoldable pub valid : VerificationResult → Bool
valid r = is_empty r.failures

-- `version != CANONICALIZATION_VERSION`, whose absence counts as the version. A bool is a number.
unfoldable pub is_version : Option Value → Bool
is_version none = true
is_version (some (int (pos n))) = n == 1
is_version (some (flag b)) = b
is_version (some (decimal d)) = le d (of_int 1) && le (of_int 1) d
is_version (some v) = false

-- `a <= b` on texts, by code points.
codes_le : List ℕ → List ℕ → Bool
codes_le [] b = true
codes_le (x ∷ a) [] = false
codes_le (x ∷ a) (y ∷ b) =
    let rest = codes_le a b in if ltb x y then true else if x == y then rest else false

codes : String → List ℕ
codes String.[] = []
codes (String.◌∷◌ c s) = code c ∷ codes s

-- The order key of a row: the text of the write clock, and of the row's identifier.
abbrev pub OrderKey : Type 0
OrderKey = String × String

unfoldable pub key_le : OrderKey → OrderKey → Bool
unfolding codes_le codes
key_le (a, b) (c, d) =
    if str_eq a c then codes_le (codes b) (codes d) else codes_le (codes a) (codes c)

unfoldable pub out_of_order : OrderKey → Option OrderKey → Bool
out_of_order key none = false
out_of_order key (some previous) = key_le key previous

unfoldable pub noted : Bool → Failure → List Failure
noted test failure = if test then failure ∷ [] else []

-- The loop's variables.
pub record Cursor : Type 0 where
  pub previous : String
  pub previous_order : Option OrderKey
  pub head_hash : Option String
  pub position : ℕ

module _ (lib : Library) (table : ChainedTable) where
  unfoldable pub id_or_position : Option Value → ℕ → String
  id_or_position none position = lib.str (int (pos position))
  id_or_position (some v) position = lib.str v

  unfoldable pub id_of : Option Value → Row → ℕ → String
  id_of none row position = id_or_position (lookup "id" row) position
  id_of (some v) row position = lib.str v

  -- `str(row.get(pk_column, row.get("id", position)))`
  unfoldable pub row_id : Row → ℕ → String
  unfolding id_of id_or_position
  row_id row position = id_of (lookup table.pk_column row) row position

  unfoldable pub order_key : Row → ℕ → OrderKey
  unfolding row_id
  order_key row position = (column lib table.order_column row, row_id row position)

  -- The tests on one row, with the hash that it should carry.
  unfoldable pub row_failures : Cursor → Row → String → List Failure
  unfolding noted
  row_failures c row expected_self =
      let stored_prev = column lib "prev_hash" row in
      let stored_self = column lib "self_hash" row in
      noted (not (is_version (lookup "canonicalization_version" row)))
        (unsupported_version c.position)
      ++ (noted (out_of_order (order_key row c.position) c.previous_order)
            (ordering_violation c.position)
          ++ (noted (not (str_eq stored_prev c.previous))
                (prev_hash_mismatch c.position c.previous stored_prev)
              ++ noted (not (str_eq stored_self expected_self))
                  (self_hash_mismatch c.position expected_self stored_self)))

  unfoldable pub advanced : Cursor → Row → Cursor
  advanced c row =
      let stored_self = column lib "self_hash" row in
      record {
        previous = stored_self;
        previous_order = some (order_key row c.position);
        head_hash = some stored_self;
        position = c.position + 1;
      }

  -- The loop; none where a row cannot be hashed.
  unfoldable pub verify_from : Cursor → List Row → Option (Cursor × List Failure)
  unfolding advanced
  verify_from c [] = some (c, [])
  verify_from c (row ∷ rows) =
      let rest = verify_from (advanced c row) rows in
      elim (compute_chain_pair lib row (column lib "prev_hash" row)) [
        | none ↦ none
        | some expected_self ↦
            mapped (λ (p : Cursor × List Failure). (p.0, row_failures c row expected_self ++ p.1))
              rest
      ]

  unfoldable pub start : Cursor
  start = record {
    previous = genesis_prev_hash lib;
    previous_order = none;
    head_hash = none;
    position = 1;
  }

  unfoldable pub verify_rows : List Row → Option VerificationResult
  unfolding verify_from start
  verify_rows rows =
      mapped
        (λ (p : Cursor × List Failure). record {
          table_name = table.table_name;
          row_count = length rows;
          head_hash = p.0.head_hash;
          failures = p.1;
        })
        (verify_from start rows)

-- The whole function: `ValueError` for a table that is not chained, and for a naive datetime.
pub data Verified : Type 0 where
  unsupported_table unhashable_row : Verified
  verified : VerificationResult → Verified

unfoldable pub or_unhashable : Option VerificationResult → Verified
or_unhashable none = unhashable_row
or_unhashable (some r) = verified r

unfoldable pub verify_in : Library → Option ChainedTable → List Row → Verified
unfolding or_unhashable
verify_in lib none rows = unsupported_table
verify_in lib (some table) rows = or_unhashable (verify_rows lib table rows)

unfoldable pub verify_table : Library → String → List Row → Verified
unfolding verify_in
verify_table lib table_name rows = verify_in lib (find_table table_name chained_tables) rows
