-- ===== src/Security/Verifier/Appended.antt =====
-- The rows that hashchain.py's `append_chained` appends, before verifier.py's `verify_rows`.
use lumine_hedge_fund.Prelude.{
  ℕ, ◌≡◌, inl, inr, refl, sym, ◌∙◌, ap, true, false, Option, none, some, List, [], ◌∷◌, ◌++◌,
  String, str_eq, eq_iff, arith, Bool-cases, Dict, lookup, insert, erase, lookup-insert,
  lookup-erase, All,
}
use lumine_hedge_fund.Security.HashChain.{
  Value, text, Row, Library, compute_self_hash, canonical_json, payload, present_row_for_hash,
  compute_chain_pair, str_or_empty, column, last_hash_from, read_last_hash, stored, append_chained,
}
use lumine_hedge_fund.Security.Verifier.{
  ChainedTable, VerificationResult, valid, verify_rows, Cursor, is_version, out_of_order, order_key,
  row_id, id_of, find_table, chained_tables, advanced, start,
}
use lumine_hedge_fund.Security.Verifier.Linked.{Continues, IsChain, behind, verify_rows-valid_iff}
use lumine_hedge_fund.Security.Verifier.Tamper.{mapped-some}

module _ {ℓ} {V : Type ℓ} where
  erase-insert : (k : String) (v : V) (d : Dict V) → erase k (insert k v d) ≡ erase k d
  unfolding erase insert
  erase-insert k v [] = ground (arith, eq_iff k k)
  erase-insert k v ((j, w) ∷ d) = ground (arith, eq_iff k k, eq_iff j k, erase-insert k v d)

  erase-erase : (k : String) (d : Dict V) → erase k (erase k d) ≡ erase k d
  unfolding erase
  erase-erase k [] = refl
  erase-erase k ((j, w) ∷ d) = ground (arith, eq_iff j k, erase-erase k d)

  insert-insert : (k : String) (v w : V) (d : Dict V) → insert k v (insert k w d) ≡ insert k v d
  unfolding insert
  insert-insert k v w [] = ground (arith, eq_iff k k)
  insert-insert k v w ((j, x) ∷ d) = ground (arith, eq_iff k k, eq_iff j k, insert-insert k v w d)

  erase-insert_other :
      (k j : String) (v : V) (d : Dict V)
      → str_eq j k ≡ false
      → erase k (insert j v d) ≡ insert j v (erase k d)
  unfolding erase insert
  erase-insert_other k j v [] h = ground arith
  erase-insert_other k j v ((i, x) ∷ d) h =
      ground (arith, eq_iff i j, eq_iff i k, erase-insert_other k j v d h)

-- The columns that order a table are none of the two hashes.
abbrev IsPlain : String → Type 0
IsPlain column_name =
    (str_eq "self_hash" column_name ≡ false) × (str_eq "prev_hash" column_name ≡ false)

HasPlainKey : ChainedTable → Type 0
HasPlainKey table = IsPlain table.order_column × IsPlain table.pk_column

find_table-HasPlainKey :
    (name : String) (tables : List ChainedTable) {table : ChainedTable}
    → All HasPlainKey tables
    → find_table name tables ≡ some table
    → HasPlainKey table
unfolding find_table
find_table-HasPlainKey name [] all h = absurd cc
find_table-HasPlainKey name (t ∷ ts) {table} all h = elim (Bool-cases (str_eq t.table_name name)) [
  | inl e ↦ let same : t ≡ table = ground (arith, e) in rw (sym same) all.0
  | inr e ↦ find_table-HasPlainKey name ts all.1 (rw e at h)
]

chained_tables-HasPlainKey : All HasPlainKey chained_tables
unfolding HasPlainKey
chained_tables-HasPlainKey = (
  ((refl, refl), (refl, refl)),
  (((refl, refl), (refl, refl)), (((refl, refl), (refl, refl)), tt)),
)

module _ (lib : Library) where
  -- The hash of a stored row, with the previous hash that it stores, is the one it was appended with.
  hash_of_stored :
      (row : Row) (prev self : String)
      → compute_chain_pair lib (stored lib row prev self) prev ≡ compute_chain_pair lib row prev
  unfolding compute_chain_pair compute_self_hash canonical_json payload present_row_for_hash stored
  hash_of_stored row prev self =
      rw
        (
          erase-insert "self_hash" (text self)
              (insert "prev_hash" (text prev) (erase "self_hash" row)),
          erase-insert_other "self_hash" "prev_hash" (text prev) (erase "self_hash" row) refl,
          erase-erase "self_hash" row,
          insert-insert "prev_hash" (text prev) (text prev) (erase "self_hash" row),
          erase-insert_other "self_hash" "prev_hash" (text prev) (erase "self_hash" row) refl,
          erase-erase "self_hash" row,
        )
        refl

  last_hash_from-behind :
      (table : ChainedTable) (c : Cursor) (rows : List Row)
      → last_hash_from lib c.previous rows ≡ (behind lib table c rows).previous
  unfolding last_hash_from advanced
  last_hash_from-behind table c [] = refl
  last_hash_from-behind table c (row ∷ rows) =
      last_hash_from-behind table (advanced lib table c row) rows

  IsChain-snoc :
      (table : ChainedTable) (c : Cursor) (rows : List Row) (row : Row)
      → IsChain lib table c rows
      → Continues lib table (behind lib table c rows) row
      → IsChain lib table c (rows ++ row ∷ [])
  IsChain-snoc table c [] row h k = (k, tt)
  IsChain-snoc table c (r ∷ rows) row h k =
      (h.0, IsChain-snoc table (advanced lib table c r) rows row h.1 k)

  -- A column that is none of the two hashes is the row's own.
  lookup-stored :
      (k : String) (row : Row) (prev self : String)
      → str_eq "self_hash" k ≡ false
      → str_eq "prev_hash" k ≡ false
      → lookup k (stored lib row prev self) ≡ lookup k row
  unfolding stored
  lookup-stored k row prev self h g =
      rw
        (
          lookup-insert "self_hash" k (text self)
              (insert "prev_hash" (text prev) (erase "self_hash" row)),
          h,
          lookup-insert "prev_hash" k (text prev) (erase "self_hash" row),
          g,
          lookup-erase "self_hash" k row,
          h,
        )
        refl

  prev_hash-stored :
      (row : Row) (prev self : String)
      → lookup "prev_hash" (stored lib row prev self) ≡ some (text prev)
  unfolding stored
  prev_hash-stored row prev self =
      rw
        (
          lookup-insert "self_hash" "prev_hash" (text self)
              (insert "prev_hash" (text prev) (erase "self_hash" row)),
          lookup-insert "prev_hash" "prev_hash" (text prev) (erase "self_hash" row),
        )
        refl

  self_hash-stored :
      (row : Row) (prev self : String)
      → lookup "self_hash" (stored lib row prev self) ≡ some (text self)
  unfolding stored
  self_hash-stored row prev self =
      rw
        (lookup-insert "self_hash" "self_hash" (text self)
          (insert "prev_hash" (text prev) (erase "self_hash" row)))
        refl

  id_of-stored :
      (table : ChainedTable) (o : Option Value) (row : Row) (prev self : String) (n : ℕ)
      → id_of lib table o (stored lib row prev self) n ≡ id_of lib table o row n
  unfolding id_of
  id_of-stored table none row prev self n = rw (lookup-stored "id" row prev self refl refl) refl
  id_of-stored table (some v) row prev self n = refl

  module _ (str-text : (s : String) → lib.str (text s) ≡ s) where
    order_key-stored :
        (name : String) {table : ChainedTable}
        → find_table name chained_tables ≡ some table
        → (row : Row) (prev self : String) (n : ℕ)
        → order_key lib table (stored lib row prev self) n ≡ order_key lib table row n
    unfolding order_key row_id column HasPlainKey
    order_key-stored name {table} h row prev self n =
        let (p, q) = find_table-HasPlainKey name chained_tables chained_tables-HasPlainKey h in
        rw
          (
            lookup-stored table.order_column row prev self p.0 p.1,
            lookup-stored table.pk_column row prev self q.0 q.1,
            id_of-stored table (lookup table.pk_column row) row prev self n,
          )
          refl

    stored-Continues :
        (table : ChainedTable) (c : Cursor) (row : Row) (self : String)
        → compute_chain_pair lib row c.previous ≡ some self
        → is_version (lookup "canonicalization_version" row) ≡ true
        → out_of_order
            (order_key lib table (stored lib row c.previous self) c.position)
            c.previous_order
          ≡ false
        → Continues lib table c (stored lib row c.previous self)
    unfolding column str_or_empty
    stored-Continues table c row self h v o = record {
      versioned = rw (lookup-stored "canonicalization_version" row c.previous self refl refl) v;
      ordered = o;
      linked = rw (prev_hash-stored row c.previous self) (str-text c.previous);
      hashed =
          rw
            (
              self_hash-stored row c.previous self,
              hash_of_stored row c.previous self,
              str-text self,
            )
            h;
    }

    -- Appending to a valid chained table with `append_chained` gives a valid table, if the row has
    -- the known version and comes after the table's last row. The text of a text is taken to be
    -- that text.
    pub append_chained-valid :
        (name : String) (table : ChainedTable) (rows rows' : List Row) (row : Row)
        (r : VerificationResult)
        → find_table name chained_tables ≡ some table
        → verify_rows lib table rows ≡ some r
        → valid r ≡ true
        → append_chained lib rows row ≡ some rows'
        → is_version (lookup "canonicalization_version" row) ≡ true
        → out_of_order
            (order_key lib table row (behind lib table (start lib table) rows).position)
            (behind lib table (start lib table) rows).previous_order
          ≡ false
        → (r' : VerificationResult) × (verify_rows lib table rows' ≡ some r') × (valid r' ≡ true)
    unfolding append_chained read_last_hash start
    append_chained-valid name table rows rows' row r known h v appended versioned ordered =
        let chain = (verify_rows-valid_iff lib table rows).0 (r, h, v) in
        let last = behind lib table (start lib table) rows in
        let e : read_last_hash lib rows ≡ last.previous =
          last_hash_from-behind table (start lib table) rows in
        let (self, hashed, p) =
          mapped-some (λ self. rows ++ stored lib row (read_last_hash lib rows) self ∷ [])
            (compute_chain_pair lib row (read_last_hash lib rows)) appended in
        let here =
          stored-Continues table last row self (rw e at hashed) versioned
            (rw (order_key-stored name known row last.previous self last.position) ordered) in
        let snoc =
          IsChain-snoc table (start lib table) rows (stored lib row last.previous self) chain
            here in
        let same : rows' ≡ rows ++ stored lib row last.previous self ∷ [] =
          p ∙ ap (λ q. rows ++ stored lib row q self ∷ []) e in
        rw same (
          (verify_rows-valid_iff lib table (rows ++ stored lib row last.previous self ∷ [])).1 snoc)
