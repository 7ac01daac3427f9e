-- ===== src/AutogenPipeline/Backfill/Broken.antt =====
-- The hash chain after the UPDATE statements of orchestrator.py: hashchain.py covers every column.
use lumine_hedge_fund.Prelude.{
  ℕ, ◌≡◌, ◌≢◌, ◌⊎◌, inl, inr, refl, sym, ◌∙◌, ap, Bool, true, false, Option, none, some, List, [],
  ◌∷◌, String, eq_iff, arith, Bool-cases, lookup, insert, erase, lookup-insert, lookup-erase,
  length, Any, if◌then◌else◌,
}
use lumine_hedge_fund.Security.HashChain.{
  Value, null, text, uuid, Row, Library, mapped₂, keyed, canonicalize_value, canonicalize_row,
  payload, canonical_json, compute_self_hash, compute_chain_pair, present_row_for_hash,
  str_or_empty, column,
}
use lumine_hedge_fund.Security.Verifier.{
  ChainedTable, VerificationResult, valid, Cursor, advanced, start, verify_rows,
}
use lumine_hedge_fund.Security.Verifier.Linked.{
  Continues, IsChain, behind, verify_rows-valid_iff, head_of_valid,
}
use lumine_hedge_fund.Security.Verifier.Tamper.{
  Collision, SameRows, hashed_text, mapped-some, verify_rows-tamper_evident,
}
use lumine_hedge_fund.AutogenPipeline.Backfill.{with_lineage, update_where, is_text, link_journal}

-- A row that the statement selects, and that was hashed while it had no lineage.
abbrev pub IsUnlinked : (Row → Bool) → Row → Type 0
IsUnlinked selected row = (selected row ≡ true) × (lookup "lineage_id" row ≡ some null)

length-update_where :
    (selected : Row → Bool) (lineage_id : String) (rows : List Row)
    → length (update_where selected lineage_id rows) ≡ length rows
unfolding update_where
length-update_where selected lineage_id [] = refl
length-update_where selected lineage_id (row ∷ rows) =
    omega (arith, length-update_where selected lineage_id rows)

mapped₂-some :
    {A B C : Type 0} (f : A → B → C) (a : Option A) (b : Option B) {c : C}
    → mapped₂ f a b ≡ some c
    → (x : A) × (y : B) × (a ≡ some x) × (b ≡ some y) × (c ≡ f x y)
mapped₂-some f none b h = absurd cc
mapped₂-some f (some x) none h = absurd cc
mapped₂-some f (some x) (some y) h = (x, y, refl, refl, cc)

module _ (lib : Library) where
  lookup-canonicalize_row :
      (k : String) (v : Value) (row : Row) {canonical : Row}
      → canonicalize_row lib row ≡ some canonical
      → lookup k row ≡ some v
      → lookup k canonical ≡ canonicalize_value lib v
  unfolding canonicalize_row lookup
  lookup-canonicalize_row k v [] h e = absurd cc
  lookup-canonicalize_row k v ((j, w) ∷ row) h e =
      let (w', row', ew, er, ec) =
        mapped₂-some (keyed lib j) (canonicalize_value lib w) (canonicalize_row lib row) h in
      ground (arith, lookup-canonicalize_row k v row er, ew, ec)

  lookup-payload :
      (prev : String) (v : Value) (row : Row) {canonical : Row}
      → payload lib (present_row_for_hash lib row prev) ≡ some canonical
      → lookup "lineage_id" row ≡ some v
      → lookup "lineage_id" canonical ≡ canonicalize_value lib v
  unfolding payload present_row_for_hash
  lookup-payload prev v row h e = lookup-canonicalize_row "lineage_id" v _ h (
      lookup-erase "self_hash" "lineage_id" (insert "prev_hash" (text prev) (erase "self_hash" row))
      ∙ lookup-insert "prev_hash" "lineage_id" (text prev) (erase "self_hash" row)
      ∙ lookup-erase "self_hash" "lineage_id" row
      ∙ e)

  column-with_lineage :
      (lineage_id : String) (row : Row)
      → column lib "self_hash" (with_lineage lineage_id row) ≡ column lib "self_hash" row
  unfolding column with_lineage
  column-with_lineage lineage_id row =
      ap (str_or_empty lib) (lookup-insert "lineage_id" "self_hash" (uuid lineage_id) row)

  lookup-with_lineage :
      (lineage_id : String) (row : Row)
      → lookup "lineage_id" (with_lineage lineage_id row) ≡ some (uuid lineage_id)
  unfolding with_lineage
  lookup-with_lineage lineage_id row = lookup-insert "lineage_id" "lineage_id" (uuid lineage_id) row

  -- `json.dumps` tells a null from a text under one key.
  abbrev pub TellsNull : Type 0
  TellsNull =
      (a b : Row) (s : String)
      → lookup "lineage_id" a ≡ some null
      → lookup "lineage_id" b ≡ some (text s)
      → lib.dumps a ≢ lib.dumps b

  module _ (tells_null : TellsNull) (table : ChainedTable) where
    -- A row of a chain has another canonical text once it has a lineage.
    linked_text :
        (c : Cursor) (prev lineage_id : String) (row : Row)
        → Continues lib table c row
        → lookup "lineage_id" row ≡ some null
        → hashed_text lib row c.previous ≢ hashed_text lib (with_lineage lineage_id row) prev
    unfolding compute_chain_pair compute_self_hash canonical_json canonicalize_value
    linked_text c prev lineage_id row k unlinked same =
        let linked = with_lineage lineage_id row in
        let (j, hashed, _) = mapped-some _ (hashed_text lib row c.previous) (Continues.hashed k) in
        let (p, payload_p, j_p) =
          mapped-some lib.dumps (payload lib (present_row_for_hash lib row c.previous)) hashed in
        let (q, payload_q, j_q) =
          mapped-some lib.dumps (payload lib (present_row_for_hash lib linked prev))
            (sym same ∙ hashed) in
        tells_null p q lineage_id (lookup-payload c.previous null row payload_p unlinked)
          (lookup-payload prev (uuid lineage_id) linked payload_q
            (lookup-with_lineage lineage_id row))
          (sym j_p ∙ j_q)

    module _ (selected : Row → Bool) (lineage_id : String) where
      abbrev updated : List Row → List Row
      updated = update_where selected lineage_id

      abbrev updated_row : Row → Row
      updated_row row = if selected row then with_lineage lineage_id row else row

      self_hash-updated :
          (row : Row) → column lib "self_hash" (updated_row row) ≡ column lib "self_hash" row
      self_hash-updated row = elim (Bool-cases (selected row)) [
        | inl e ↦ rw e (column-with_lineage lineage_id row)
        | inr e ↦ rw e refl
      ]

      behind-updated :
          (c d : Cursor) (rows : List Row)
          → d.previous ≡ c.previous
          → (behind lib table d (updated rows)).previous ≡ (behind lib table c rows).previous
      unfolding update_where advanced
      behind-updated c d [] e = e
      behind-updated c d (row ∷ rows) e =
          behind-updated (advanced lib table c row) (advanced lib table d (updated_row row)) rows
            (self_hash-updated row)

      not_same :
          (c d : Cursor) (rows : List Row)
          → IsChain lib table c rows
          → Any (IsUnlinked selected) rows
          → SameRows lib table c rows d (updated rows)
          → ⊥
      unfolding update_where
      not_same c d [] chain found same = elim found [ ]
      not_same c d (row ∷ rows) chain (inl (e, unlinked)) same =
          linked_text c d.previous lineage_id row chain.0 unlinked (rw e at same.1)
      not_same c d (row ∷ rows) chain (inr found) same =
          not_same (advanced lib table c row) (advanced lib table d (updated_row row)) rows chain.1
            found same.2

module _ (lib : Library)
    (digest_length : (b : List ℕ) → length (lib.encode (lib.sha256_hex b)) ≡ 64)
    (encode-injective : (s t : String) → lib.encode s ≡ lib.encode t → s ≡ t)
    (tells_null : TellsNull lib) where
  -- After an UPDATE of a lineage that was null, a table that verified no longer does.
  update_where-broken :
      (table : ChainedTable) (selected : Row → Bool) (lineage_id : String) (rows : List Row)
      (r r' : VerificationResult)
      → verify_rows lib table rows ≡ some r
      → valid r ≡ true
      → Any (IsUnlinked selected) rows
      → verify_rows lib table (update_where selected lineage_id rows) ≡ some r'
      → (valid r' ≡ false) ⊎ Collision lib
  unfolding update_where
  update_where-broken table selected lineage_id [] r r' h v found h' = elim found [ ]
  update_where-broken table selected lineage_id (row ∷ rows) r r' h v found h' =
      elim (Bool-cases (valid r')) [
        | inr broken ↦ inl broken
        | inl v' ↦
            let linked = update_where selected lineage_id (row ∷ rows) in
            let first = start lib table in
            let chain = (verify_rows-valid_iff lib table (row ∷ rows)).0 (r, h, v) in
            let chain' = (verify_rows-valid_iff lib table linked).0 (r', h', v') in
            let behind_both =
              behind-updated lib tells_null table selected lineage_id first first (row ∷ rows)
                refl in
            let head : r.head_hash ≡ r'.head_hash =
              head_of_valid lib table row rows h chain
              ∙ ap some (sym behind_both)
              ∙ sym (head_of_valid lib table _ _ h' chain') in
            elim (verify_rows-tamper_evident lib digest_length encode-injective table (row ∷ rows)
              linked r r' h h' v v' (sym (length-update_where selected lineage_id (row ∷ rows)))
              head) [
                | inr collision ↦ inr collision
                | inl same ↦ absurd (
                    not_same lib tells_null table selected lineage_id first first (row ∷ rows) chain
                      found same)
              ]
      ]

  -- A row of the workflow that was journaled with no lineage yet.
  abbrev pub IsCheckpoint : String → Row → Type 0
  IsCheckpoint workflow_id row =
      (lookup "workflow_id" row ≡ some (text workflow_id)) × (lookup "lineage_id" row ≡ some null)

  checkpoints-IsUnlinked :
      (workflow_id : String) (rows : List Row)
      → Any (IsCheckpoint workflow_id) rows
      → Any (IsUnlinked (λ row. is_text workflow_id (lookup "workflow_id" row))) rows
  unfolding is_text
  checkpoints-IsUnlinked workflow_id [] found = elim found [ ]
  checkpoints-IsUnlinked workflow_id (row ∷ rows) (inl (w, l)) =
      inl (rw w ((eq_iff workflow_id workflow_id).1 refl), l)
  checkpoints-IsUnlinked workflow_id (row ∷ rows) (inr found) =
      inr (checkpoints-IsUnlinked workflow_id rows found)

  -- A chained journal that verifies, with a checkpoint of the workflow that was hashed while its
  -- lineage was null: after the UPDATE that links the workflow's rows to the lineage, the table no
  -- longer verifies, or else SHA-256 has a collision. The hex digest is taken to be 64 bytes, the
  -- encoding of texts to be injective, and the JSON of a row to tell a null lineage from a text.
  pub link_journal-broken :
      (table : ChainedTable) (workflow_id lineage_id : String) (rows : List Row)
      (r r' : VerificationResult)
      → verify_rows lib table rows ≡ some r
      → valid r ≡ true
      → Any (IsCheckpoint workflow_id) rows
      → verify_rows lib table (link_journal workflow_id lineage_id rows) ≡ some r'
      → (valid r' ≡ false) ⊎ Collision lib
  unfolding link_journal
  link_journal-broken table workflow_id lineage_id rows r r' h v found h' =
      update_where-broken table _ lineage_id rows r r' h v
        (checkpoints-IsUnlinked workflow_id rows found) h'
