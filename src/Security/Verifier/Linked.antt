-- ===== src/Security/Verifier/Linked.antt =====
-- What the verifier accepts: verifier.py, `verify_rows`.
use lumine_hedge_fund.Prelude.{
  ◌≡◌, refl, ◌↔◌, inl, inr, true, false, Option, none, some, List, [], ◌∷◌, ◌++◌, String, eq_iff,
  arith, Option-cases, lookup, length, is_empty,
}
use lumine_hedge_fund.Security.HashChain.{Row, Library, mapped, compute_chain_pair, column}
use lumine_hedge_fund.Security.Verifier.{
  ChainedTable, Failure, VerificationResult, valid, is_version, out_of_order, Cursor, order_key,
  row_failures, advanced, verify_from, start, verify_rows,
}

module _ (lib : Library) (table : ChainedTable) where
  -- A row continues the chain at the cursor: its version is known, it comes after the row before
  -- it, it carries the hash of that row, and its own hash is that of its content.
  pub record Continues (c : Cursor) (row : Row) : Type 0 where
    pub versioned : is_version (lookup "canonicalization_version" row) ≡ true
    pub ordered : out_of_order (order_key lib table row c.position) c.previous_order ≡ false
    pub linked : column lib "prev_hash" row ≡ c.previous
    pub hashed : compute_chain_pair lib row c.previous ≡ some (column lib "self_hash" row)

  abbrev pub IsChain : Cursor → List Row → Type 0
  IsChain c [] = Unit
  IsChain c (row ∷ rows) = Continues c row × IsChain (advanced lib table c row) rows

  row_failures_sound :
      (c : Cursor) (row : Row) (expected : String)
      → compute_chain_pair lib row (column lib "prev_hash" row) ≡ some expected
      → row_failures lib table c row expected ≡ []
      → Continues c row
  unfolding row_failures
  row_failures_sound c row expected e h = ground (
    arith,
    eq_iff (column lib "prev_hash" row) c.previous,
    eq_iff (column lib "self_hash" row) expected,
  )

  row_failures_complete :
      (c : Cursor) (row : Row)
      → Continues c row
      → row_failures lib table c row (column lib "self_hash" row) ≡ []
  unfolding row_failures
  row_failures_complete c row h = ground (
    arith,
    eq_iff (column lib "prev_hash" row) c.previous,
    eq_iff (column lib "self_hash" row) (column lib "self_hash" row),
  )

  -- The failures of a row in front of those of the rows after it.
  abbrev with_failures : List Failure → Cursor × List Failure → Cursor × List Failure
  with_failures fs p = (p.0, fs ++ p.1)

  verify_from-cons :
      (c : Cursor) (row : Row) (rows : List Row) {expected : String}
      → compute_chain_pair lib row (column lib "prev_hash" row) ≡ some expected
      → verify_from lib table c (row ∷ rows)
        ≡ mapped
            (with_failures (row_failures lib table c row expected))
            (verify_from lib table (advanced lib table c row) rows)
  unfolding verify_from
  verify_from-cons c row rows e = ground (arith, e)

  verify_from-raised :
      (c : Cursor) (row : Row) (rows : List Row)
      → compute_chain_pair lib row (column lib "prev_hash" row) ≡ none
      → verify_from lib table c (row ∷ rows) ≡ none
  unfolding verify_from
  verify_from-raised c row rows e = ground (arith, e)

  append-nil_parts : (xs ys : List Failure) → xs ++ ys ≡ [] → (xs ≡ []) × (ys ≡ [])
  append-nil_parts [] ys h = (refl, h)
  append-nil_parts (x ∷ xs) ys h = cc

  with_failures-clean :
      (fs : List Failure) (rest : Option (Cursor × List Failure)) {c : Cursor}
      → mapped (with_failures fs) rest ≡ some (c, [])
      → (fs ≡ []) × (rest ≡ some (c, []))
  with_failures-clean fs none h = cc
  with_failures-clean fs (some (d, gs)) {c} h =
      let e : fs ++ gs ≡ [] = ground arith in
      let (a, b) = append-nil_parts fs gs e in (a, ground arith)

  verify_from_sound :
      (c : Cursor) (rows : List Row) {c' : Cursor}
      → verify_from lib table c rows ≡ some (c', [])
      → IsChain c rows
  verify_from_sound c [] h = tt
  verify_from_sound c (row ∷ rows) {c'} h =
      elim (Option-cases (compute_chain_pair lib row (column lib "prev_hash" row))) [
        | inl e ↦ absurd (cc (verify_from-raised c row rows e))
        | inr (expected, e) ↦
            let clean =
              with_failures-clean (row_failures lib table c row expected)
                (verify_from lib table (advanced lib table c row) rows)
                (rw (verify_from-cons c row rows e) at h) in
            (
              row_failures_sound c row expected e clean.0,
              verify_from_sound (advanced lib table c row) rows clean.1,
            )
      ]

  -- The cursor behind a chain.
  abbrev pub behind : Cursor → List Row → Cursor
  behind c [] = c
  behind c (row ∷ rows) = behind (advanced lib table c row) rows

  verify_from_complete :
      (c : Cursor) (rows : List Row)
      → IsChain c rows
      → verify_from lib table c rows ≡ some (behind c rows, [])
  verify_from_complete c [] h = unfold verify_from in refl
  verify_from_complete c (row ∷ rows) h =
      let here = h.0 in
      let e : compute_chain_pair lib row (column lib "prev_hash" row)
          ≡ some (column lib "self_hash" row) =
        rw here.linked here.hashed in
      rw (
        verify_from-cons c row rows e,
        row_failures_complete c row here,
        verify_from_complete (advanced lib table c row) rows h.1,
      )

  report : List Row → Cursor × List Failure → VerificationResult
  report rows p = record {
    table_name = table.table_name;
    row_count = length rows;
    head_hash = p.0.head_hash;
    failures = p.1;
  }

  is_empty-nil : (fs : List Failure) → is_empty fs ≡ true → fs ≡ []
  is_empty-nil [] h = refl
  is_empty-nil (f ∷ fs) h = cc

  report-clean :
      (rows : List Row) (found : Option (Cursor × List Failure)) {r : VerificationResult}
      → mapped (report rows) found ≡ some r
      → is_empty r.failures ≡ true
      → (c : Cursor) × (found ≡ some (c, []))
  unfolding report
  report-clean rows none h e = absurd cc
  report-clean rows (some (c, fs)) h e = (c, ground (arith, is_empty-nil fs))

  -- The verifier finds nothing wrong with a table exactly when its rows form one chain from the
  -- genesis hash: every row has the known version, comes strictly after the row before it, carries
  -- that row's hash, and carries the hash of its own content.
  pub verify_rows-valid_iff :
      (rows : List Row)
      → ((r : VerificationResult) × (verify_rows lib table rows ≡ some r) × (valid r ≡ true))
        ↔ IsChain (start lib table) rows
  unfolding verify_rows valid report
  verify_rows-valid_iff rows = (
    λ (r, h, e).
        let (c, found) = report-clean rows (verify_from lib table (start lib table) rows) h e in
        verify_from_sound (start lib table) rows found,
    λ chain. (
      report rows (behind (start lib table) rows, []),
      rw (verify_from_complete (start lib table) rows chain) refl,
      refl,
    ),
  )

  behind-head :
      (c : Cursor) (rows : List Row)
      → c.head_hash ≡ some c.previous
      → (behind c rows).head_hash ≡ some (behind c rows).previous
  behind-head c [] h = h
  behind-head c (row ∷ rows) h =
      behind-head (advanced lib table c row) rows (unfold advanced in refl)

  -- The head hash of a valid table of at least one row is that of its last row.
  pub head_of_valid :
      (row : Row) (rows : List Row) {r : VerificationResult}
      → verify_rows lib table (row ∷ rows) ≡ some r
      → IsChain (start lib table) (row ∷ rows)
      → r.head_hash ≡ some (behind (start lib table) (row ∷ rows)).previous
  unfolding verify_rows report
  head_of_valid row rows {r} h chain =
      let e : mapped (report (row ∷ rows)) (some (behind (start lib table) (row ∷ rows), []))
          ≡ some r =
        rw (verify_from_complete (start lib table) (row ∷ rows) chain) at h in
      let head =
        behind-head (advanced lib table (start lib table) row) rows (unfold advanced in refl) in
      cc
