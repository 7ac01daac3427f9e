-- ===== src/Security/Anchoring/Sequence.antt =====
-- The sequence numbers that anchoring.py's `maybe_anchor` gives, and its failures.
use lumine_hedge_fund.Prelude.{
  ℕ, zero, suc, ◌+◌, ◌≡◌, refl, ap, ◌∙◌, inl, inr, ◌&&◌, some, List, [], ◌∷◌, String, str_eq,
  eq_iff, ltb, if◌then◌else◌, lookup, lookup-insert, arith, Bool-cases,
}
use lumine_hedge_fund.Security.HashChain.{Library}
use lumine_hedge_fund.Security.Anchoring.{
  AnchorPayload, AuditAnchor, Store, WormSink, ChainHead, unreadable, empty, head, Environment,
  Stored, stored_in, not_implemented, failed, Outcome, returned, anchor_error, seq_of, count_of,
  ts_of, is_recent, with_event, with_objects, worm_store, anchor_payload, write_anchor, after_store,
  anchor_head, maybe_anchor,
}

abbrev pub store_of : Outcome → Store
store_of (returned store) = store
store_of (anchor_error store) = store

-- The sequence numbers of a table's anchors, latest first.
abbrev pub anchored_seqs : String → List AuditAnchor → List ℕ
anchored_seqs t [] = []
anchored_seqs t (a ∷ anchors) =
    let rest = anchored_seqs t anchors in
    if str_eq a.table_name t then a.anchor_seq ∷ rest else rest

abbrev pub countdown : ℕ → List ℕ
countdown zero = []
countdown (suc n) = suc n ∷ countdown n

-- The anchors of a table are numbered 1, 2, 3 and so on without a gap, up to its state's number.
abbrev pub IsSequenced : String → Store → Type 0
IsSequenced t store =
    anchored_seqs t store.audit_anchors ≡ countdown (seq_of (lookup t store.anchor_state))

add_one : (n : ℕ) → n + 1 ≡ suc n
add_one n = omega arith

countdown-next : (n : ℕ) → countdown (n + 1) ≡ (n + 1) ∷ countdown n
countdown-next n = rw (add_one n) refl

module _ (lib : Library) (worm : WormSink) (t : String) where
  write_anchor-IsSequenced :
      (env : Environment) (p : AnchorPayload) (store : Store)
      → p.anchor_seq ≡ seq_of (lookup p.table_name store.anchor_state) + 1
      → IsSequenced t store
      → IsSequenced t (store_of (write_anchor lib worm env p store))
  unfolding write_anchor seq_of
  write_anchor-IsSequenced env p store e h = elim (Bool-cases env.database_fails) [
    | inl d ↦ rw d h
    | inr d ↦
        rw
          (
            d,
            lookup-insert p.table_name t
                (record {
                  last_anchor_seq = p.anchor_seq;
                  last_row_count = p.row_count;
                  last_anchor_ts = some env.now;
                })
                store.anchor_state,
          )
          (elim (Bool-cases (str_eq p.table_name t)) [
            | inl same ↦
                let n : p.table_name ≡ t = (eq_iff p.table_name t).0 same in
                let next : p.anchor_seq ≡ seq_of (lookup t store.anchor_state) + 1 =
                  e ∙ ap (λ k. seq_of (lookup k store.anchor_state) + 1) n in
                rw (same, next, countdown-next (seq_of (lookup t store.anchor_state)), h) refl
            | inr other ↦ rw other h
          ])
  ]

  after_store-IsSequenced :
      (env : Environment) (p : AnchorPayload) (store : Store) (stored : Stored)
      → p.anchor_seq ≡ seq_of (lookup p.table_name store.anchor_state) + 1
      → IsSequenced t store
      → IsSequenced t (store_of (after_store lib worm env p store stored))
  unfolding after_store with_event with_objects
  after_store-IsSequenced env p store (failed objects) e h = h
  after_store-IsSequenced env p store not_implemented e h = write_anchor-IsSequenced env p store e h
  after_store-IsSequenced env p store (stored_in objects) e h =
      write_anchor-IsSequenced env p (with_objects objects store) e h

  anchor_head-IsSequenced :
      (env : Environment) (name : String) (row_count : ℕ) (store : Store) (chain : ChainHead)
      → IsSequenced t store
      → IsSequenced t (
          store_of (
            anchor_head lib worm env name row_count
              (seq_of (lookup name store.anchor_state) + 1)
              store
              chain))
  unfolding anchor_head with_event anchor_payload
  anchor_head-IsSequenced env name row_count store unreadable h = h
  anchor_head-IsSequenced env name row_count store empty h = h
  anchor_head-IsSequenced env name row_count store (head hash id) h =
      let p =
        anchor_payload lib worm name (seq_of (lookup name store.anchor_state) + 1) hash id row_count
          env.now in
      after_store-IsSequenced env p store (worm_store worm env.disk p store.objects) refl h

  -- Whatever a call of `maybe_anchor` meets (no cadence, an unreadable or empty chain, a failing
  -- disk or database), the anchors of every table stay numbered without a gap.
  pub maybe_anchor-IsSequenced :
      (env : Environment) (name : String) (row_count every_n every_m : ℕ) (store : Store)
      → IsSequenced t store
      → IsSequenced t (store_of (maybe_anchor lib worm env name row_count every_n every_m store))
  unfolding maybe_anchor
  maybe_anchor-IsSequenced env name row_count every_n every_m store h =
      let state = lookup name store.anchor_state in
      elim (Bool-cases
        (ltb row_count (count_of state + every_n) && is_recent env.now every_m (ts_of state))) [
          | inl e ↦ rw e h
          | inr e ↦ rw e (anchor_head-IsSequenced env name row_count store env.chain_head h)
        ]
