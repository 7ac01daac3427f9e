-- ===== src/Security/Anchoring/Retry.antt =====
-- Calls of anchoring.py's `maybe_anchor` after one that raised `AnchorError`, with the local sink.
use lumine_hedge_fund.Prelude.{
  ℕ, ◌+◌, ◌≡◌, refl, sym, ap, ◌∙◌, inl, inr, ◌&&◌, Dict, none, some, List, [], ◌∷◌, String, eq_iff,
  ltb, lookup, insert, lookup-insert, Bool-cases, Option-cases,
}
use lumine_hedge_fund.Security.HashChain.{Library}
use lumine_hedge_fund.Security.Anchoring.{
  AnchorPayload, File, whole, Disk, works, refuses, breaks_off, Store, local_worm, ChainHead,
  unreadable, empty, head, Environment, Outcome, anchor_error, seq_of, count_of, ts_of, is_recent,
  with_event, with_objects, key_for, store_local, worm_store, anchor_payload, write_anchor,
  after_store, anchor_head, maybe_anchor,
}
use lumine_hedge_fund.Security.Anchoring.Sequence.{store_of}

-- The arguments of a call, with what it meets.
pub record Call : Type 0 where
  pub env : Environment
  pub row_count : ℕ
  pub every_n : ℕ
  pub every_m : ℕ

module _ (lib : Library) (name : String) where
  unfoldable pub call : Call → Store → Outcome
  call c store = maybe_anchor lib local_worm c.env name c.row_count c.every_n c.every_m store

  -- Calls one after the other, each in a transaction of its own.
  abbrev pub calls : List Call → Store → Store
  calls [] store = store
  calls (c ∷ cs) store = calls cs (store_of (call c store))

  -- The object of the table's next sequence number exists already.
  IsTaken : Store → Type 0
  IsTaken store =
      (old : File) × (lookup (key_for lib name (seq_of (lookup name store.anchor_state) + 1))
          store.objects
        ≡ some old)

  SameAnchors : Store → Store → Type 0
  SameAnchors s s' =
      (s'.anchor_state ≡ s.anchor_state)
      × (s'.audit_anchors ≡ s.audit_anchors)
      × (s'.objects ≡ s.objects)

  head_taken :
      (env : Environment) (row_count : ℕ) (store : Store) (chain : ChainHead)
      → IsTaken store
      → SameAnchors store (
          store_of (
            anchor_head lib local_worm env name row_count
              (seq_of (lookup name store.anchor_state) + 1)
              store
              chain))
  unfolding anchor_head after_store with_event anchor_payload worm_store store_local IsTaken
      SameAnchors
  head_taken env row_count store unreadable h = (refl, refl, refl)
  head_taken env row_count store empty h = (refl, refl, refl)
  head_taken env row_count store (head hash id) (old, e) = rw e (refl, refl, refl)

  call_taken :
      (c : Call) (store : Store) → IsTaken store → SameAnchors store (store_of (call c store))
  unfolding call maybe_anchor SameAnchors
  call_taken c store h =
      let state = lookup name store.anchor_state in
      elim (Bool-cases (
        ltb c.row_count (count_of state + c.every_n)
        && is_recent c.env.now c.every_m (ts_of state))) [
          | inl e ↦ rw e (refl, refl, refl)
          | inr e ↦ rw e (head_taken c.env c.row_count store c.env.chain_head h)
        ]

  IsTaken-same : (s s' : Store) → SameAnchors s s' → IsTaken s → IsTaken s'
  unfolding IsTaken SameAnchors
  IsTaken-same s s' (a, b, c) (old, e) = (old, rw (a, c) e)

  calls_taken :
      (cs : List Call) (store : Store) → IsTaken store → SameAnchors store (calls cs store)
  unfolding SameAnchors
  calls_taken [] store h = (refl, refl, refl)
  calls_taken (c ∷ cs) store h =
      let here = call_taken c store h in
      let (a, b, d) =
        calls_taken cs (store_of (call c store))
          (IsTaken-same store (store_of (call c store)) here h) in
      let (a', b', d') = here in (a ∙ a', b ∙ b', d ∙ d')

  write_error :
      (env : Environment) (p : AnchorPayload) (store store' : Store)
      → write_anchor lib local_worm env p store ≡ anchor_error store'
      → store ≡ store'
  unfolding write_anchor
  write_error env p store store' h = elim (Bool-cases env.database_fails) [
    | inl e ↦ ap store_of (rw e at h)
    | inr e ↦ absurd (cc (rw e at h))
  ]

  inserted_taken :
      (key : String) (file : File) (objects : Dict File)
      → lookup key (insert key file objects) ≡ some file
  inserted_taken key file objects =
      rw (lookup-insert key key file objects, (eq_iff key key).1 refl) refl

  -- A new object: the call raises where the file is written and the row is not.
  absent_error :
      (env : Environment) (p : AnchorPayload) (store store' : Store) (disk : Disk)
      → after_store lib local_worm env p store (store_local none disk p store.objects)
        ≡ anchor_error store'
      → (file : File) × (lookup p.object_key store'.objects ≡ some file)
        × (store'.anchor_state ≡ store.anchor_state)
  unfolding after_store store_local with_objects
  absent_error env p store store' refuses h = absurd cc
  absent_error env p store store' breaks_off h = absurd cc
  absent_error env p store store' works h =
      let objects = insert p.object_key (whole p) store.objects in
      let same = write_error env p (with_objects objects store) store' h in
      (
        whole p,
        ap (λ (s : Store). lookup p.object_key s.objects) (sym same)
            ∙ inserted_taken p.object_key (whole p) store.objects,
        ap (λ (s : Store). s.anchor_state) (sym same),
      )

  head_error :
      (env : Environment) (row_count : ℕ) (store store' : Store) (chain : ChainHead)
      → anchor_head lib local_worm env name row_count
          (seq_of (lookup name store.anchor_state) + 1)
          store
          chain
        ≡ anchor_error store'
      → IsTaken store'
  unfolding anchor_head after_store with_event with_objects anchor_payload worm_store store_local
      IsTaken
  head_error env row_count store store' unreadable h = absurd cc
  head_error env row_count store store' empty h = absurd cc
  head_error env row_count store store' (head hash id) h =
      let seq = seq_of (lookup name store.anchor_state) + 1 in
      let p = anchor_payload lib local_worm name seq hash id row_count env.now in
      elim (Option-cases (lookup (key_for lib name seq) store.objects)) [
        | inr (old, e) ↦ absurd (cc (rw e at h))
        | inl e ↦
            let (file, taken, same) = absent_error env p store store' env.disk (rw e at h) in
            (file, rw same taken)
      ]

  call_error :
      (c : Call) (store store' : Store) → call c store ≡ anchor_error store' → IsTaken store'
  unfolding call maybe_anchor
  call_error c store store' h =
      let state = lookup name store.anchor_state in
      elim (Bool-cases (
        ltb c.row_count (count_of state + c.every_n)
        && is_recent c.env.now c.every_m (ts_of state))) [
          | inl e ↦ absurd (cc (rw e at h))
          | inr e ↦ head_error c.env c.row_count store store' c.env.chain_head (rw e at h)
        ]

  -- After a call that raised `AnchorError` (the local object was written, the database row was
  -- not), no later call for the table anchors anything, whatever it meets: the sequence number is
  -- tried again, and its object exists.
  pub calls-after_error :
      (c : Call) (cs : List Call) (store store' : Store)
      → call c store ≡ anchor_error store'
      → ((calls cs store').anchor_state ≡ store'.anchor_state)
        × ((calls cs store').audit_anchors ≡ store'.audit_anchors)
  unfolding SameAnchors
  calls-after_error c cs store store' h =
      let (a, b, d) = calls_taken cs store' (call_error c store store' h) in (a, b)
