-- ===== src/Security/Anchoring/Cadence.antt =====
-- When anchoring.py's `maybe_anchor` anchors, and the cadence of lineage.py's calls.
use lumine_hedge_fund.Prelude.{ℕ, ◌+◌, ◌*◌, ◌<◌, ◌≡◌, refl, some, List, [], ◌∷◌, All, lookup, arith}
use lumine_hedge_fund.Security.HashChain.{Library}
use lumine_hedge_fund.Security.Anchoring.{
  AnchorState, Store, WormSink, Environment, Outcome, returned, anchor_error, count_of, ts_of,
  is_recent, maybe_anchor, anchor_lineage, anchor_every_m_minutes,
}

module _ (lib : Library) (worm : WormSink) where
  -- The state that a call leaves: an `AnchorError` ends the caller's transaction, and the run.
  abbrev pub then_run : Outcome → (Store → Outcome) → Outcome
  then_run (returned store) next = next store
  then_run (anchor_error store) next = anchor_error store

  -- Appends of lineage rows, each with its call of `maybe_anchor`.
  abbrev pub anchor_appends : List Environment → Store → Outcome
  anchor_appends [] store = returned store
  anchor_appends (env ∷ envs) store =
      then_run (anchor_lineage lib worm env store) (anchor_appends envs)

  abbrev pub IsWithin : ℕ → Environment → Type 0
  IsWithin ts env = env.now < ts + anchor_every_m_minutes * 60000000

  anchor_lineage-recent :
      (env : Environment) (store : Store) {state : AnchorState} {ts : ℕ}
      → lookup "lineage_records" store.anchor_state ≡ some state
      → state.last_anchor_ts ≡ some ts
      → IsWithin ts env
      → anchor_lineage lib worm env store ≡ returned store
  unfolding anchor_lineage maybe_anchor count_of ts_of is_recent
  anchor_lineage-recent env store {state} {ts} e t h = ground (arith, e, t)

  -- Rows appended within five minutes of the last anchor of the lineage table are never anchored,
  -- however many they are: `write_lineage` passes a row count of 1 for each, so that the threshold
  -- of 1000 rows is not reached.
  pub anchor_appends-recent :
      (envs : List Environment) (store : Store) (state : AnchorState) (ts : ℕ)
      → lookup "lineage_records" store.anchor_state ≡ some state
      → state.last_anchor_ts ≡ some ts
      → All (IsWithin ts) envs
      → anchor_appends envs store ≡ returned store
  anchor_appends-recent [] store state ts e t h = refl
  anchor_appends-recent (env ∷ envs) store state ts e t h =
      rw (anchor_lineage-recent env store e t h.0)
        (anchor_appends-recent envs store state ts e t h.1)
