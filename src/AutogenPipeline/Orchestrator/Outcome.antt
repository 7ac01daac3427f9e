-- ===== src/AutogenPipeline/Orchestrator/Outcome.antt =====
-- How a cycle of orchestrator.py can end, and steps composed to that end.
use lumine_hedge_fund.Prelude.{
  ◌≡◌, refl, ap, ◌∙◌, inl, inr, ◌⊎◌, Option, none, some, List, [], ◌∷◌, ◌++◌, String, Bool-cases,
  is_empty,
}
use lumine_hedge_fund.Bridge.{BridgeCommand}
use lumine_hedge_fund.TradeCore.Execution.{DispatchResult, Dispatched}
use lumine_hedge_fund.TradeCore.Execution
use lumine_hedge_fund.AutogenPipeline.Debate.{Floats}
use lumine_hedge_fund.AutogenPipeline.Orchestrator.{
  approved, rejected, noop, LineageEntry, CycleResult, Effect, lineage_written, dispatched,
  CycleError, missing_evidence, lineage_failed, World, CycleContext, Environment,
}
use lumine_hedge_fund.AutogenPipeline.Orchestrator.Steps.{
  Result, ok, raised, M, then_in, ◌>>=◌, ◌>>◌, return, raise, raise_if, commit,
  require_trace_evidence,
}
use lumine_hedge_fund.AutogenPipeline.Orchestrator.Cycle.{journal}
use lumine_hedge_fund.AutogenPipeline.Orchestrator.Records.{write_lineage}
use lumine_hedge_fund.AutogenPipeline.Orchestrator.Execute.{tca_context}
use lumine_hedge_fund.AutogenPipeline.Orchestrator.Effects.{
  trades, trades-append, Same, Same-trans, IsQuiet,
}

-- A result that is returned tells what was recorded; an exception tells nothing.
abbrev pub Tells : LineageEntry → Result CycleResult → Type 0
Tells e (ok r) = (r.lineage_id ≡ e.lineage_id) × (r.verdict ≡ e.verdict) × (r.reasons ≡ e.reasons)
Tells e (raised _) = Unit {0}

abbrev pub IsHeld : Result CycleResult → Type 0
IsHeld (ok r) = (r.dispatch ≡ none) × ((r.verdict ≡ rejected) ⊎ (r.verdict ≡ noop))
IsHeld (raised _) = Unit {0}

module _ (f : Floats) (env : Environment f) (ctx : CycleContext f) where
  -- The recorded decision allows the command.
  pub record Allows (e : LineageEntry) (c : BridgeCommand) : Type 0 where
    pub verdict : e.verdict ≡ approved
    pub reasons : e.reasons ≡ []
    pub lineage : e.lineage_id ≡ env.lineage_id
    pub order : c.order_id ≡ some env.lineage_id
    pub action : c.action ≡ e.proposal.action

  -- How a cycle that starts in a world ends.
  pub data Outcome (w : World) : Result CycleResult × World → Type 0 where
    nothing : {w' : World} (error : CycleError) → Same w w' → Outcome w (raised error, w')
    recorded :
        {w' : World} {r : Result CycleResult} (e : LineageEntry)
        → trades w'.effects ≡ trades w.effects ++ lineage_written e ∷ []
        → w'.router ≡ w.router
        → Tells e r
        → IsHeld r
        → Outcome w (r, w')
    executed :
        {w' : World} {r : Result CycleResult} (e : LineageEntry) (c : BridgeCommand)
        → trades w'.effects ≡ trades w.effects ++ lineage_written e ∷ dispatched c ∷ []
        → w'.router
          ≡ (Execution.dispatch w.router env.bridge env.lineage_id c 1 (tca_context f env ctx)).0
        → Allows e c
        → Tells e r
        → Outcome w (r, w')

  rebase : (u v : World) {x : Result CycleResult × World} → Same u v → Outcome v x → Outcome u x
  rebase u v h (nothing {w'} error k) = nothing error (Same-trans u v w' h k)
  rebase u v h (recorded e t r tells held) =
      recorded e (t ∙ ap (λ (l : List Effect). l ++ lineage_written e ∷ []) h.0) (r ∙ h.1) tells
        held
  rebase u v h (executed e c t r allows tells) =
      executed e c (t ∙ ap (λ (l : List Effect). l ++ lineage_written e ∷ dispatched c ∷ []) h.0)
        (r
          ∙ ap
              (λ (x : Execution.World).
                (Execution.dispatch x env.bridge env.lineage_id c 1 (tca_context f env ctx)).0)
              h.1)
        allows tells

  pub record Ends (m : M CycleResult) : Type 0 where
    pub outcome : (w : World) → Outcome w (m w)

  then_in-Outcome :
      {B : Type 0} (g : B → M CycleResult) (u v : World) (r : Result B)
      → Same u v
      → ((b : B) → Ends (g b))
      → Outcome u (then_in r g v)
  then_in-Outcome g u v (ok b) h k = rebase u v h (Ends.outcome (k b) v)
  then_in-Outcome g u v (raised e) h k = nothing e h

  pub bind-Ends :
      {B : Type 0} {m : M B} {g : B → M CycleResult}
      → IsQuiet m
      → ((b : B) → Ends (g b))
      → Ends (m >>= g)
  unfolding ◌>>=◌
  bind-Ends {m = m} {g = g} h k = record {
    outcome = λ w. then_in-Outcome g w (m w).1 (m w).0 (IsQuiet.apply h w) k;
  }

  pub then-Ends : {m : M (Unit {0})} {k : M CycleResult} → IsQuiet m → Ends k → Ends (m >> k)
  unfolding ◌>>◌
  then-Ends h k = bind-Ends h (λ _. k)

  abbrev pub with_entry : LineageEntry → World → World
  with_entry e w = record w { effects = w.effects ++ lineage_written e ∷ [] }

  -- The record is there if the transaction commits, and an exception ends the cycle if not.
  pub write_lineage-cases :
      (e : LineageEntry) (w : World)
      → ((error : CycleError) × (write_lineage f env e w ≡ (raised error, w)))
        ⊎ (write_lineage f env e w ≡ (ok tt, with_entry e w))
  unfolding write_lineage require_trace_evidence raise_if commit return raise ◌>>◌ ◌>>=◌
  write_lineage-cases e w = elim (Bool-cases (is_empty e.trace_ids)) [
    | inl a ↦ inl (missing_evidence "lineage", rw a refl)
    | inr a ↦ elim (Bool-cases env.flushes) [
      | inr b ↦ inl (lineage_failed "flush", rw (a, b) refl)
      | inl b ↦ elim (Bool-cases env.commits) [
        | inr c ↦ inl (lineage_failed "commit", rw (a, b, c) refl)
        | inl c ↦ inr (rw (a, b, c) refl)
      ]
    ]
  ]

  pub trades-with_entry :
      (e : LineageEntry) (w : World)
      → trades (with_entry e w).effects ≡ trades w.effects ++ lineage_written e ∷ []
  unfolding trades
  trades-with_entry e w = trades-append w.effects (lineage_written e ∷ [])

  -- After a record, a step that tells it and dispatches nothing.
  pub recorded_then :
      (e : LineageEntry) (k : M CycleResult)
      → IsQuiet k
      → ((w : World) → Tells e (k w).0 × IsHeld (k w).0)
      → Ends (write_lineage f env e >> k)
  unfolding ◌>>◌ ◌>>=◌
  recorded_then e k quiet told = record {
    outcome = λ w. elim (write_lineage-cases e w) [
      | inl (error, p) ↦ rw p (nothing error (refl, refl))
      | inr p ↦
          let w' = with_entry e w in
          let (tells, held) = told w' in
          let (t, r) = IsQuiet.apply quiet w' in
          rw p (recorded e (t ∙ trades-with_entry e w) r tells held)
    ];
  }

  pub journal_then_told :
      (e : LineageEntry) (step : String) (l : Option String) (r : CycleResult)
      → Tells e (ok r)
      → IsHeld (ok r)
      → (w : World) → let x = ((journal f env step l >> return r) w).0 in Tells e x × IsHeld x
  unfolding ◌>>◌ ◌>>=◌ journal return commit raise
  journal_then_told e step l r tells held w = elim (Bool-cases (env.journals step)) [
    | inl a ↦ rw a (tells, held)
    | inr a ↦ rw a (tt, tt)
  ]
