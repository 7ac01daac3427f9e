-- ===== src/AutogenPipeline/Orchestrator/Trades.antt =====
-- What a whole cycle of orchestrator.py records and dispatches: `execute`.
use lumine_hedge_fund.Prelude.{
  ◌≡◌, refl, ap, ◌∙◌, inl, inr, ◌⊎◌, ◌||◌, Option, some, List, [], ◌∷◌, ◌++◌, String, Bool-cases,
  str_eq, arith,
}
use mathlib.Core.List.{append_assoc}
use lumine_hedge_fund.Bridge.{
  BridgeCommand, CommandError, Checked, accepted, refused, check_command,
}
use lumine_hedge_fund.TradeCore.Execution.{DispatchResult, Dispatched}
use lumine_hedge_fund.TradeCore.Execution
use lumine_hedge_fund.AutogenPipeline.Debate.{Floats}
use lumine_hedge_fund.AutogenPipeline.Orchestrator.{
  Deadline, PortfolioState, Settings, Proposal, approved, rejected, Reason, RiskContext,
  LineageEntry, CycleResult, Effect, lineage_written, dispatched, World, CycleContext, Environment,
}
use lumine_hedge_fund.AutogenPipeline.Orchestrator.Steps.{
  Result, ok, raised, M, then_in, ◌>>=◌, ◌>>◌, return, raise, commit,
}
use lumine_hedge_fund.AutogenPipeline.Orchestrator.Cycle.{journal}
use lumine_hedge_fund.AutogenPipeline.Orchestrator.Records.{
  noop_entry, finish_noop, entry_of, result_of, finish_rejected,
}
use lumine_hedge_fund.AutogenPipeline.Orchestrator.Execute.{
  command_of, checked, tca_context, settled_dispatch, dispatch_once, finish_approved, decide, trade,
  route, execute,
}
use lumine_hedge_fund.AutogenPipeline.Orchestrator.Effects.{
  trades, trades-append, IsQuiet, return-IsQuiet, then-IsQuiet, journal-IsQuiet, evidence-IsQuiet,
  sized-IsQuiet, ensure-IsQuiet, run_stage-IsQuiet, analysts_stage-IsQuiet, debate_stage-IsQuiet,
  ic_stage-IsQuiet, cio_stage-IsQuiet,
}
use lumine_hedge_fund.AutogenPipeline.Orchestrator.Outcome.{
  Tells, nothing, recorded, executed, Allows, Outcome, Ends, bind-Ends, then-Ends, with_entry,
  write_lineage-cases, trades-with_entry, recorded_then, journal_then_told,
}

module _ (f : Floats) (env : Environment f) (ctx : CycleContext f) where
  noop-Ends :
      (proposal : Proposal) (ids : List String) → Ends f env ctx (finish_noop f env proposal ids)
  unfolding finish_noop noop_entry
  noop-Ends proposal ids =
      recorded_then f env ctx (noop_entry f env proposal ids) _
        (then-IsQuiet (journal-IsQuiet f env _ _) (return-IsQuiet _))
        (journal_then_told f env ctx (noop_entry f env proposal ids) _ _ _ (refl, refl, refl)
          (refl, inr refl))

  rejected-Ends :
      (side : String) (context : RiskContext) (reasons : List Reason) (proposal : Proposal)
      (ids : List String)
      → Ends f env ctx (finish_rejected f env side context reasons proposal ids)
  unfolding finish_rejected entry_of result_of
  rejected-Ends side context reasons proposal ids =
      let e = entry_of f env rejected side context reasons proposal ids in
      recorded_then f env ctx e _ (then-IsQuiet (journal-IsQuiet f env _ _) (return-IsQuiet _))
        (journal_then_told f env ctx e _ _ _ (refl, refl, refl) (refl, inl refl))

  with_command : BridgeCommand → World → World
  with_command c w = record w {
    effects = w.effects ++ dispatched c ∷ [];
    router = (Execution.dispatch w.router env.bridge env.lineage_id c 1 (tca_context f env ctx)).0;
  }

  -- The dispatch, whatever the router answers.
  dispatch_once-world :
      (c : BridgeCommand) (w : World) → (dispatch_once f env ctx c w).1 ≡ with_command c w
  unfolding dispatch_once settled_dispatch return raise with_command
  dispatch_once-world c w =
      elim ((Execution.dispatch w.router env.bridge env.lineage_id c 1 (tca_context f env ctx)).1)
        as (λ a. (settled_dispatch f env a (with_command c w)).1 ≡ with_command c w) [
          | Execution.ok r ↦ refl
          | Execution.raised e ↦ refl
        ]

  Checked-cases :
      (x : Checked)
      → ((e : CommandError) × (x ≡ refused e)) ⊎ ((d : BridgeCommand) × (x ≡ accepted d))
  Checked-cases (refused e) = inl (e, refl)
  Checked-cases (accepted d) = inr (d, refl)

  accepted_command :
      (c d : BridgeCommand)
      → check_command c ≡ accepted d
      → (d.order_id ≡ c.order_id) × (d.action ≡ c.action)
  unfolding check_command
  accepted_command c d h = ground arith

  trades-with_command :
      (e : LineageEntry) (c : BridgeCommand) (w : World)
      → trades (with_command c (with_entry f env ctx e w)).effects
        ≡ trades w.effects ++ lineage_written e ∷ dispatched c ∷ []
  unfolding with_command trades
  trades-with_command e c w =
      trades-append (w.effects ++ lineage_written e ∷ []) (dispatched c ∷ [])
      ∙ ap (λ (l : List Effect). l ++ dispatched c ∷ []) (trades-with_entry f env ctx e w)
      ∙ append_assoc (trades w.effects) (lineage_written e ∷ []) (dispatched c ∷ [])

  after_dispatch :
      (e : LineageEntry) (c : BridgeCommand) (k : DispatchResult → M CycleResult) (w : World)
      (answer : Result DispatchResult)
      → Allows f env ctx e c
      → ((r : DispatchResult) → IsQuiet (k r))
      → ((r : DispatchResult) (v : World) → Tells e (k r v).0)
      → Outcome f env ctx w (then_in answer k (with_command c (with_entry f env ctx e w)))
  unfolding with_command
  after_dispatch e c k w (raised error) allows quiet told =
      executed e c (trades-with_command e c w) refl allows tt
  after_dispatch e c k w (ok r) allows quiet told =
      let v = with_command c (with_entry f env ctx e w) in
      let (t, same) = IsQuiet.apply (quiet r) v in
      executed e c (t ∙ trades-with_command e c w) same allows (told r v)

  journal_tells :
      (e : LineageEntry) (step : String) (l : Option String) (r : CycleResult)
      → Tells e (ok r)
      → (w : World) → Tells e ((journal f env step l >> return r) w).0
  unfolding ◌>>◌ ◌>>=◌ journal return commit raise
  journal_tells e step l r tells w = elim (Bool-cases (env.journals step)) [
    | inl a ↦ rw a tells
    | inr a ↦ rw a tt
  ]

  journal_then-IsQuiet :
      (step : String) (l : Option String) (r : CycleResult)
      → IsQuiet (journal f env step l >> return r)
  journal_then-IsQuiet step l r = then-IsQuiet (journal-IsQuiet f env step l) (return-IsQuiet r)

  approved-Allows :
      (side : String) (context : RiskContext) (proposal : Proposal) (ids : List String)
      (d : BridgeCommand)
      → check_command (command_of f env ctx proposal context) ≡ accepted d
      → Allows f env ctx (entry_of f env approved side context [] proposal ids) d
  unfolding entry_of command_of
  approved-Allows side context proposal ids d q =
      let (o, a) = accepted_command (command_of f env ctx proposal context) d q in
      record { verdict = refl; reasons = refl; lineage = refl; order = o; action = a }

  approved-Ends :
      (side : String) (context : RiskContext) (proposal : Proposal) (ids : List String)
      → Ends f env ctx (finish_approved f env ctx side context proposal ids)
  unfolding finish_approved ◌>>◌ ◌>>=◌ checked return raise entry_of result_of
  approved-Ends side context proposal ids = record {
    outcome = λ w.
        let e = entry_of f env approved side context [] proposal ids in
        let c = command_of f env ctx proposal context in
        elim (write_lineage-cases f env ctx e w) [
          | inl (error, p) ↦ rw p (nothing error (refl, refl))
          | inr p ↦ elim (Checked-cases (check_command c)) [
            | inl (error, q) ↦ rw (p, q) (recorded e (trades-with_entry f env ctx e w) refl tt tt)
            | inr (d, q) ↦
                let answer = (dispatch_once f env ctx d (with_entry f env ctx e w)).0 in
                rw (p, q)
                  (rw (dispatch_once-world d (with_entry f env ctx e w)) (
                    after_dispatch e d _ w answer (approved-Allows side context proposal ids d q)
                      (λ r. journal_then-IsQuiet "DISPATCHED" (some env.lineage_id) _)
                      (λ r v.
                        journal_tells e "DISPATCHED" (some env.lineage_id)
                          (result_of f env approved proposal context [] (some r)) (refl, refl, refl)
                          v)))
          ]
        ];
  }

  decide-Ends :
      (side : String) (context : RiskContext) (reasons : List Reason) (proposal : Proposal)
      (ids : List String)
      → Ends f env ctx (decide f env ctx side context reasons proposal ids)
  unfolding decide
  decide-Ends side context [] proposal ids = approved-Ends side context proposal ids
  decide-Ends side context (reason ∷ reasons) proposal ids =
      rejected-Ends side context (reason ∷ reasons) proposal ids

  trade-Ends :
      (settings : Settings) (portfolio : PortfolioState) (dl : Deadline) (side : String)
      (proposal : Proposal) (ids : List String)
      → Ends f env ctx (trade f env settings ctx portfolio dl side proposal ids)
  unfolding trade
  trade-Ends settings portfolio dl side proposal ids =
      bind-Ends f env ctx (sized-IsQuiet f env _) (λ size.
        then-Ends f env ctx (ensure-IsQuiet f env dl _ _) (
          bind-Ends f env ctx (run_stage-IsQuiet f env ctx _ _ _ _)
            (λ p. then-Ends f env ctx (evidence-IsQuiet _ _) (decide-Ends side _ _ proposal _))))

  route-Ends :
      (settings : Settings) (portfolio : PortfolioState) (dl : Deadline) (proposal : Proposal)
      (ids : List String)
      → Ends f env ctx (route f env settings ctx portfolio dl proposal ids)
  unfolding route
  route-Ends settings portfolio dl proposal ids =
      elim (Bool-cases (str_eq proposal.action "HOLD" || str_eq proposal.action "REJECT")) [
        | inl e ↦ rw e (noop-Ends proposal ids)
        | inr e ↦ rw e (trade-Ends settings portfolio dl _ proposal ids)
      ]

  -- A decision cycle ends in one of three ways, whatever the models, the clock, the database and the
  -- bridge answer. It raises, with no decision recorded and nothing handed to the router. Or one
  -- decision is recorded and nothing is dispatched: then the cycle raises, or it returns that decision
  -- as rejected or as no trade. Or an approved decision without reasons against it is recorded first,
  -- and one command of its lineage and action goes through the router once; then the cycle raises, or
  -- it returns that decision.
  pub execute-Outcome :
      (settings : Settings) (portfolio : PortfolioState) (w : World)
      → Outcome f env ctx w (execute f env settings ctx portfolio w)
  unfolding execute
  execute-Outcome settings portfolio = Ends.outcome (
      bind-Ends f env ctx (analysts_stage-IsQuiet f env ctx _) (λ a.
        bind-Ends f env ctx (debate_stage-IsQuiet f env ctx _ _ _ _) (λ b.
          bind-Ends f env ctx (ic_stage-IsQuiet f env ctx _ _ _ _) (λ c.
            bind-Ends f env ctx (cio_stage-IsQuiet f env ctx portfolio _ _ _ _ _)
              (λ d. route-Ends settings portfolio _ _ _)))))
