-- ===== src/AutogenPipeline/Orchestrator/Returns.antt =====
-- What the steps of orchestrator.py that return have come through.
use lumine_hedge_fund.Prelude.{Option, ◌≡◌, refl, ap, List, [], ◌∷◌, String}
use lumine_hedge_fund.TradeCore.Sizing.{SizeResult, Sized, calculate_size}
use lumine_hedge_fund.TradeCore.Sizing
use lumine_hedge_fund.AutogenPipeline.Debate.{Floats}
use lumine_hedge_fund.AutogenPipeline.Orchestrator.{
  Proposal, approved, rejected, noop, Reason, RiskContext, CycleResult, World, CycleContext,
  Environment, Answer, answered, failed,
}
use lumine_hedge_fund.AutogenPipeline.Orchestrator.Steps.{
  Result, ok, raised, M, then_in, ◌>>=◌, ◌>>◌, return, raise,
}
use lumine_hedge_fund.AutogenPipeline.Orchestrator.Cycle.{settled, run_stage}
use lumine_hedge_fund.AutogenPipeline.Orchestrator.Records.{
  sized, finish_noop, result_of, finish_rejected,
}
use lumine_hedge_fund.AutogenPipeline.Orchestrator.Execute.{finish_approved, decide}

-- What the result of a step that returns has come through.
then_in-ok :
    {A B : Type 0} (r : Result A) (g : A → M B) (w : World) {b : B}
    → (then_in r g w).0 ≡ ok b
    → (a : A) × ((g a w).0 ≡ ok b)
then_in-ok (ok a) g w h = (a, h)
then_in-ok (raised e) g w h = absurd cc

pub bind-ok :
    {A B : Type 0} (m : M A) (g : A → M B) (w : World) {b : B}
    → ((m >>= g) w).0 ≡ ok b
    → (a : A) × (v : World) × ((g a v).0 ≡ ok b)
unfolding ◌>>=◌
bind-ok m g w h = let (a, k) = then_in-ok (m w).0 g (m w).1 h in (a, (m w).1, k)

then_in-both :
    {A B : Type 0} (r : Result A) (g : A → M B) (w : World) {b : B}
    → (then_in r g w).0 ≡ ok b
    → (a : A) × (r ≡ ok a) × ((g a w).0 ≡ ok b)
then_in-both (ok a) g w h = (a, refl, h)
then_in-both (raised e) g w h = absurd cc

-- The same, with the step before it.
pub bind-both :
    {A B : Type 0} (m : M A) (g : A → M B) (w : World) {b : B}
    → ((m >>= g) w).0 ≡ ok b
    → (a : A) × ((m w).0 ≡ ok a) × ((g a (m w).1).0 ≡ ok b)
unfolding ◌>>=◌
bind-both m g w h = then_in-both (m w).0 g (m w).1 h

pub then-ok :
    {B : Type 0} (m : M (Unit {0})) (k : M B) (w : World) {b : B}
    → ((m >> k) w).0 ≡ ok b
    → (v : World) × ((k v).0 ≡ ok b)
unfolding ◌>>◌
then-ok m k w h = let (_, v, e) = bind-ok m (λ _. k) w h in (v, e)

pub return-ok : {A : Type 0} (a : A) (w : World) {b : A} → (return a w).0 ≡ ok b → b ≡ a
unfolding return
return-ok a w h = cc

module _ (f : Floats) (env : Environment f) (ctx : CycleContext f) where
  settled-ok :
      {A : Type 0} (answer : Answer A) (w : World) {a : A} {ids : List String}
      → (settled f env answer w).0 ≡ ok (a, ids)
      → answer ≡ answered a ids
  unfolding settled return raise
  settled-ok (answered a ids) w h = cc
  settled-ok (failed message) w h = absurd cc

  -- A stage that returns has its answer from the model.
  pub run_stage-ok :
      {A : Type 0} (stage : String) (model : Option String) (role : String) (answer : Answer A)
      (w : World) {a : A} {ids : List String}
      → (run_stage f env ctx stage model role answer w).0 ≡ ok (a, ids)
      → answer ≡ answered a ids
  unfolding run_stage
  run_stage-ok stage model role answer w h =
      let (_, w1, h1) = bind-ok _ _ w h in
      let (_, w2, h2) = bind-ok _ _ w1 h1 in
      let (_, w3, h3) = bind-ok _ _ w2 h2 in
      let (w4, h4) = then-ok _ _ w3 h3 in settled-ok answer w4 h4

  pub sized-ok :
      (s : Sized SizeResult) (w : World) {size : SizeResult}
      → (sized f env s w).0 ≡ ok size
      → s ≡ Sizing.ok size
  unfolding sized return raise
  sized-ok (Sizing.ok size) w h = cc
  sized-ok (Sizing.raised e) w h = absurd cc

  pub noop-verdict :
      (proposal : Proposal) (ids : List String) (w : World) {r : CycleResult}
      → (finish_noop f env proposal ids w).0 ≡ ok r
      → r.verdict ≡ noop
  unfolding finish_noop
  noop-verdict proposal ids w h =
      let (v, k) = then-ok _ _ w h in
      let (u, l) = then-ok _ _ v k in ap CycleResult.verdict (return-ok _ u l)

  rejected-verdict :
      (side : String) (context : RiskContext) (reasons : List Reason) (proposal : Proposal)
      (ids : List String) (w : World) {r : CycleResult}
      → (finish_rejected f env side context reasons proposal ids w).0 ≡ ok r
      → r.verdict ≡ rejected
  unfolding finish_rejected result_of
  rejected-verdict side context reasons proposal ids w h =
      let (v, k) = then-ok _ _ w h in
      let (u, l) = then-ok _ _ v k in ap CycleResult.verdict (return-ok _ u l)

  approved-volume :
      (side : String) (context : RiskContext) (proposal : Proposal) (ids : List String) (w : World)
      {r : CycleResult}
      → (finish_approved f env ctx side context proposal ids w).0 ≡ ok r
      → (r.volume ≡ context.assessed.final_volume) × (r.action ≡ proposal.action)
  unfolding finish_approved result_of
  approved-volume side context proposal ids w h =
      let (v, k) = then-ok _ _ w h in
      let (c, u, l) = bind-ok _ _ v k in
      let (d, t, m) = bind-ok _ _ u l in
      let (s, n) = then-ok _ _ t m in
      let e = return-ok _ s n in (ap CycleResult.volume e, ap CycleResult.action e)

  pub decide-approved :
      (side : String) (context : RiskContext) (reasons : List Reason) (proposal : Proposal)
      (ids : List String) (w : World) {r : CycleResult}
      → (decide f env ctx side context reasons proposal ids w).0 ≡ ok r
      → r.verdict ≡ approved
      → (reasons ≡ []) × (r.volume ≡ context.assessed.final_volume) × (r.action ≡ proposal.action)
  unfolding decide
  decide-approved side context [] proposal ids w h v =
      let (volume, action) = approved-volume side context proposal ids w h in (refl, volume, action)
  decide-approved side context (reason ∷ reasons) proposal ids w h v =
      absurd (cc (rejected-verdict side context (reason ∷ reasons) proposal ids w h))
