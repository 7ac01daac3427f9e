-- ===== src/AutogenPipeline/Orchestrator/Effects.antt =====
-- The steps of a cycle that neither record a decision nor reach the router: orchestrator.py.
use lumine_hedge_fund.Prelude.{
  ◌≡◌, refl, ap, ◌∙◌, inl, inr, Bool, true, false, Option, none, some, List, [], ◌∷◌, ◌++◌, String,
  Bool-cases, is_empty, str_eq, ℕ,
}
use mathlib.Core.List.{append-nil}
use lumine_hedge_fund.TradeCore.Sizing.{Sized, SizeResult}
use lumine_hedge_fund.TradeCore.Sizing
use lumine_hedge_fund.AutogenPipeline.Debate.{Floats, AnalystOutput}
use lumine_hedge_fund.AutogenPipeline.Orchestrator.{
  Deadline, Moment, PortfolioState, StageCall, Effect, stage_run, journaled, lineage_written,
  dispatched, CycleError, sizing_failed, missing_evidence, missing_key, bad_uuid, deadline_exceeded,
  journal_failed, stage_failed, World, Answer, answered, failed, CycleContext, Environment,
}
use lumine_hedge_fund.AutogenPipeline.Orchestrator.Steps.{
  Result, ok, raised, M, then_in, ◌>>=◌, ◌>>◌, return, raise, raise_if, commit, item,
  require_trace_evidence,
}
use lumine_hedge_fund.AutogenPipeline.Orchestrator.Cycle.{
  parse_uuid, optional_uuid, ensure, journal, settled, run_stage, run_analyst, gather, require_each,
  analysts_stage, debate_stage, ic_stage, cio_stage,
}
use lumine_hedge_fund.AutogenPipeline.Orchestrator.Records.{sized}

-- The decisions that were recorded and the commands that were handed to the router, in their order.
unfoldable pub trades : List Effect → List Effect
trades [] = []
trades (stage_run call ∷ effects) = trades effects
trades (journaled step lineage ∷ effects) = trades effects
trades (lineage_written entry ∷ effects) = lineage_written entry ∷ trades effects
trades (dispatched command ∷ effects) = dispatched command ∷ trades effects

pub trades-append : (a b : List Effect) → trades (a ++ b) ≡ trades a ++ trades b
unfolding trades
trades-append [] b = refl
trades-append (stage_run call ∷ a) b = trades-append a b
trades-append (journaled step lineage ∷ a) b = trades-append a b
trades-append (lineage_written e ∷ a) b =
    ap (λ (l : List Effect). lineage_written e ∷ l) (trades-append a b)
trades-append (dispatched c ∷ a) b = ap (λ (l : List Effect). dispatched c ∷ l) (trades-append a b)

-- Nothing of the kind happens between two worlds.
abbrev pub Same : World → World → Type 0
Same w w' = (trades w'.effects ≡ trades w.effects) × (w'.router ≡ w.router)

pub record IsQuiet {A : Type 0} (m : M A) : Type 0 where
  pub apply : (w : World) → Same w (m w).1

pub Same-trans : (u v w : World) → Same u v → Same v w → Same u w
Same-trans u v w h k = (k.0 ∙ h.0, k.1 ∙ h.1)

pub raise-IsQuiet : (A : Type 0) (e : CycleError) → IsQuiet (raise {A = A} e)
unfolding raise
raise-IsQuiet A e = record { apply = λ w. (refl, refl) }

module _ {A : Type 0} where
  pub return-IsQuiet : (a : A) → IsQuiet (return a)
  unfolding return
  return-IsQuiet a = record { apply = λ w. (refl, refl) }

  pub item-IsQuiet : (key : String) (o : Option A) → IsQuiet (item key o)
  unfolding item
  item-IsQuiet key none = raise-IsQuiet A (missing_key key)
  item-IsQuiet key (some a) = return-IsQuiet a

  then_in-Same :
      {B : Type 0} (g : B → M A) (u w : World) (r : Result B)
      → Same u w
      → ((b : B) → IsQuiet (g b))
      → Same u (then_in r g w).1
  then_in-Same g u w (ok b) h k = Same-trans u w (g b w).1 h (IsQuiet.apply (k b) w)
  then_in-Same g u w (raised e) h k = h

  pub bind-IsQuiet :
      {B : Type 0} {m : M B} {g : B → M A}
      → IsQuiet m
      → ((b : B) → IsQuiet (g b))
      → IsQuiet (m >>= g)
  unfolding ◌>>=◌
  bind-IsQuiet {m = m} {g = g} h k = record {
    apply = λ w. then_in-Same g w (m w).1 (m w).0 (IsQuiet.apply h w) k;
  }

  pub then-IsQuiet : {m : M (Unit {0})} {k : M A} → IsQuiet m → IsQuiet k → IsQuiet (m >> k)
  unfolding ◌>>◌
  then-IsQuiet h g = bind-IsQuiet h (λ _. g)

pub raise_if-IsQuiet : (test : Bool) (e : CycleError) → IsQuiet (raise_if test e)
unfolding raise_if
raise_if-IsQuiet true e = raise-IsQuiet (Unit {0}) e
raise_if-IsQuiet false e = return-IsQuiet tt

commit-IsQuiet : (e : Effect) → trades (e ∷ []) ≡ [] → IsQuiet (commit e)
unfolding commit
commit-IsQuiet e h = record {
  apply = λ w. (trades-append w.effects (e ∷ []) ∙ rw h (append-nil (trades w.effects)), refl);
}

pub evidence-IsQuiet :
    (ids : List String) (stage : String) → IsQuiet (require_trace_evidence ids stage)
unfolding require_trace_evidence
evidence-IsQuiet ids stage = raise_if-IsQuiet (is_empty ids) (missing_evidence stage)

module _ (f : Floats) (env : Environment f) where
  pub sized-IsQuiet : (s : Sized SizeResult) → IsQuiet (sized f env s)
  unfolding sized
  sized-IsQuiet (Sizing.ok size) = return-IsQuiet size
  sized-IsQuiet (Sizing.raised e) = raise-IsQuiet SizeResult (sizing_failed e)

  parse_uuid-IsQuiet : (s : String) → IsQuiet (parse_uuid f env s)
  unfolding parse_uuid
  parse_uuid-IsQuiet s = elim (Bool-cases (env.is_uuid s)) [
    | inl e ↦ rw e (return-IsQuiet s)
    | inr e ↦ rw e (raise-IsQuiet String (bad_uuid s))
  ]

  optional_uuid-IsQuiet : (o : Option String) → IsQuiet (optional_uuid f env o)
  unfolding optional_uuid
  optional_uuid-IsQuiet none = return-IsQuiet none
  optional_uuid-IsQuiet (some s) = elim (Bool-cases (str_eq s "")) [
    | inl e ↦ rw e (return-IsQuiet none)
    | inr e ↦ rw e (bind-IsQuiet (parse_uuid-IsQuiet s) (λ u. return-IsQuiet (some u)))
  ]

  pub ensure-IsQuiet :
      (dl : Deadline) (moment : Moment) (n : ℕ) → IsQuiet (ensure f env dl moment n)
  unfolding ensure
  ensure-IsQuiet dl moment n = raise_if-IsQuiet _ (deadline_exceeded n)

  pub journal-IsQuiet :
      (step : String) (lineage : Option String) → IsQuiet (journal f env step lineage)
  unfolding journal trades
  journal-IsQuiet step lineage = elim (Bool-cases (env.journals step)) [
    | inl e ↦ rw e (commit-IsQuiet (journaled step lineage) refl)
    | inr e ↦ rw e (raise-IsQuiet _ (journal_failed step))
  ]

  settled-IsQuiet : {A : Type 0} (answer : Answer A) → IsQuiet (settled f env answer)
  unfolding settled
  settled-IsQuiet (answered a ids) = return-IsQuiet (a, ids)
  settled-IsQuiet {A} (failed message) = raise-IsQuiet (A × List String) (stage_failed message)

  stage_call-IsQuiet : (call : StageCall) → IsQuiet (commit (stage_run call))
  unfolding trades
  stage_call-IsQuiet call = commit-IsQuiet (stage_run call) refl

  pub run_stage-IsQuiet :
      {A : Type 0} (ctx : CycleContext f) (stage : String) (model : Option String)
      (prompt_role : String) (answer : Answer A)
      → IsQuiet (run_stage f env ctx stage model prompt_role answer)
  unfolding run_stage
  run_stage-IsQuiet ctx stage model prompt_role answer = bind-IsQuiet (item-IsQuiet _ _) (λ p.
      bind-IsQuiet (parse_uuid-IsQuiet p) (λ m.
        bind-IsQuiet (optional_uuid-IsQuiet _)
          (λ o. then-IsQuiet (stage_call-IsQuiet _) (settled-IsQuiet answer))))

  run_analyst-IsQuiet :
      (ctx : CycleContext f) (role : String) → IsQuiet (run_analyst f env ctx role)
  unfolding run_analyst
  run_analyst-IsQuiet ctx role = bind-IsQuiet (item-IsQuiet _ _) (λ p.
      bind-IsQuiet (parse_uuid-IsQuiet p)
        (λ _. bind-IsQuiet (item-IsQuiet _ _) (λ v. run_stage-IsQuiet ctx role _ role _)))

  gather-IsQuiet : (ctx : CycleContext f) (roles : List String) → IsQuiet (gather f env ctx roles)
  unfolding gather
  gather-IsQuiet ctx [] = record { apply = λ w. (refl, refl) }
  gather-IsQuiet ctx (role ∷ roles) = record {
    apply = λ w.
        let w' = (run_analyst f env ctx role w).1 in
        Same-trans w w' (gather f env ctx roles w').1
          (IsQuiet.apply (run_analyst-IsQuiet ctx role) w)
          (IsQuiet.apply (gather-IsQuiet ctx roles) w');
  }

  require_each-IsQuiet :
      (roles : List String) (results : List (AnalystOutput f × List String))
      → IsQuiet (require_each f env roles results)
  unfolding require_each
  require_each-IsQuiet [] results = return-IsQuiet tt
  require_each-IsQuiet (role ∷ roles) [] = return-IsQuiet tt
  require_each-IsQuiet (role ∷ roles) ((output, ids) ∷ results) =
      then-IsQuiet (evidence-IsQuiet ids role) (require_each-IsQuiet roles results)

  pub analysts_stage-IsQuiet :
      (ctx : CycleContext f) (dl : Deadline) → IsQuiet (analysts_stage f env ctx dl)
  unfolding analysts_stage
  analysts_stage-IsQuiet ctx dl = then-IsQuiet (ensure-IsQuiet dl _ _) (
      bind-IsQuiet (gather-IsQuiet ctx _) (λ results.
        then-IsQuiet (require_each-IsQuiet _ results) (
          then-IsQuiet (evidence-IsQuiet _ _)
            (then-IsQuiet (journal-IsQuiet _ none) (return-IsQuiet _)))))

  pub debate_stage-IsQuiet :
      (ctx : CycleContext f) (dl : Deadline) (outputs : List (AnalystOutput f)) (ids : List String)
      (held : Bool)
      → IsQuiet (debate_stage f env ctx dl outputs ids held)
  unfolding debate_stage
  debate_stage-IsQuiet ctx dl outputs ids false =
      then-IsQuiet (journal-IsQuiet _ none) (return-IsQuiet _)
  debate_stage-IsQuiet ctx dl outputs ids true = then-IsQuiet (ensure-IsQuiet dl _ _) (
      bind-IsQuiet (run_stage-IsQuiet ctx _ _ _ _) (λ p.
        then-IsQuiet (evidence-IsQuiet _ _)
          (then-IsQuiet (journal-IsQuiet _ none) (return-IsQuiet _))))

  pub ic_stage-IsQuiet :
      (ctx : CycleContext f) (dl : Deadline) (outputs : List (AnalystOutput f)) (summary : String)
      (ids : List String)
      → IsQuiet (ic_stage f env ctx dl outputs summary ids)
  unfolding ic_stage
  ic_stage-IsQuiet ctx dl outputs summary ids = then-IsQuiet (ensure-IsQuiet dl _ _) (
      bind-IsQuiet (run_stage-IsQuiet ctx _ _ _ _) (λ p.
        then-IsQuiet (evidence-IsQuiet _ _)
          (then-IsQuiet (journal-IsQuiet _ none) (return-IsQuiet _))))

  pub cio_stage-IsQuiet :
      (ctx : CycleContext f) (portfolio : PortfolioState) (dl : Deadline)
      (outputs : List (AnalystOutput f)) (held : Bool) (ic_output : String) (ids : List String)
      → IsQuiet (cio_stage f env ctx portfolio dl outputs held ic_output ids)
  unfolding cio_stage
  cio_stage-IsQuiet ctx portfolio dl outputs held ic_output ids =
      then-IsQuiet (ensure-IsQuiet dl _ _) (
        bind-IsQuiet (run_stage-IsQuiet ctx _ _ _ _)
          (λ p. then-IsQuiet (journal-IsQuiet _ none) (return-IsQuiet _)))
