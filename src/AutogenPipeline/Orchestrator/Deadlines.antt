-- ===== src/AutogenPipeline/Orchestrator/Deadlines.antt =====
-- Cycles that run late: orchestrator.py, `_Deadline.ensure`.
use lumine_hedge_fund.Prelude.{
  ℕ, ◌≡◌, refl, ap, sym, ◌∙◌, inl, inr, true, ◌||◌, List, String, Bool-cases, str_eq,
}
use lumine_hedge_fund.AutogenPipeline.Debate.{Floats}
use lumine_hedge_fund.AutogenPipeline.Orchestrator.{
  Deadline, PortfolioState, Settings, Proposal, noop, CycleResult, World, CycleContext, Environment,
  deadline_exceeded, is_exceeded, Moment, before_analysts, before_risk, analyst_reserve_ms,
  risk_reserve_ms,
}
use lumine_hedge_fund.AutogenPipeline.Orchestrator.Steps.{
  Result, ok, raised, M, ◌>>=◌, ◌>>◌, raise, raise_if,
}
use lumine_hedge_fund.AutogenPipeline.Orchestrator.Cycle.{ensure, analysts_stage}
use lumine_hedge_fund.AutogenPipeline.Orchestrator.Execute.{deadline, trade, route, execute}
use lumine_hedge_fund.AutogenPipeline.Orchestrator.Returns.{bind-ok, noop-verdict}

module _ (f : Floats) (env : Environment f) where
  ensure-late :
      (dl : Deadline) (moment : Moment) (reserve : ℕ) (w : World)
      → is_exceeded dl (env.now_ms moment) reserve ≡ true
      → ensure f env dl moment reserve w ≡ (raised (deadline_exceeded reserve), w)
  unfolding ensure raise_if raise
  ensure-late dl moment reserve w late = rw late refl

  then-late :
      {B : Type 0} (dl : Deadline) (moment : Moment) (reserve : ℕ) (k : M B) (w : World)
      → is_exceeded dl (env.now_ms moment) reserve ≡ true
      → (ensure f env dl moment reserve >> k) w ≡ (raised (deadline_exceeded reserve), w)
  unfolding ◌>>◌ ◌>>=◌
  then-late dl moment reserve k w late = rw (ensure-late dl moment reserve w late) refl

  module _ (settings : Settings) (ctx : CycleContext f) (portfolio : PortfolioState) where
    trade-late :
        (side : String) (proposal : Proposal) (ids : List String) (w : World) {r : CycleResult}
        → is_exceeded (deadline f env settings) (env.now_ms before_risk) risk_reserve_ms ≡ true
        → (trade f env settings ctx portfolio (deadline f env settings) side proposal ids w).0
          ≡ ok r
        → ⊥
    unfolding trade
    trade-late side proposal ids w {r} late h =
        let (size, w1, h1) = bind-ok _ _ w h in
        let e = then-late (deadline f env settings) before_risk risk_reserve_ms _ w1 late in
        let h2 : Result.raised (deadline_exceeded risk_reserve_ms) ≡ ok r =
          sym (ap (λ (x : Result CycleResult × World). x.0) e) ∙ h1 in
        cc

    route-late :
        (proposal : Proposal) (ids : List String) (w : World) {r : CycleResult}
        → is_exceeded (deadline f env settings) (env.now_ms before_risk) risk_reserve_ms ≡ true
        → (route f env settings ctx portfolio (deadline f env settings) proposal ids w).0 ≡ ok r
        → r.verdict ≡ noop
    unfolding route
    route-late proposal ids w late h =
        elim (Bool-cases (str_eq proposal.action "HOLD" || str_eq proposal.action "REJECT")) [
          | inl e ↦ noop-verdict f env ctx proposal ids w (rw e at h)
          | inr e ↦ absurd (trade-late _ proposal ids w late (rw e at h))
        ]

    -- With no more than its reserve left of the cycle's time before the analysts, the cycle raises
    -- at once: no model is called and the world is unchanged.
    pub execute-late_start :
        (w : World)
        → is_exceeded (deadline f env settings) (env.now_ms before_analysts) analyst_reserve_ms
          ≡ true
        → execute f env settings ctx portfolio w
          ≡ (raised (deadline_exceeded analyst_reserve_ms), w)
    unfolding execute analysts_stage ◌>>=◌
    execute-late_start w late =
        rw (then-late (deadline f env settings) before_analysts analyst_reserve_ms _ w late) refl

    -- With no more than its reserve left of the cycle's time before the risk assessor, a cycle that
    -- returns at all returns no trade: nothing is approved.
    pub execute-late :
        (w : World) (r : CycleResult)
        → is_exceeded (deadline f env settings) (env.now_ms before_risk) risk_reserve_ms ≡ true
        → (execute f env settings ctx portfolio w).0 ≡ ok r
        → r.verdict ≡ noop
    unfolding execute
    execute-late w r late h =
        let (a, w1, h1) = bind-ok _ _ w h in
        let (b, w2, h2) = bind-ok _ _ w1 h1 in
        let (c, w3, h3) = bind-ok _ _ w2 h2 in
        let ((proposal, ids), w4, h4) = bind-ok _ _ w3 h3 in route-late proposal ids w4 late h4
