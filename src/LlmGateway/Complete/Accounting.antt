-- ===== src/LlmGateway/Complete/Accounting.antt =====
-- The usage rows of calls: gateway.py, `complete_async`.
use lumine_hedge_fund.Prelude.{
  ◌≡◌, refl, ◌⊎◌, inl, inr, true, false, Option, none, some, List, [], ◌∷◌, ◌++◌, Bool-cases, Dict,
  lookup,
}
use lumine_hedge_fund.Decimal.{Decimal}
use lumine_hedge_fund.LlmGateway.Budget.{
  Floats, CostPolicy, BudgetDecision, Checked, passed, exceeded, check,
}
use lumine_hedge_fund.LlmGateway.Fallback.{
  Route, GatewayResponse, Ended, answered, no_fallbacks, exhausted, run_chain,
}
use lumine_hedge_fund.LlmGateway.Complete.{
  RouterRequest, LlmUsage, Completed, ok, Gateway, Routes, routes, unavailable, routes_for,
  record_usage, used_route, hops_used, written, account, settle, call_routes, gated, complete_async,
  effective_spend, cost_usd, price_of,
}

-- What a call did to the table, by how it ended. A result carries the row that was appended, if
-- there is a session, with the decision's flag and the route that answered.
abbrev pub Recorded : Gateway → RouterRequest → List LlmUsage → Completed → List LlmUsage → Type 0
Recorded g request table (ok result) table' =
    ((g.has_session ≡ false) × (result.usage ≡ none) × (table' ≡ table))
    ⊎ ((row : LlmUsage) × (g.has_session ≡ true)
        × (result.usage ≡ some row)
        × (table' ≡ table ++ row ∷ [])
        × (row.degraded ≡ result.decision.degraded)
        × (row.fallback_hops ≡ result.fallback_hops)
        × (row.lineage_id ≡ request.lineage_id)
        × (row.role ≡ request.role))
Recorded g request table _ table' = table' ≡ table

written-Recorded :
    (g : Gateway) (q : RouterRequest) (d : BudgetDecision) (p : Route) (hs : List Route)
    (r : GatewayResponse) (cost : Option Decimal) (table : List LlmUsage)
    → g.has_session ≡ true
    → let out = written g q d p hs r cost table in Recorded g q table out.0 out.1
unfolding written record_usage
written-Recorded g q d p hs r none table s = refl
written-Recorded g q d p hs r (some cost) table s = elim (Bool-cases g.flushes) [
  | inl e ↦ rw e (
      inr (
        record_usage q r (used_route p hs r) cost (hops_used p hs r) d.degraded,
        s,
        refl,
        refl,
        refl,
        refl,
        refl,
        refl,
      ))
  | inr e ↦ rw e refl
]

account-Recorded :
    (g : Gateway) (q : RouterRequest) (d : BudgetDecision) (p : Route) (hs : List Route)
    (r : GatewayResponse) (table : List LlmUsage)
    → let out = account g q d p hs r table in Recorded g q table out.0 out.1
unfolding account
account-Recorded g q d p hs r table =
    let price = price_of (lookup (used_route p hs r).model g.prices) in
    elim (Bool-cases g.has_session) [
      | inl e ↦ simp e (
          written-Recorded g q d p hs r
            (cost_usd r.prompt_tokens r.completion_tokens price.0 price.1) table e)
      | inr e ↦ simp e (inl (refl, refl, refl))
    ]

settle-Recorded :
    (g : Gateway) (q : RouterRequest) (d : BudgetDecision) (p : Route) (hs : List Route) (e : Ended)
    (table : List LlmUsage)
    → let out = settle g q d p hs e table in Recorded g q table out.0 out.1
unfolding settle
settle-Recorded g q d p hs (answered r) table = account-Recorded g q d p hs r table
settle-Recorded g q d p hs (no_fallbacks e) table = refl
settle-Recorded g q d p hs (exhausted e) table = refl

call_routes-Recorded :
    (g : Gateway) (q : RouterRequest) (d : BudgetDecision) (rs : Routes) (table : List LlmUsage)
    → let out = call_routes g q d rs table in Recorded g q table out.0 out.2
unfolding call_routes
call_routes-Recorded g q d (unavailable r) table = refl
call_routes-Recorded g q d (routes p hs) table =
    settle-Recorded g q d p hs (run_chain g.client p hs).0 table

module _ (f : Floats) where
  gated-Recorded :
      (g : Gateway) (q : RouterRequest) (c : Checked) (table : List LlmUsage)
      → let out = gated f g q c table in Recorded g q table out.0 out.2
  unfolding gated
  gated-Recorded g q (passed d) table = call_routes-Recorded g q d (routes_for g q) table
  gated-Recorded g q (exceeded r) table = refl

  -- However a gateway call ends, the table of usage grows by exactly one row if the call returns a
  -- result under a session, a row with the degrade flag of the budget decision and the hop count of
  -- the result, and stays as it was otherwise.
  pub complete_async-Recorded :
      (policy : CostPolicy f) (own : Dict f.Float) (g : Gateway) (q : RouterRequest)
      (spend : Dict f.Float) (table : List LlmUsage)
      → let out = complete_async f policy own g q spend table in Recorded g q table out.0 out.2
  unfolding complete_async
  complete_async-Recorded policy own g q spend table =
      gated-Recorded g q (check f policy (effective_spend f spend own) q.tier q.role) table
