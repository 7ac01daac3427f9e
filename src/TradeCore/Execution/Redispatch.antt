-- ===== src/TradeCore/Execution/Redispatch.antt =====
-- A dispatch after a failed transaction, by the release of the claim: execution_router.py, the handler
-- round step 4 of `dispatch`.
use lumine_hedge_fund.Prelude.{
  ◌∙◌, ◌+◌, ◌||◌, ltb, leb, if◌then◌else◌, Bool-cases, ℕ, ◌≡◌, Bool, true, false, Option, none,
  List, [], ◌∷◌, ◌++◌, String, arith, lookup, Option-cases, inl, inr,
}
use lumine_hedge_fund.Bridge.{BridgeCommand, BridgeResult}
use lumine_hedge_fund.TradeCore.Execution.{
  Claim, World, Environment, Reply, replied, timed_out, not_pushed, broken, persist_failed, raised,
  TcaDispatchContext, order_key, is_claimed, claim, released, staged, persist, send, dispatch,
  rolled_back, dedup_ttl,
}
use lumine_hedge_fund.TradeCore.Execution.Claims.{is_claimed-released, is_claimed-claim_eq}
use lumine_hedge_fund.TradeCore.Execution.Replay.{staged-processed}

persist-failed :
    (v : World) (env : Environment) (l : String) (c : BridgeCommand) (n : ℕ)
    (ctx : Option TcaDispatchContext) (r : BridgeResult)
    → (persist v env l c n ctx r).1 ≡ raised persist_failed
    → (persist v env l c n ctx r).0 ≡ rolled_back v env.releases c n
unfolding persist
persist-failed v env l c n ctx r h = ground arith

persist-sent :
    (v : World) (env : Environment) (l : String) (c : BridgeCommand) (n : ℕ)
    (ctx : Option TcaDispatchContext) (r : BridgeResult)
    → (persist v env l c n ctx r).0.sent ≡ v.sent
unfolding persist
persist-sent v env l c n ctx r = elim (Option-cases (staged v l c r ctx)) [
  | inl e ↦ ground arith
  | inr (w', e) ↦ ground (arith, staged-processed v w' l c r ctx e)
]

-- The world that a failed transaction leaves.
abbrev after_failure : World → Bool → List Claim → BridgeCommand → ℕ → World
after_failure w releases cs c n = record w {
  claims = if releases then released (order_key c) n cs else cs;
  sent = w.sent ++ c ∷ [];
}

module _ (w : World) (cs : List Claim) (now : ℕ) (commits releases : Bool) (l : String)
    (c : BridgeCommand) (n : ℕ) (ctx : Option TcaDispatchContext) where
  send-failed :
      (reply : Reply)
      → let out =
          send
            (record w { claims = cs })
            (record { now = now; reply = reply; commits = commits; releases = releases })
            l
            c
            n
            ctx in
        out.1 ≡ raised persist_failed → out.0 ≡ after_failure w releases cs c n
  unfolding send
  send-failed (replied r) h =
      persist-failed (record w { claims = cs; sent = w.sent ++ c ∷ [] })
        (record { now = now; reply = replied r; commits = commits; releases = releases }) l c n ctx
        r h
  send-failed timed_out h = cc
  send-failed not_pushed h = cc
  send-failed broken h = cc

dispatch-failed :
    (w : World) (env : Environment) (l : String) (c : BridgeCommand) (n : ℕ)
    (ctx : Option TcaDispatchContext)
    → (dispatch w env l c n ctx).1 ≡ raised persist_failed
    → (lookup l w.processed ≡ none)
      × ((dispatch w env l c n ctx).0
          ≡ after_failure w env.releases (claim (order_key c) n env.now w.claims) c n)
unfolding dispatch
dispatch-failed w env l c n ctx h = ground (
  arith,
  send-failed w (claim (order_key c) n env.now w.claims) env.now env.commits env.releases l c n ctx
      env.reply,
)

dispatch-sends :
    (w : World) (env : Environment) (l : String) (c : BridgeCommand) (n : ℕ)
    (ctx : Option TcaDispatchContext) {r : BridgeResult}
    → lookup l w.processed ≡ none
    → is_claimed (order_key c) n env.now w.claims ≡ false
    → env.reply ≡ replied r
    → (dispatch w env l c n ctx).0.sent ≡ w.sent ++ c ∷ []
unfolding dispatch send
dispatch-sends w env l c n ctx {r} new free e = ground (
  arith,
  persist-sent
      (record w { claims = claim (order_key c) n env.now w.claims; sent = w.sent ++ c ∷ [] }) env l
      c n ctx r,
)

dispatch-refused :
    (w : World) (env : Environment) (l : String) (c : BridgeCommand) (n : ℕ)
    (ctx : Option TcaDispatchContext)
    → lookup l w.processed ≡ none
    → is_claimed (order_key c) n env.now w.claims ≡ true
    → (dispatch w env l c n ctx).0.sent ≡ w.sent
unfolding dispatch
dispatch-refused w env l c n ctx new taken = ground arith

-- After a call that failed in its transaction, which is after the bridge had replied, the next
-- dispatch of the decision to which the bridge would reply pushes the command a second time where the
-- claim was released, or where its hour is over by then. Where the deletion of the claim failed and the
-- hour is not over, it pushes nothing.
pub dispatch_after_persist_failure :
    (w : World) (env later : Environment) (l : String) (c : BridgeCommand) (n : ℕ)
    (ctx : Option TcaDispatchContext) {r : BridgeResult}
    → (dispatch w env l c n ctx).1 ≡ raised persist_failed
    → later.reply ≡ replied r
    → (dispatch (dispatch w env l c n ctx).0 later l c n ctx).0.sent ≡ (
        if env.releases || leb (env.now + dedup_ttl) later.now
        then (w.sent ++ c ∷ []) ++ c ∷ []
        else w.sent ++ c ∷ [])
dispatch_after_persist_failure w env later l c n ctx h e =
    let (new, after) = dispatch-failed w env l c n ctx h in
    let cs = claim (order_key c) n env.now w.claims in
    let key = order_key c in
    rw after (elim (Bool-cases env.releases) [
      | inl released_ ↦ rw released_ (
          dispatch-sends (after_failure w true cs c n) later l c n ctx new
            (is_claimed-released key n later.now cs) e)
      | inr held ↦ elim (Bool-cases (leb (env.now + dedup_ttl) later.now)) [
        | inl over ↦
            let free : ltb later.now (env.now + dedup_ttl) ≡ false = ground arith in
            rw (held, over)
              (dispatch-sends (after_failure w false cs c n) later l c n ctx new
                (is_claimed-claim_eq key n env.now later.now w.claims ∙ free) e)
        | inr within ↦
            let taken : ltb later.now (env.now + dedup_ttl) ≡ true = ground arith in
            rw (held, within)
              (dispatch-refused (after_failure w false cs c n) later l c n ctx new
                (is_claimed-claim_eq key n env.now later.now w.claims ∙ taken))
      ]
    ])
