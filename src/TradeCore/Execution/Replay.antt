-- ===== src/TradeCore/Execution/Replay.antt =====
-- Repeated dispatches: execution_router.py, the two gates of `dispatch`.
use lumine_hedge_fund.Prelude.{
  ℕ, ◌+◌, ◌<◌, ◌≡◌, ◌≢◌, refl, ◌⊎◌, inl, inr, Bool, true, false, Option, none, some, List, [], ◌∷◌,
  ◌++◌, String, arith, lookup, lookup-insert, Option-cases,
}
use text.Mathlib.TextPositions.{eq_refl}
use lumine_hedge_fund.Bridge.{BridgeCommand, BridgeResult, status_value}
use lumine_hedge_fund.TradeCore.Execution.{
  Claim, World, Environment, Reply, replied, timed_out, not_pushed, broken, DispatchResult,
  DispatchError, duplicate_dispatch, persist_failed, Dispatched, ok, raised, TcaDispatchContext,
  order_key, is_claimed, claim, dedup_ttl, staged, persist, send, dispatch, staged_fill,
}
use lumine_hedge_fund.TradeCore.Execution.Claims.{is_claimed-claim}

-- A dispatch of a processed decision returns the stored status, sends nothing and changes nothing.
pub dispatch-replays :
    (w : World) (env : Environment) (lineage_id : String) (command : BridgeCommand) (attempt : ℕ)
    (context : Option TcaDispatchContext) {status : String}
    → lookup lineage_id w.processed ≡ some status
    → dispatch w env lineage_id command attempt context
      ≡ (w, ok (record { status = status; ticket = none; fill_price = none; replayed = true }))
unfolding dispatch
dispatch-replays w env l c n ctx h = ground arith

pub staged-processed :
    (w w' : World) (l : String) (c : BridgeCommand) (r : BridgeResult)
    (ctx : Option TcaDispatchContext)
    → staged w l c r ctx ≡ some w'
    → (lookup l w'.processed ≡ some (status_value r.status))
      × (w'.sent ≡ w.sent)
      × (w'.claims ≡ w.claims)
unfolding staged
staged-processed w w' l c r none h =
    ground (arith, lookup-insert l l (status_value r.status) w.processed, eq_refl l)
staged-processed w w' l c r (some ctx) h = elim (Option-cases (staged_fill w l c r ctx)) [
  | inl e ↦ ground (arith, lookup-insert l l (status_value r.status) w.processed, eq_refl l)
  | inr ((row, t), e) ↦
      ground (arith, lookup-insert l l (status_value r.status) w.processed, eq_refl l)
]

-- What a call did, by how it ended: a replay read the stored status and changed nothing; an
-- execution pushed the command once and marked the decision; an error left the tables alone.
abbrev pub Effect : World → World → String → BridgeCommand → Dispatched → Type 0
Effect w w' l c (ok r) =
    ((r.replayed ≡ true) × (w' ≡ w) × (lookup l w.processed ≡ some r.status))
    ⊎ ((r.replayed ≡ false)
        × (lookup l w.processed ≡ none)
        × (w'.sent ≡ w.sent ++ c ∷ [])
        × (lookup l w'.processed ≡ some r.status))
Effect w w' l c (raised e) =
    (w'.processed ≡ w.processed)
    × (w'.fills ≡ w.fills)
    × (w'.tca_records ≡ w.tca_records)
    × ((w'.sent ≡ w.sent) ⊎ (w'.sent ≡ w.sent ++ c ∷ []))

persist-Effect :
    (w : World) (cs : List Claim) (env : Environment) (l : String) (c : BridgeCommand) (n : ℕ)
    (ctx : Option TcaDispatchContext) (r : BridgeResult)
    → lookup l w.processed ≡ none
    → let v : World = record w { claims = cs; sent = w.sent ++ c ∷ [] } in
      let out = persist v env l c n ctx r in Effect w out.0 l c out.1
unfolding persist
persist-Effect w cs env l c n ctx r h =
    let v : World = record w { claims = cs; sent = w.sent ++ c ∷ [] } in
    elim (Option-cases (staged v l c r ctx)) [
      | inl e ↦ ground arith
      | inr (w', e) ↦ ground (arith, staged-processed v w' l c r ctx e)
    ]

module _ (w : World) (cs : List Claim) (now : ℕ) (commits releases : Bool) (l : String)
    (c : BridgeCommand) (n : ℕ) (ctx : Option TcaDispatchContext)
    (new : lookup l w.processed ≡ none) where
  reply-Effect :
      (reply : Reply)
      → let out =
          send
            (record w { claims = cs })
            (record { now = now; reply = reply; commits = commits; releases = releases })
            l
            c
            n
            ctx in
        Effect w out.0 l c out.1
  unfolding send
  reply-Effect (replied r) =
      persist-Effect w cs
        (record { now = now; reply = replied r; commits = commits; releases = releases }) l c n ctx
        r new
  reply-Effect timed_out = (refl, refl, refl, inr refl)
  reply-Effect not_pushed = (refl, refl, refl, inl refl)
  reply-Effect broken = (refl, refl, refl, inr refl)

-- Every call either replays the stored status and changes nothing, or pushes the command once and
-- marks the decision with the status it returns, or fails, pushes at most once, and leaves the
-- processed decisions, fills and analyses alone.
pub dispatch-Effect :
    (w : World) (env : Environment) (l : String) (c : BridgeCommand) (n : ℕ)
    (ctx : Option TcaDispatchContext)
    → let out = dispatch w env l c n ctx in Effect w out.0 l c out.1
unfolding dispatch
dispatch-Effect w env l c n ctx = elim (Option-cases (lookup l w.processed)) [
  | inl e ↦ ground (
    arith,
    reply-Effect w (claim (order_key c) n env.now w.claims) env.now env.commits env.releases l c n
        ctx e env.reply,
  )
  | inr (status, e) ↦ ground arith
]

Effect-marked :
    (w w' : World) (l : String) (c : BridgeCommand) (d : Dispatched) {r : DispatchResult}
    → Effect w w' l c d
    → d ≡ ok r
    → lookup l w'.processed ≡ some r.status
Effect-marked w w' l c (ok q) eff e = ground arith
Effect-marked w w' l c (raised q) eff e = cc

-- After a dispatch that returned, any further dispatch of the decision, at any time and with any
-- command and attempt, is a replay of its status, which sends nothing and changes nothing.
pub dispatch_twice :
    (w : World) (env later : Environment) (l : String) (c c' : BridgeCommand) (n n' : ℕ)
    (ctx ctx' : Option TcaDispatchContext) {r : DispatchResult}
    → (dispatch w env l c n ctx).1 ≡ ok r
    → let w' = (dispatch w env l c n ctx).0 in
      dispatch w' later l c' n' ctx'
      ≡ (w', ok (record { status = r.status; ticket = none; fill_price = none; replayed = true }))
dispatch_twice w env later l c c' n n' ctx ctx' {r} h =
    let out = dispatch w env l c n ctx in
    dispatch-replays out.0 later l c' n' ctx'
      (Effect-marked w out.0 l c out.1 (dispatch-Effect w env l c n ctx) h)

persist-error :
    (v : World) (env : Environment) (l : String) (c : BridgeCommand) (n : ℕ)
    (ctx : Option TcaDispatchContext) (r : BridgeResult) {e : DispatchError}
    → (persist v env l c n ctx r).1 ≡ raised e
    → e ≡ persist_failed
unfolding persist
persist-error v env l c n ctx r h = ground arith

module _ (w : World) (cs : List Claim) (now : ℕ) (commits releases : Bool) (l : String)
    (c : BridgeCommand) (n : ℕ) (ctx : Option TcaDispatchContext) {e : DispatchError}
    (ne : e ≢ persist_failed) where
  send-claims :
      (reply : Reply)
      → let out =
          send
            (record w { claims = cs })
            (record { now = now; reply = reply; commits = commits; releases = releases })
            l
            c
            n
            ctx in
        out.1 ≡ raised e → out.0.claims ≡ cs
  unfolding send
  send-claims (replied r) h = absurd (
      ne (
        persist-error (record w { claims = cs; sent = w.sent ++ c ∷ [] })
          (record { now = now; reply = replied r; commits = commits; releases = releases }) l c n
          ctx r h))
  send-claims timed_out h = refl
  send-claims not_pushed h = refl
  send-claims broken h = refl

dispatch-claims :
    (w : World) (env : Environment) (l : String) (c : BridgeCommand) (n : ℕ)
    (ctx : Option TcaDispatchContext) {e : DispatchError}
    → lookup l w.processed ≡ none
    → is_claimed (order_key c) n env.now w.claims ≡ false
    → e ≢ persist_failed
    → (dispatch w env l c n ctx).1 ≡ raised e
    → (dispatch w env l c n ctx).0.claims ≡ claim (order_key c) n env.now w.claims
unfolding dispatch
dispatch-claims w env l c n ctx new free ne h = ground (
  arith,
  send-claims w (claim (order_key c) n env.now w.claims) env.now env.commits env.releases l c n ctx
      ne env.reply,
)

Effect-unmarked :
    (w w' : World) (l : String) (c : BridgeCommand) (d : Dispatched) {e : DispatchError}
    → Effect w w' l c d
    → d ≡ raised e
    → w'.processed ≡ w.processed
Effect-unmarked w w' l c (ok q) eff e = cc
Effect-unmarked w w' l c (raised q) eff e = eff.0

duplicate :
    (w : World) (env : Environment) (l : String) (c : BridgeCommand) (n : ℕ)
    (ctx : Option TcaDispatchContext)
    → lookup l w.processed ≡ none
    → is_claimed (order_key c) n env.now w.claims ≡ true
    → dispatch w env l c n ctx ≡ (w, raised duplicate_dispatch)
unfolding dispatch
duplicate w env l c n ctx new taken = ground arith

-- Where neither decision is processed and the attempt was not claimed: after a call that failed
-- otherwise than in its transaction, a further dispatch of the same order and attempt within the
-- hour is refused, for whatever decision and command, and leaves the world as it is.
pub dispatch_after_failure :
    (w : World) (env later : Environment) (l l' : String) (c c' : BridgeCommand) (n : ℕ)
    (ctx ctx' : Option TcaDispatchContext) {e : DispatchError}
    → lookup l w.processed ≡ none
    → lookup l' w.processed ≡ none
    → is_claimed (order_key c) n env.now w.claims ≡ false
    → (dispatch w env l c n ctx).1 ≡ raised e
    → e ≢ persist_failed
    → order_key c' ≡ order_key c
    → later.now < env.now + dedup_ttl
    → let w' = (dispatch w env l c n ctx).0 in
      dispatch w' later l' c' n ctx' ≡ (w', raised duplicate_dispatch)
dispatch_after_failure w env later l l' c c' n ctx ctx' {e} new new' free h ne same soon =
    let out = dispatch w env l c n ctx in
    let unmarked = Effect-unmarked w out.0 l c out.1 (dispatch-Effect w env l c n ctx) h in
    duplicate out.0 later l' c' n ctx' (rw unmarked new') (
      rw (same, dispatch-claims w env l c n ctx new free ne h)
        (is_claimed-claim (order_key c) n env.now later.now w.claims soon))
