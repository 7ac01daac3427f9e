-- ===== src/TradeCore/Execution/Atomic.antt =====
-- The rows that a dispatch stores: execution_router.py, step 4 of `dispatch`.
use lumine_hedge_fund.Prelude.{
  ℕ, ◌≡◌, refl, Bool, Option, none, some, List, [], ◌∷◌, ◌++◌, String, arith, Option-cases, inl,
  inr, ap,
}
use lumine_hedge_fund.Decimal.{Decimal}
use lumine_hedge_fund.Bridge.{BridgeCommand, BridgeResult}
use lumine_hedge_fund.TradeCore.Tca
use lumine_hedge_fund.TradeCore.Tca.{
  Tick, Fill, TcaRecord, Calendar, Outcome, persist_tca, resolve_benchmark, calculate_tca,
}
use lumine_hedge_fund.TradeCore.Execution.{
  World, FillRow, Environment, Reply, replied, timed_out, not_pushed, broken, TcaDispatchContext,
  order_key, claim, staged, staged_fill, persist, send, dispatch, decided_at,
}

abbrev pub fill_ids : List FillRow → List ℕ
fill_ids [] = []
fill_ids (row ∷ rows) = row.fill.fill_id ∷ fill_ids rows

abbrev pub tca_ids : List TcaRecord → List ℕ
tca_ids [] = []
tca_ids (t ∷ ts) = t.fill_id ∷ tca_ids ts

-- Every fill has its analysis, in the order of the fills.
abbrev pub IsPaired : World → Type 0
IsPaired w = fill_ids w.fills ≡ tca_ids w.tca_records

fill_ids-append :
    (xs : List FillRow) (row : FillRow)
    → fill_ids (xs ++ row ∷ []) ≡ fill_ids xs ++ row.fill.fill_id ∷ []
fill_ids-append [] row = refl
fill_ids-append (x ∷ xs) row = ap (λ r. x.fill.fill_id ∷ r) (fill_ids-append xs row)

tca_ids-append :
    (xs : List TcaRecord) (t : TcaRecord) → tca_ids (xs ++ t ∷ []) ≡ tca_ids xs ++ t.fill_id ∷ []
tca_ids-append [] t = refl
tca_ids-append (x ∷ xs) t = ap (λ r. x.fill_id ∷ r) (tca_ids-append xs t)

persist_tca-fill_id :
    (ticks : List Tick) (f : Fill) (d : ℕ) (v : Decimal) (p : Option Decimal)
    (cal : Option Calendar) {t : TcaRecord}
    → persist_tca ticks f d v p cal ≡ Tca.ok t
    → t.fill_id ≡ f.fill_id
unfolding persist_tca
persist_tca-fill_id ticks f d v p cal h = ground arith

staged_fill-ids :
    (w : World) (l : String) (c : BridgeCommand) (r : BridgeResult) (ctx : TcaDispatchContext)
    (row : FillRow) (t : TcaRecord)
    → staged_fill w l c r ctx ≡ some (row, t)
    → t.fill_id ≡ row.fill.fill_id
unfolding staged_fill
staged_fill-ids w l c r ctx row t h = elim (Option-cases r.fill_price) [
  | inl e ↦ ground arith
  | inr (price, e) ↦ elim (Option-cases r.fill_volume) [
    | inl e' ↦ ground arith
    | inr (volume, e') ↦
        let f : Fill = record {
          fill_id = w.next_fill_id;
          symbol = c.symbol;
          side = c.action;
          size = volume;
          price = price;
        } in
        ground (
          arith,
          persist_tca-fill_id w.ticks f (decided_at ctx.decision_ts c.timestamp) ctx.pip_value
              ctx.pip_size ctx.calendar {t = t},
        )
  ]
]

staged-IsPaired :
    (w w' : World) (l : String) (c : BridgeCommand) (r : BridgeResult)
    (ctx : Option TcaDispatchContext)
    → IsPaired w
    → staged w l c r ctx ≡ some w'
    → IsPaired w'
unfolding staged
staged-IsPaired w w' l c r none p h = ground arith
staged-IsPaired w w' l c r (some ctx) p h = elim (Option-cases (staged_fill w l c r ctx)) [
  | inl e ↦ ground arith
  | inr ((row, t), e) ↦ ground (
    arith,
    staged_fill-ids w l c r ctx row t e,
    fill_ids-append w.fills row,
    tca_ids-append w.tca_records t,
  )
]

persist-IsPaired :
    (w : World) (env : Environment) (l : String) (c : BridgeCommand) (n : ℕ)
    (ctx : Option TcaDispatchContext) (r : BridgeResult)
    → IsPaired w
    → IsPaired (persist w env l c n ctx r).0
unfolding persist
persist-IsPaired w env l c n ctx r p = elim (Option-cases (staged w l c r ctx)) [
  | inl e ↦ ground arith
  | inr (w', e) ↦ ground (arith, staged-IsPaired w w' l c r ctx p e)
]

module _ (w : World) (now : ℕ) (commits releases : Bool) (l : String) (c : BridgeCommand) (n : ℕ)
    (ctx : Option TcaDispatchContext) (p : IsPaired w) where
  send-IsPaired :
      (reply : Reply)
      → IsPaired
          (send w
            (record { now = now; reply = reply; commits = commits; releases = releases })
            l
            c
            n
            ctx).0
  unfolding send
  send-IsPaired (replied r) =
      persist-IsPaired (record w { sent = w.sent ++ c ∷ [] })
        (record { now = now; reply = replied r; commits = commits; releases = releases }) l c n ctx
        r p
  send-IsPaired timed_out = p
  send-IsPaired not_pushed = p
  send-IsPaired broken = p

-- However a dispatch ends, the fills and the analyses stay paired: a fill is never stored without
-- its analysis, nor an analysis without its fill.
pub dispatch-IsPaired :
    (w : World) (env : Environment) (l : String) (c : BridgeCommand) (n : ℕ)
    (ctx : Option TcaDispatchContext)
    → IsPaired w
    → IsPaired (dispatch w env l c n ctx).0
unfolding dispatch
dispatch-IsPaired w env l c n ctx p = ground (
  arith,
  send-IsPaired (record w { claims = claim (order_key c) n env.now w.claims }) env.now env.commits
      env.releases l c n ctx p env.reply,
)
