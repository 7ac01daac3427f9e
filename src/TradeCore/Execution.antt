-- ===== src/TradeCore/Execution.antt =====
-- backend/src/lumine/trade_core/execution_router.py. The world is what the router reads and writes:
-- the tables `processed_commands`, `fills`, `tca_records` and `ticks`, the Redis claims with their
-- expiry, and the commands pushed to the bridge. One call's environment says how the bridge answers
-- and whether the database takes the transaction; concurrent calls are not modelled, nor an exception of
-- `session.get` or of `redis.set`, with which a call ends before it pushes anything. The claim's key is
-- the pair that the key's text shows.
pub mod Claims
pub mod Replay
pub mod Redispatch
pub mod Atomic
mod Tests
use lumine_hedge_fund.Prelude.{
  ℕ, ◌+◌, Bool, true, false, not, ◌&&◌, ◌||◌, Option, none, some, List, [], ◌∷◌, ◌++◌, String,
  str_eq, ltb, ◌==◌, if◌then◌else◌, Dict, lookup, insert,
}
use lumine_hedge_fund.Decimal.{Decimal}
use lumine_hedge_fund.Bridge.{
  BridgeStatus, status_value, filled, partial, BridgeCommand, BridgeResult,
}
use lumine_hedge_fund.TradeCore.Tca.{Tick, Fill, TcaRecord, Calendar, Outcome, persist_tca}
use lumine_hedge_fund.TradeCore.Tca

-- `_DEDUP_TTL_S`
abbrev pub dedup_ttl : ℕ
dedup_ttl = 3600

pub record DispatchResult : Type 0 where
  pub status : String
  pub ticket : Option ℕ
  pub fill_price : Option Decimal
  pub replayed : Bool

pub record TcaDispatchContext : Type 0 where
  pub strategy_id : String
  pub book : String
  pub pip_value : Decimal
  pub pip_size : Option Decimal
  pub commission : Decimal
  pub decision_ts : Option ℕ
  pub calendar : Option Calendar

-- A row of `fills`: what the analysis reads, and the rest.
pub record FillRow : Type 0 where
  pub lineage_id : String
  pub fill : Fill
  pub commission : Decimal
  pub book : String
  pub strategy_id : String

-- A claim of an order's attempt, until it expires.
pub record Claim : Type 0 where
  pub order_id : String
  pub attempt : ℕ
  pub expires : ℕ

pub record World : Type 0 where
  pub processed : Dict String
  pub claims : List Claim
  pub sent : List BridgeCommand
  pub fills : List FillRow
  pub tca_records : List TcaRecord
  pub ticks : List Tick
  pub next_fill_id : ℕ

-- How `send_and_wait` ends: with a result, with `BridgeTimeoutError`, or with another exception
-- before or after the command was pushed.
pub data Reply : Type 0 where
  replied : BridgeResult → Reply
  timed_out not_pushed broken : Reply

pub record Environment : Type 0 where
  pub now : ℕ
  pub reply : Reply
  pub commits : Bool
  -- whether `redis.delete` takes the claim away; its exception is suppressed
  pub releases : Bool

pub data DispatchError : Type 0 where
  duplicate_dispatch no_bridge_result persist_failed bridge_failed : DispatchError

pub data Dispatched : Type 0 where
  ok : DispatchResult → Dispatched
  raised : DispatchError → Dispatched

-- `command.order_id or command.command_id`: an empty text counts as none.
unfoldable pub order_key : BridgeCommand → String
order_key c = elim c.order_id [
  | none ↦ c.command_id
  | some o ↦ if str_eq o "" then c.command_id else o
]

unfoldable pub is_claim_of : String → ℕ → Claim → Bool
is_claim_of order_id attempt c = str_eq c.order_id order_id && (c.attempt == attempt)

-- Whether the key is set at the time `now`.
unfoldable pub is_claimed : String → ℕ → ℕ → List Claim → Bool
unfolding is_claim_of
is_claimed order_id attempt now [] = false
is_claimed order_id attempt now (c ∷ cs) =
    (is_claim_of order_id attempt c && ltb now c.expires) || is_claimed order_id attempt now cs

-- `redis.delete(key)`
unfoldable pub released : String → ℕ → List Claim → List Claim
unfolding is_claim_of
released order_id attempt [] = []
released order_id attempt (c ∷ cs) =
    let rest = released order_id attempt cs in
    if is_claim_of order_id attempt c then rest else c ∷ rest

-- `redis.set(key, "1", nx=True, ex=3600)`, where the key is not set.
unfoldable pub claim : String → ℕ → ℕ → List Claim → List Claim
unfolding released
claim order_id attempt now cs =
    record { order_id = order_id; attempt = attempt; expires = now + dedup_ttl }
    ∷ released order_id attempt cs

unfoldable pub is_executed : BridgeStatus → Bool
is_executed BridgeStatus.filled = true
is_executed BridgeStatus.partial = true
is_executed _ = false

-- `tca_context.decision_ts or command.timestamp`
unfoldable pub decided_at : Option ℕ → ℕ → ℕ
decided_at none timestamp = timestamp
decided_at (some t) timestamp = t

-- What the transaction of a filled command stages: the fill and its analysis, or `none` where the
-- result lacks a price or a volume, or the analysis raises.
unfoldable pub staged_fill :
    World
    → String
    → BridgeCommand
    → BridgeResult
    → TcaDispatchContext
    → Option (FillRow × TcaRecord)
staged_fill w lineage_id command result ctx = elim result.fill_price [
  | none ↦ none
  | some price ↦ elim result.fill_volume [
    | none ↦ none
    | some volume ↦
        let fill : Fill = record {
          fill_id = w.next_fill_id;
          symbol = command.symbol;
          side = command.action;
          size = volume;
          price = price;
        } in
        let row : FillRow = record {
          lineage_id = lineage_id;
          fill = fill;
          commission = ctx.commission;
          book = ctx.book;
          strategy_id = ctx.strategy_id;
        } in
        let decided = decided_at ctx.decision_ts command.timestamp in
        elim (persist_tca w.ticks fill decided ctx.pip_value ctx.pip_size ctx.calendar) [
          | Tca.ok tca ↦ some (row, tca)
          | Tca.raised e ↦ none
        ]
  ]
]

-- The world after the transaction; `none` where it fails before the commit.
unfoldable pub staged :
    World → String → BridgeCommand → BridgeResult → Option TcaDispatchContext → Option World
staged w lineage_id command result none =
    some (record w { processed = insert lineage_id (status_value result.status) w.processed })
staged w lineage_id command result (some ctx) =
    let marked = insert lineage_id (status_value result.status) w.processed in
    if is_executed result.status
    then elim (staged_fill w lineage_id command result ctx) [
      | none ↦ none
      | some (row, tca) ↦ some (record w {
        processed = marked;
        fills = w.fills ++ row ∷ [];
        tca_records = w.tca_records ++ tca ∷ [];
        next_fill_id = w.next_fill_id + 1;
      })
    ]
    else some (record w { processed = marked })

-- Rollback, and the release of the claim, which stays where the deletion fails.
abbrev pub rolled_back : World → Bool → BridgeCommand → ℕ → World
rolled_back w releases command attempt = record w {
  claims = if releases then released (order_key command) attempt w.claims else w.claims;
}

-- Step 4: persist the result of the bridge, or roll back.
unfoldable pub persist :
    World
    → Environment
    → String
    → BridgeCommand
    → ℕ
    → Option TcaDispatchContext
    → BridgeResult
    → World × Dispatched
persist w env lineage_id command attempt context result =
    elim (staged w lineage_id command result context) [
      | none ↦ (rolled_back w env.releases command attempt, raised persist_failed)
      | some w' ↦
          if env.commits
          then (
            w',
            ok (record {
              status = status_value result.status;
              ticket = result.ticket;
              fill_price = result.fill_price;
              replayed = false;
            }),
          )
          else (rolled_back w env.releases command attempt, raised persist_failed)
    ]

-- Step 3: push the command, and wait for the bridge.
unfoldable pub send :
    World
    → Environment
    → String
    → BridgeCommand
    → ℕ
    → Option TcaDispatchContext
    → World × Dispatched
unfolding persist
send w env lineage_id command attempt context =
    let pushed : World = record w { sent = w.sent ++ command ∷ [] } in
    elim env.reply [
      | replied result ↦ persist pushed env lineage_id command attempt context result
      | timed_out ↦ (pushed, raised no_bridge_result)
      | not_pushed ↦ (w, raised bridge_failed)
      | broken ↦ (pushed, raised bridge_failed)
    ]

unfoldable pub dispatch :
    World
    → Environment
    → String
    → BridgeCommand
    → ℕ
    → Option TcaDispatchContext
    → World × Dispatched
unfolding send
dispatch w env lineage_id command attempt context = elim (lookup lineage_id w.processed) [
  | some status ↦
      (w, ok (record { status = status; ticket = none; fill_price = none; replayed = true }))
  | none ↦
      if is_claimed (order_key command) attempt env.now w.claims
      then (w, raised duplicate_dispatch)
      else let claimed : World = record w {
        claims = claim (order_key command) attempt env.now w.claims;
      } in
        send claimed env lineage_id command attempt context
]
