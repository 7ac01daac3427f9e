-- ===== src/Lib.antt =====
-- Lumine: verification of the backend of the trading system, Python in backend/src/lumine.
--
-- The program decides trades with language models and executes them with deterministic code. A call
-- of a model goes through the gateway (llm_gateway): a tier is chosen, the budget gate lets the call
-- pass or blocks it, a pinned model version is resolved, a chain of routes is tried, and one row of
-- usage is written. A decision is recorded in tables whose rows form a hash chain (security), with
-- anchors of the chain's head in a second, write-once place. The trading core (trade_core) sizes and
-- checks a proposal, dispatches the command to the MetaTrader bridge (bridge), stores the fill with
-- its cost analysis, and compares fills with the broker. Operators send commands through a Redis
-- stream to a worker (rpc), the halt of trading among them. Writing HTTP requests carry a key under
-- which their answer is kept, and every request is signed (api); a worker keeps the table of
-- positions in step with the broker (trading). One decision cycle (autogen_pipeline) asks the models
-- stage by stage, sizes and checks the proposal, records the decision and dispatches it; its events
-- reach clients as server-sent events (api/sse and api/routers/streams.py).
--
-- Files and code:
--   Prelude          tests, lists, integers over the native numbers, dictionaries
--   Decimal          Python's decimal.Decimal with 28 digits, and the bounds of its roundings
--   Bridge           bridge/types.py: BridgeCommand, BridgeResult and their validators; Client:
--                    bridge/client.py
--   TradeCore        Risk: risk_validator.py; Sizing: sizing_calculator.py; Reconciliation:
--                    reconciliation.py; Tca: tca.py; TcaQuality: tca_quality.py; Execution:
--                    execution_router.py
--   LlmGateway       Tiers: router.py; Budget: budget.py; Fallback: fallback.py; Registry:
--                    registry.py; Complete: gateway.py with usage.py
--   Security         HashChain: hashchain.py; Verifier: verifier.py; Anchoring: anchoring.py,
--                    worm_local.py, worm_stub.py and the call in data/lineage.py
--   Rpc              Queue: rpc/queue.py; Handlers and Worker: rpc/worker.py
--   Prompts          prompts/registry.py, with Loading and Bundles
--   Api              Idempotency, and Envelope for its replays: api/middleware/idempotency.py;
--                    Auth and ReplayCache: api/middleware/auth.py; Sse: api/sse/publisher.py;
--                    Streams: api/routers/streams.py; Deque: Python's deque with a maximal length
--   Trading          PositionSync: trading/position_sync.py; Mt5Bridge: trading/mt5_bridge.py
--   AutogenPipeline  RiskAssessor: autogen_pipeline/risk_assessor.py; Stage: _base.py; Debate:
--                    debate.py; Orchestrator: orchestrator.py, with its updates of chained rows in
--                    Backfill
--
-- State is passed explicitly. Execution.World is what ExecutionRouter.dispatch reads and writes: the
-- processed decisions, the Redis claims with their expiry, the pushed commands, fills, analyses and
-- ticks. Complete works on the table llm_usage, Anchoring.Store on anchor_state, audit_anchors,
-- security_events and the files of the local sink, Queue.Redis on the stream and the keys,
-- Orchestrator.World on the effects of a cycle and the router's world, Sse.Publisher on the ring
-- buffers and queues, Streams on the buffers, ids and slots of the process, Auth on the cache of
-- seen requests, Prompts.Registry on the references and the cache of bundles. What a service answers
-- in one call (the bridge, the database, the disk, the clock, the model client) is an environment
-- record of that call. Exceptions are constructors of a result type per module. SHA-256, json and
-- the texts of numbers are a record of functions; the theorems on the chain that need a property of
-- them name it as a hypothesis. Python floats in budget.py and debate.py are a record of operations.
-- Loops are recursion on their list, and the attempts of a stage on those that are left, so that
-- there is no fuel; the digits of a decimal are counted with as many steps as the number's value
-- bounds. A client's stream is a list of wakeups, and interleavings of clients are sequences of
-- calls.
--
-- Not modelled: the formatting of messages, concurrency within a call (each call is atomic, but for
-- the capture of responses in Api.Idempotency.Capture), the advisory lock and the SQL of PostgreSQL
-- beyond the queries' meaning, expiry of RPC results, the tick stream of market data, and the rest
-- of the program: the HTTP routers and the other middleware, the rendering of prompts, the
-- scheduling of cycles, market data and backtests. Of errors: session.get and the redis.set of the
-- claim in ExecutionRouter.dispatch always answer. infrastructure/hermes is a copy of another
-- project.
pub mod Prelude
pub mod Decimal
pub mod Bridge
pub mod TradeCore
pub mod LlmGateway
pub mod Security
pub mod Rpc
pub mod Api
pub mod Trading
pub mod AutogenPipeline
pub mod Prompts
