-- ===== src/TradeCore/Execution/Tests.antt =====
-- Dispatches of execution_router.py in a small world.
use lumine_hedge_fund.Prelude.{
  ◌||◌, leb, if◌then◌else◌, insert, ◌*ℤ◌, ◌+ℤ◌, ◌-ℤ◌, ◌+◌, ◌<◌, arith, ◌≡◌, ◌≢◌, refl, true, false,
  Option, none, some, [], ◌∷◌, ◌++◌, lookup,
}
use lumine_hedge_fund.Decimal.{
  of_int, of_digits, le, lt, add, sub, mul, quot, fix, half_up, rounded_half_up, shifted, with_sign,
  checked, quantize_half_up,
}
use lumine_hedge_fund.Bridge.{status_value, BridgeStatus, BridgeCommand, BridgeResult}
use lumine_hedge_fund.TradeCore.Execution.{
  send, persist, staged, staged_fill, claim, released, is_claim_of, is_executed, decided_at,
  dedup_ttl, World, Environment, DispatchResult, ok, raised, replied, timed_out, persist_failed,
  no_bridge_result, duplicate_dispatch, TcaDispatchContext, order_key, is_claimed, dispatch,
}
use lumine_hedge_fund.TradeCore.Tca.{
  persist_tca, resolve_benchmark, calendar_closed, next_open, last_tick_until, first_tick_from,
  arrival_benchmark, session_open_benchmark, mid, calculate_tca, is_side,
}
use lumine_hedge_fund.TradeCore.Execution.Replay.{
  Effect, dispatch-Effect, dispatch_twice, dispatch_after_failure,
}
use lumine_hedge_fund.TradeCore.Execution.Redispatch.{dispatch_after_persist_failure}
use lumine_hedge_fund.TradeCore.Execution.Atomic.{IsPaired, dispatch-IsPaired}

abbrev command : BridgeCommand
command = record {
  command_id = "c1";
  order_id = some "o1";
  action = "BUY";
  symbol = "XAUUSD";
  volume = of_digits 1 1;
  order_type = "market";
  stop_loss = none;
  take_profit = none;
  idempotency_key = none;
  timestamp = 100;
}

abbrev filled : BridgeResult
filled = record {
  command_id = "c1";
  order_id = some "o1";
  ticket = some 7;
  status = BridgeStatus.filled;
  fill_price = some (of_int 2402);
  fill_volume = some (of_digits 1 1);
  error_code = none;
  error_message = none;
  timestamp = 101;
}

abbrev world : World
world = record {
  processed = [];
  claims = [];
  sent = [];
  fills = [];
  tca_records = [];
  ticks = record { symbol = "XAUUSD"; ts = 99; bid = of_int 2400; ask = of_int 2402 } ∷ [];
  next_fill_id = 1;
}

abbrev context : Option TcaDispatchContext
context = some (record {
  strategy_id = "s1";
  book = "b1";
  pip_value = of_int 1;
  pip_size = none;
  commission = of_int 0;
  decision_ts = none;
  calendar = none;
})

abbrev answering : Environment
answering = record { now = 100; reply = replied filled; commits = true; releases = true }

abbrev failing : Environment
failing = record { now = 100; reply = replied filled; commits = false; releases = true }

abbrev silent : Environment
silent = record { now = 100; reply = timed_out; commits = true; releases = true }

abbrev executed : DispatchResult
executed = record {
  status = "filled";
  ticket = some 7;
  fill_price = some (of_int 2402);
  replayed = false;
}

first_executes : (dispatch world answering "l1" command 1 context).1 ≡ ok executed
unfolding dispatch send persist staged staged_fill claim released is_claim_of is_claimed order_key
    is_executed decided_at lookup insert ◌*ℤ◌ ◌+ℤ◌ ◌-ℤ◌ status_value le lt add sub mul quot fix
    half_up rounded_half_up shifted with_sign checked quantize_half_up persist_tca resolve_benchmark
    calendar_closed next_open last_tick_until first_tick_from arrival_benchmark
    session_open_benchmark mid calculate_tca is_side
first_executes = refl

first_fails : (dispatch world failing "l1" command 1 context).1 ≡ raised persist_failed
unfolding dispatch send persist staged staged_fill claim released is_claim_of is_claimed order_key
    is_executed decided_at lookup insert ◌*ℤ◌ ◌+ℤ◌ ◌-ℤ◌ status_value le lt add sub mul quot fix
    half_up rounded_half_up shifted with_sign checked quantize_half_up persist_tca resolve_benchmark
    calendar_closed next_open last_tick_until first_tick_from arrival_benchmark
    session_open_benchmark mid calculate_tca is_side
first_fails = refl

first_times_out : (dispatch world silent "l1" command 1 context).1 ≡ raised no_bridge_result
unfolding dispatch lookup is_claimed
first_times_out = refl

dispatch-Effect_example :
    Effect world
      (dispatch world answering "l1" command 1 context).0
      "l1"
      command
      (dispatch world answering "l1" command 1 context).1
dispatch-Effect_example = dispatch-Effect world answering "l1" command 1 context

dispatch_twice_example :
    dispatch (dispatch world answering "l1" command 1 context).0 silent "l1" command 2 none ≡ (
      (dispatch world answering "l1" command 1 context).0,
      ok (record { status = "filled"; ticket = none; fill_price = none; replayed = true }),
    )
dispatch_twice_example =
    dispatch_twice world answering silent "l1" command command 1 2 context none first_executes

dispatch_after_persist_failure_example :
    (dispatch
      (dispatch world failing "l1" command 1 context).0
      answering
      "l1"
      command
      1
      context).0.sent
    ≡ (if failing.releases || leb (failing.now + dedup_ttl) answering.now
        then (world.sent ++ command ∷ []) ++ command ∷ []
        else world.sent ++ command ∷ [])
dispatch_after_persist_failure_example =
    dispatch_after_persist_failure world failing answering "l1" command 1 context first_fails refl

dispatch-IsPaired_example : IsPaired (dispatch world answering "l1" command 1 context).0
dispatch-IsPaired_example = dispatch-IsPaired world answering "l1" command 1 context refl

not_persist_failed : no_bridge_result ≢ persist_failed
not_persist_failed e = cc

within_ttl : answering.now < silent.now + dedup_ttl
within_ttl = omega arith

dispatch_after_failure_example :
    dispatch (dispatch world silent "l1" command 1 context).0 answering "l2" command 1 context
    ≡ ((dispatch world silent "l1" command 1 context).0, raised duplicate_dispatch)
unfolding lookup is_claimed
dispatch_after_failure_example =
    dispatch_after_failure world silent answering "l1" "l2" command command 1 context context refl
      refl refl first_times_out not_persist_failed refl within_ttl
