-- ===== src/Bridge/Client/Tests.antt =====
-- A command and its result in bridge/client.py.
use lumine_hedge_fund.Prelude.{◌≡◌, refl, arith, none, some, [], ◌∷◌, ℕ, ◌+◌, ltb, if◌then◌else◌}
use lumine_hedge_fund.Decimal.{of_int, of_digits}
use lumine_hedge_fund.Bridge.{BridgeCommand, BridgeResult, filled}
use lumine_hedge_fund.Bridge.Client.{
  BridgeClient, Environment, result, unparsed, Redis, returned, timed_out, send_and_wait,
}
use lumine_hedge_fund.Bridge.Client.Waiting.{send_and_wait-delayed}

abbrev command : BridgeCommand
command = record {
  command_id = "c1";
  order_id = none;
  action = "BUY";
  symbol = "XAUUSD";
  volume = of_digits 1 1;
  order_type = "market";
  stop_loss = none;
  take_profit = none;
  idempotency_key = none;
  timestamp = 100;
}

abbrev fill : BridgeResult
fill = record {
  command_id = "c1";
  order_id = none;
  ticket = some 7;
  status = filled;
  fill_price = some (of_int 2400);
  fill_volume = some (of_digits 1 1);
  error_code = none;
  error_message = none;
  timestamp = 101;
}

abbrev client : BridgeClient
client = record { response_timeout = 5000 }

-- A push takes 10 ms, and the other side publishes its result some time after it.
abbrev answering : ℕ → Environment
answering delay = record { answers = λ c now. (now + delay, result fill) ∷ []; push_takes = 10 }

-- A text that is not JSON was on the channel before.
abbrev nothing_sent : Redis
nothing_sent = record { now = 100; commands = []; channel = (90, unparsed) ∷ [] }

is_returned : (send_and_wait (answering 40) client command nothing_sent).0 ≡ returned fill
unfolding send_and_wait
is_returned = refl

-- Published after the deadline.
is_late : (send_and_wait (answering 6000) client command nothing_sent).0 ≡ timed_out
unfolding send_and_wait
is_late = refl

-- Published before the client has subscribed.
is_lost : (send_and_wait (answering 3) client command nothing_sent).0 ≡ timed_out
unfolding send_and_wait
is_lost = refl

send_and_wait-delayed_example :
    let out = send_and_wait (answering 3) client command nothing_sent in
    (out.1.commands ≡ command ∷ [])
    × (out.0
        ≡ (if ltb 3 10 then timed_out else if ltb 3 (10 + 5000) then returned fill else timed_out))
send_and_wait-delayed_example =
    send_and_wait-delayed (answering 3) client command nothing_sent 3 fill (omega arith, tt) refl
      refl
