-- ===== src/Bridge/Tests.antt =====
-- Envelopes of bridge/types.py.
use lumine_hedge_fund.Prelude.{◌≡◌, refl, none, some, ◌*ℤ◌}
use lumine_hedge_fund.Decimal.{of_int, of_digits, le}
use lumine_hedge_fund.Bridge.{BridgeCommand, refused, stop_not_below_take, check_command}

abbrev command : BridgeCommand
command = record {
  command_id = "c1";
  order_id = none;
  action = "BUY";
  symbol = "XAUUSD";
  volume = of_digits 1 1;
  order_type = "market";
  stop_loss = some (of_int 2410);
  take_profit = some (of_int 2400);
  idempotency_key = none;
  timestamp = 100;
}

stop_above_target : check_command command ≡ refused stop_not_below_take
unfolding check_command le ◌*ℤ◌
stop_above_target = refl
