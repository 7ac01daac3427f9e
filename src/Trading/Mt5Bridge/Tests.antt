-- ===== src/Trading/Mt5Bridge/Tests.antt =====
-- Commands of trading/mt5_bridge.py on an empty Redis.
use Prim.Native.String.{◌++◌ as ◌++ₛ◌}
use lumine_hedge_fund.Prelude.{◌≡◌, refl, arith, false, none, [], ◌∷◌, lookup, if◌then◌else◌}
use lumine_hedge_fund.Decimal.{of_int}
use lumine_hedge_fund.Trading.Mt5Bridge.{
  CommandMessage, create_open_order_command, idempotency_prefix, none_reply, Redis, is_alive,
  is_false, send_command, command_id_of, already_sent,
}
use lumine_hedge_fund.Trading.Mt5Bridge.Duplicates.{send_command-twice}

abbrev message : CommandMessage
message = record {
  command_id = "c1";
  order_id = "o1";
  action = "OPEN";
  symbol = "XAUUSD";
  volume = of_int 1;
  order_type = "BUY";
  stop_loss = none;
  take_profit = none;
  idempotency_key = "o1:attempt_1";
  timestamp = "t";
}

-- The order is sent again, as another command.
abbrev again : CommandMessage
again = record message { command_id = "c2" }

abbrev nothing_sent : Redis
nothing_sent = record { keys = []; commands = [] }

is_created : create_open_order_command "t" "c1" "o1" "XAUUSD" (of_int 1) "BUY" none none ≡ message
unfolding create_open_order_command
is_created = refl

is_free :
    is_alive 5 (lookup (idempotency_prefix ++ₛ message.idempotency_key) nothing_sent.keys) ≡ false
unfolding is_alive lookup
is_free = refl

send_command-twice_example :
    ((send_command none_reply 90 again (send_command none_reply 5 message nothing_sent).1).0
      ≡ (if is_false none_reply then already_sent else command_id_of "c2"))
    × ((send_command none_reply 90 again
          (send_command none_reply 5 message nothing_sent).1).1.commands
        ≡ (if is_false none_reply then message ∷ [] else again ∷ message ∷ []))
send_command-twice_example =
    send_command-twice none_reply 5 90 message again nothing_sent refl is_free (omega arith)
