-- ===== src/Trading/Mt5Bridge.antt =====
-- backend/src/lumine/trading/mt5_bridge.py, on the Redis it calls. Times are seconds. What the client
-- library answers to SET NX on a key that exists is a parameter: redis-py documents None for it.
pub mod Duplicates
mod Tests
use Prim.Native.String.{◌++◌ as ◌++ₛ◌}
use lumine_hedge_fund.Prelude.{
  ℕ, ◌+◌, Bool, true, false, Option, none, some, List, [], ◌∷◌, ◌++◌, String, str_eq, ltb,
  if◌then◌else◌, Dict, lookup, insert,
}
use lumine_hedge_fund.Decimal.{Decimal, of_int}

pub record CommandMessage : Type 0 where
  pub command_id : String
  pub order_id : String
  pub action : String
  pub symbol : String
  pub volume : Decimal
  pub order_type : String
  pub stop_loss : Option Decimal
  pub take_profit : Option Decimal
  pub idempotency_key : String
  pub timestamp : String

-- `__post_init__`, where `now` is the time as a text.
unfoldable pub post_init : String → CommandMessage → CommandMessage
post_init now message = record message {
  timestamp = if str_eq message.timestamp "" then now else message.timestamp;
  idempotency_key =
      if str_eq message.idempotency_key ""
      then message.order_id ++ₛ ":attempt_1"
      else message.idempotency_key;
}

unfoldable pub create_open_order_command :
    String
    → String
    → String
    → String
    → Decimal
    → String
    → Option Decimal
    → Option Decimal
    → CommandMessage
unfolding post_init
create_open_order_command now command_id order_id symbol volume order_type stop_loss take_profit =
    post_init now (record {
      command_id = command_id;
      order_id = order_id;
      action = "OPEN";
      symbol = symbol;
      volume = volume;
      order_type = order_type;
      stop_loss = stop_loss;
      take_profit = take_profit;
      idempotency_key = "";
      timestamp = "";
    })

unfoldable pub create_close_order_command : String → String → String → ℕ → CommandMessage
unfolding post_init
create_close_order_command now command_id order_id mt5_ticket = post_init now (record {
  command_id = command_id;
  order_id = order_id;
  action = "CLOSE";
  symbol = "";
  volume = of_int 0;
  order_type = "";
  stop_loss = none;
  take_profit = none;
  idempotency_key = "";
  timestamp = "";
})

-- `IDEMPOTENCY_PREFIX`, and the expiry of a key.
abbrev pub idempotency_prefix : String
idempotency_prefix = "mt5:idempotency:"

abbrev pub idempotency_ttl : ℕ
idempotency_ttl = 3600

-- What `redis.set` gives back.
pub data Reply : Type 0 where
  true_reply false_reply none_reply : Reply

-- The keys with their expiry, and the queue of commands, the newest first.
pub record Redis : Type 0 where
  pub keys : Dict ℕ
  pub commands : List CommandMessage

unfoldable pub is_alive : ℕ → Option ℕ → Bool
is_alive now none = false
is_alive now (some expires) = ltb now expires

unfoldable pub is_false : Reply → Bool
is_false true_reply = false
is_false false_reply = true
is_false none_reply = false

pub data Sent : Type 0 where
  command_id_of : String → Sent
  already_sent : Sent

module _ (on_existing : Reply) where
  -- `SET key 1 NX EX 3600`
  unfoldable pub set_nx : ℕ → String → Redis → Reply × Redis
  unfolding is_alive
  set_nx now key redis =
      if is_alive now (lookup key redis.keys)
      then (on_existing, redis)
      else (true_reply, record redis { keys = insert key (now + idempotency_ttl) redis.keys })

  -- The guard on the reply, and `LPUSH`.
  unfoldable pub pushed : CommandMessage → Reply × Redis → Sent × Redis
  unfolding is_false
  pushed message (reply, redis) =
      if is_false reply
      then (already_sent, redis)
      else (command_id_of message.command_id, record redis { commands = message ∷ redis.commands })

  unfoldable pub send_command : ℕ → CommandMessage → Redis → Sent × Redis
  unfolding set_nx pushed
  send_command now message redis =
      pushed message (set_nx now (idempotency_prefix ++ₛ message.idempotency_key) redis)
