-- ===== src/Bridge/Client.antt =====
-- backend/src/lumine/bridge/client.py: a command goes onto a Redis list, its result comes on a channel.
-- Times are milliseconds. What the other side publishes on the channel when a command is put onto the
-- list, and when, is a parameter, as is what a text on the channel parses to; so is the time that a
-- push takes until the client goes on. A Redis channel hands a message only to those that are
-- subscribed to it at that time.
pub mod Waiting
mod Tests
use lumine_hedge_fund.Prelude.{
  ℕ, ◌+◌, Bool, List, [], ◌∷◌, ◌++◌, String, str_eq, ltb, leb, if◌then◌else◌,
}
use lumine_hedge_fund.Bridge.{BridgeCommand, BridgeResult}

-- A text on the result channel: not JSON, JSON that `BridgeResult` declines, or a result.
pub data Message : Type 0 where
  unparsed : Message
  invalid : Message
  result : BridgeResult → Message

pub data Received : Type 0 where
  returned : BridgeResult → Received
  timed_out : Received
  validation_failed : Received

pub record BridgeClient : Type 0 where
  pub response_timeout : ℕ

-- The other side: what it publishes, with the times, for a command that is put onto the list at a
-- time; and how long a push takes.
pub record Environment : Type 0 where
  pub answers : BridgeCommand → ℕ → List (ℕ × Message)
  pub push_takes : ℕ

-- The list of commands, the newest first, and what is published on the channel, with its times.
pub record Redis : Type 0 where
  pub now : ℕ
  pub commands : List BridgeCommand
  pub channel : List (ℕ × Message)

-- What the channel hands to a subscriber from a time on.
unfoldable pub heard : ℕ → List (ℕ × Message) → List (ℕ × Message)
heard subscribed [] = []
heard subscribed ((at, message) ∷ published) =
    let rest = heard subscribed published in
    if leb subscribed at then (at, message) ∷ rest else rest

unfoldable pub is_for : String → BridgeResult → Bool
is_for command_id r = str_eq r.command_id command_id

-- `send_command`: `LPUSH` onto the list, where the other side takes it.
unfoldable pub send_command : Environment → BridgeCommand → Redis → Redis
send_command env command redis = record {
  now = redis.now + env.push_takes;
  commands = command ∷ redis.commands;
  channel = redis.channel ++ env.answers command redis.now;
}

-- The loop of `receive_result` over the messages that arrive; with none left, the deadline passes.
unfoldable pub wait_until : String → ℕ → List (ℕ × Message) → Received
unfolding is_for
wait_until command_id deadline [] = timed_out
wait_until command_id deadline ((at, unparsed) ∷ messages) =
    let rest = wait_until command_id deadline messages in
    if leb deadline at then timed_out else rest
wait_until command_id deadline ((at, invalid) ∷ messages) =
    if leb deadline at then timed_out else validation_failed
wait_until command_id deadline ((at, result r) ∷ messages) =
    let rest = wait_until command_id deadline messages in
    if leb deadline at then timed_out else if is_for command_id r then returned r else rest

-- Subscribed from now on, with the deadline from now.
unfoldable pub receive_result : BridgeClient → String → Redis → Received
unfolding heard wait_until
receive_result client command_id redis =
    wait_until command_id (redis.now + client.response_timeout) (heard redis.now redis.channel)

-- The command is sent first, and the channel subscribed to after it.
unfoldable pub send_and_wait : Environment → BridgeClient → BridgeCommand → Redis → Received × Redis
unfolding send_command receive_result
send_and_wait env client command redis =
    let sent = send_command env command redis in
    (receive_result client command.command_id sent, sent)
