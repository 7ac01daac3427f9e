-- ===== src/Bridge/Client/Waiting.antt =====
-- The wait for a result in bridge/client.py.
use lumine_hedge_fund.Prelude.{
  ◌≡◌, refl, ap, ◌∙◌, true, arith, eq_iff, ℕ, ◌+◌, ◌<◌, List, [], ◌∷◌, ◌++◌, String, All, ltb, leb,
  if◌then◌else◌,
}
use lumine_hedge_fund.Bridge.{BridgeCommand, BridgeResult}
use lumine_hedge_fund.Bridge.Client.{
  Message, result, returned, timed_out, BridgeClient, Environment, Redis, heard, is_for, wait_until,
  receive_result, send_command, send_and_wait,
}

-- The message was published before a time.
abbrev pub IsBefore : ℕ → ℕ × Message → Type 0
IsBefore time (at, message) = at < time

heard-append_before :
    (time subscribed : ℕ) (earlier later : List (ℕ × Message))
    → All (IsBefore time) earlier
    → leb time subscribed ≡ true
    → heard subscribed (earlier ++ later) ≡ heard subscribed later
unfolding heard
heard-append_before time subscribed [] later before h = refl
heard-append_before time subscribed ((at, message) ∷ earlier) later before h =
    ground (arith, before.0, heard-append_before time subscribed earlier later before.1 h)

one_answer :
    (command_id : String) (subscribed deadline at : ℕ) (r : BridgeResult)
    → r.command_id ≡ command_id
    → wait_until command_id deadline (heard subscribed ((at, result r) ∷ []))
      ≡ (if ltb at subscribed then timed_out else if ltb at deadline then returned r else timed_out)
unfolding wait_until heard is_for
one_answer command_id subscribed deadline at r same =
    ground (arith, (eq_iff r.command_id command_id).1 same)

-- Nothing was published yet when the command is pushed, at a time or after it, and the other side
-- answers it with one result, `delay` milliseconds after it is on the list. The call returns the
-- result exactly if it comes after the push has returned, since only then the client subscribes, and before
-- the deadline, which is counted from there. A result that is faster than that is lost: the command stays
-- sent, and the call times out, however long its timeout is.
pub send_and_wait-delayed :
    (env : Environment) (client : BridgeClient) (command : BridgeCommand) (redis : Redis)
    (delay : ℕ) (r : BridgeResult)
    → All (IsBefore redis.now) redis.channel
    → r.command_id ≡ command.command_id
    → env.answers command redis.now ≡ (redis.now + delay, result r) ∷ []
    → let out = send_and_wait env client command redis in
      (out.1.commands ≡ command ∷ redis.commands)
      × (out.0 ≡ (
          if ltb delay env.push_takes
          then timed_out
          else if ltb delay (env.push_takes + client.response_timeout)
          then returned r
          else timed_out))
unfolding send_and_wait receive_result send_command
send_and_wait-delayed env client command redis delay r before same answers =
    let subscribed = redis.now + env.push_takes in
    let deadline = subscribed + client.response_timeout in
    let at = redis.now + delay in
    let only =
      heard-append_before redis.now subscribed redis.channel (env.answers command redis.now) before
        (ground arith)
      ∙ ap (heard subscribed) answers in
    (
      refl,
      ap (wait_until command.command_id deadline) only
          ∙ one_answer command.command_id subscribed deadline at r same
          ∙ ground arith,
    )
