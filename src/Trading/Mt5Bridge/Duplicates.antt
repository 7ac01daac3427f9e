-- ===== src/Trading/Mt5Bridge/Duplicates.antt =====
-- A command that is sent again to trading/mt5_bridge.py.
use Prim.Native.String.{◌++◌ as ◌++ₛ◌}
use lumine_hedge_fund.Prelude.{
  ◌≡◌, refl, ◌∙◌, inl, inr, arith, eq_iff, Bool-cases, ℕ, ◌+◌, ◌<◌, true, false, some, ◌∷◌, String,
  str_eq, ltb, if◌then◌else◌, lookup, insert, lookup-insert,
}
use lumine_hedge_fund.Trading.Mt5Bridge.{
  CommandMessage, idempotency_prefix, idempotency_ttl, Reply, Redis, is_alive, is_false, set_nx,
  pushed, send_command, command_id_of, already_sent,
}

lookup-insert_self :
    (key : String) (e : ℕ) (redis : Redis) → lookup key (insert key e redis.keys) ≡ some e
lookup-insert_self key e redis =
    let same : str_eq key key ≡ true = (eq_iff key key).1 refl in
    lookup-insert key key e redis.keys ∙ rw same refl

-- A command whose key is not alive is sent, and within the hour a command with the same key: the second
-- is refused, with one command on the queue, exactly where the client library answers False to SET NX
-- on a key that exists. With any other answer, the documented None among them, both are on the queue.
pub send_command-twice :
    (on_existing : Reply) (now later : ℕ) (message again : CommandMessage) (redis : Redis)
    → again.idempotency_key ≡ message.idempotency_key
    → is_alive now (lookup (idempotency_prefix ++ₛ message.idempotency_key) redis.keys) ≡ false
    → later < now + idempotency_ttl
    → let first = (send_command on_existing now message redis).1 in
      let second = send_command on_existing later again first in
      (second.0 ≡ (if is_false on_existing then already_sent else command_id_of again.command_id))
      × (second.1.commands ≡ (
          if is_false on_existing
          then message ∷ redis.commands
          else again ∷ message ∷ redis.commands))
unfolding send_command set_nx pushed is_alive is_false
send_command-twice on_existing now later message again redis same free soon =
    let key = idempotency_prefix ++ₛ message.idempotency_key in
    let alive : ltb later (now + idempotency_ttl) ≡ true = ground arith in
    rw (same, free, lookup-insert_self key (now + idempotency_ttl) redis, alive)
      (elim (Bool-cases (is_false on_existing)) [
        | inl f ↦ rw f (refl, refl)
        | inr f ↦ rw f (refl, refl)
      ])
