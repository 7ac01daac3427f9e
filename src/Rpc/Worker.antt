-- ===== src/Rpc/Worker.antt =====
-- backend/src/lumine/rpc/worker.py: `_process` and the loop of `run_worker`.
pub mod Results
pub mod Answers
use lumine_hedge_fund.Prelude.{
  ℕ, Bool, true, false, Option, none, some, List, [], ◌∷◌, ◌++◌, String, str_eq, ◌==◌,
  if◌then◌else◌, Dict, lookup, insert, contains, is_empty,
}
use lumine_hedge_fund.Rpc.Queue.{
  Field, Json, CommandResult, SseEvent, Message, Redis, Environment, or_empty, hset,
  enqueue_command, set_result, or_text, from_receipt, stored_or_receipt, get_result, is_final, text,
  number, other, object, not_object, malformed,
}
use lumine_hedge_fund.Rpc.Handlers.{
  Handled, or_field, armed_with, halt_trading, resume_trading, cancel_order, cycled, handle_object,
  handle, done, raised,
}

unfoldable pub settled : String → String → Handled → Redis
unfolding set_result
settled command_id command (done result r) =
    set_result
      (record {
        command_id = command_id;
        command = command;
        status = "completed";
        result = some result;
        error = none;
      })
      r
settled command_id command (raised error r) =
    set_result
      (record {
        command_id = command_id;
        command = command;
        status = "failed";
        result = none;
        error = some error;
      })
      r

-- `_process`
unfoldable pub process : Environment → String → String → Json → Redis → Redis
unfolding settled handle is_final get_result
process env command_id command payload r =
    if is_final (get_result command_id r)
    then r
    else settled command_id command (handle env command payload r)

unfoldable pub without : ℕ → List ℕ → List ℕ
without id [] = []
without id (p ∷ pending) = let rest = without id pending in if p == id then rest else p ∷ rest

unfoldable pub xack : ℕ → Redis → Redis
unfolding without
xack id r = record r { pending = without id r.pending }

-- The worker's loop goes on, or has ended by an exception that `run_worker` lets through.
pub data WorkerState : Type 0 where
  running crashed : Redis → WorkerState

-- The payload is decoded outside of the `try` round `_process`.
unfoldable pub decoded : Environment → ℕ → String → String → Json → Redis → WorkerState
unfolding process xack
decoded env id command_id command malformed r = crashed r
decoded env id command_id command payload r =
    running (xack id (process env command_id command payload r))

unfoldable pub read_fields :
    Environment → ℕ → Option String → Option String → String → Redis → WorkerState
unfolding decoded
read_fields env id (some command) (some command_id) payload r =
    decoded env id command_id command (env.loads payload) r
read_fields env id command command_id payload r = running (xack id r)

-- The body of the loop for one message.
unfoldable pub receive : Environment → Message → Redis → WorkerState
unfolding read_fields or_text
receive env m r =
    read_fields env m.message_id (lookup "command" m.fields) (lookup "command_id" m.fields)
      (or_text (lookup "payload" m.fields) "{}") r

unfoldable pub next : WorkerState → (Redis → WorkerState) → WorkerState
next (running r) rest = rest r
next (crashed r) rest = crashed r

-- The messages of a delivery, in their order.
unfoldable pub run_worker : Environment → List Message → Redis → WorkerState
unfolding receive next
run_worker env [] r = running r
run_worker env (m ∷ messages) r = next (receive env m r) (run_worker env messages)
