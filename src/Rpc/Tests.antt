-- ===== src/Rpc/Tests.antt =====
-- Deliveries to worker.py's loop, with a decoder that knows two payloads.
use lumine_hedge_fund.Prelude.{
  ◌≡◌, refl, some, [], ◌∷◌, ◌++◌, str_eq, lookup, All, if◌then◌else◌, insert,
}
use lumine_hedge_fund.Rpc.Queue.{object, malformed, Message, Redis, Environment, or_text}
use lumine_hedge_fund.Rpc.Worker.{process, running, crashed, run_worker}
use lumine_hedge_fund.Rpc.Worker.Answers.{IsAnswered, run_worker-answers, run_worker-malformed}

abbrev env : Environment
env = record {
  loads = λ s. if str_eq s "{}" then object [] else malformed;
  dumps = λ d. "{}";
  now = "2026-01-01T00:00:00+00:00";
  cycle = λ payload. some ([], []);
}

abbrev empty : Redis
empty = record {
  stream = [];
  pending = [];
  receipts = [];
  results = [];
  kill_switch = [];
  published = [];
}

abbrev halt : Message
halt = record {
  message_id = 1;
  fields = ("command_id", "c1") ∷ ("command", "halt_trading") ∷ ("payload", "{}") ∷ [];
}

abbrev broken : Message
broken = record {
  message_id = 2;
  fields = ("command_id", "c2") ∷ ("command", "cancel_order") ∷ ("payload", "{") ∷ [];
}

abbrev after_halt : Redis
after_halt = process env "c1" "halt_trading" (object []) empty

halt_arms :
    after_halt.kill_switch
    ≡ ("armed", "1") ∷ ("tier", "global") ∷ ("reason", "rpc:halt-trading") ∷ []
unfolding process lookup insert
halt_arms = refl

run_worker-answers_example :
    (r : Redis) × (run_worker env (halt ∷ []) empty ≡ running r) × All (IsAnswered r) (halt ∷ [])
unfolding or_text lookup
run_worker-answers_example = run_worker-answers env (halt ∷ []) empty (refl, tt)

run_worker-malformed_example :
    (r : Redis) × (run_worker env [] empty ≡ running r)
    × (run_worker env ([] ++ broken ∷ (halt ∷ [])) empty ≡ crashed r)
unfolding lookup or_text
run_worker-malformed_example =
    run_worker-malformed env [] (halt ∷ []) broken "cancel_order" "c2" empty tt refl refl refl
