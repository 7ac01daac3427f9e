-- ===== src/Rpc/Worker/Results.antt =====
-- The stored result of a command: worker.py, `_process`, over queue.py's `set_result` and `get_result`.
use lumine_hedge_fund.Prelude.{
  ◌≡◌, refl, inl, inr, Bool, true, false, Option, none, some, List, [], ◌∷◌, String, str_eq, eq_iff,
  arith, Dict, lookup, lookup-insert, Bool-cases, if◌then◌else◌,
}
use lumine_hedge_fund.Rpc.Queue.{
  Json, Redis, Environment, CommandResult, set_result, stored_or_receipt, get_result, is_final,
  Field, text, number, other, object, not_object, malformed, SseEvent,
}
use lumine_hedge_fund.Rpc.Handlers.{
  Handled, done, raised, handle, handle_object, cycled, armed_with, or_field, halt_trading,
  resume_trading, cancel_order,
}
use lumine_hedge_fund.Rpc.Worker.{settled, process}

abbrev pub redis_of : Handled → Redis
redis_of (done result r) = r
redis_of (raised error r) = r

-- A handler leaves the results, the receipts and the deliveries alone.
abbrev Keeps : Redis → Redis → Type 0
Keeps r r' = (r'.results ≡ r.results) × (r'.receipts ≡ r.receipts) × (r'.pending ≡ r.pending)

cycled-Keeps :
    (o : Option (Dict Field × List SseEvent)) (r : Redis) → Keeps r (redis_of (cycled o r))
unfolding cycled
cycled-Keeps none r = (refl, refl, refl)
cycled-Keeps (some (result, events)) r = (refl, refl, refl)

armed_with-Keeps :
    (mapping : Dict String) (result : Dict Field) (f : Field) (r : Redis)
    → Keeps r (redis_of (armed_with mapping result f r))
unfolding armed_with
armed_with-Keeps mapping result (text s) r = (refl, refl, refl)
armed_with-Keeps mapping result (number s) r = (refl, refl, refl)
armed_with-Keeps mapping result other r = (refl, refl, refl)

module _ (env : Environment) where
  handle_object-Keeps :
      (command : String) (payload : Dict Field) (r : Redis)
      → Keeps r (redis_of (handle_object env command payload r))
  unfolding handle_object halt_trading resume_trading cancel_order
  handle_object-Keeps command payload r = ground (
    arith,
    cycled-Keeps (env.cycle payload) r,
    armed_with-Keeps (("armed", "1") ∷ ("tier", "global") ∷ [])
        (("armed", other) ∷ ("tier", text "global") ∷ [])
        (or_field (lookup "reason" payload) "rpc:halt-trading") r,
    armed_with-Keeps (("armed", "0") ∷ []) (("armed", other) ∷ [])
        (or_field (lookup "reason" payload) "rpc:resume-trading") r,
  )

  handle-Keeps :
      (command : String) (payload : Json) (r : Redis)
      → Keeps r (redis_of (handle env command payload r))
  unfolding handle
  handle-Keeps command (object payload) r = handle_object-Keeps command payload r
  handle-Keeps command not_object r = (refl, refl, refl)
  handle-Keeps command malformed r = (refl, refl, refl)

-- What the store answers after a result was stored, for its command and for any other.
get_result-set_result :
    (k : String) (stored : CommandResult) (r : Redis)
    → get_result k (set_result stored r)
      ≡ (if str_eq stored.command_id k then some stored else get_result k r)
unfolding get_result set_result stored_or_receipt
get_result-set_result k stored r = elim (Bool-cases (str_eq stored.command_id k)) [
  | inl e ↦ simp (lookup-insert stored.command_id k stored r.results, e) refl
  | inr e ↦ simp (lookup-insert, e) refl
]

if_final :
    (b : Bool) (stored : CommandResult) (o : Option CommandResult)
    → is_final (some stored) ≡ true
    → is_final o ≡ true
    → is_final (if b then some stored else o) ≡ true
if_final true stored o f g = f
if_final false stored o f g = g

settled-final :
    (id command k : String) (h : Handled)
    → is_final (get_result k (redis_of h)) ≡ true
    → is_final (get_result k (settled id command h)) ≡ true
unfolding settled
settled-final id command k (done result r) f =
    let stored : CommandResult = record {
      command_id = id;
      command = command;
      status = "completed";
      result = some result;
      error = none;
    } in
    rw (get_result-set_result k stored r)
      (if_final (str_eq id k) stored (get_result k r) (unfold is_final in refl) f)
settled-final id command k (raised error r) f =
    let stored : CommandResult = record {
      command_id = id;
      command = command;
      status = "failed";
      result = none;
      error = some error;
    } in
    rw (get_result-set_result k stored r)
      (if_final (str_eq id k) stored (get_result k r) (unfold is_final in refl) f)

settled-answers :
    (id command : String) (h : Handled) → is_final (get_result id (settled id command h)) ≡ true
unfolding settled is_final
settled-answers id command (done result r) =
    simp (get_result-set_result, (eq_iff id id).1 refl) refl
settled-answers id command (raised error r) =
    simp (get_result-set_result, (eq_iff id id).1 refl) refl

get_result-Keeps : (k : String) (r r' : Redis) → Keeps r r' → get_result k r' ≡ get_result k r
unfolding get_result
get_result-Keeps k r r' (a, b, c) = rw (a, b) refl

-- A command that was processed has a final result, whatever its handler did.
pub process-answers :
    (env : Environment) (id command : String) (payload : Json) (r : Redis)
    → is_final (get_result id (process env id command payload r)) ≡ true
unfolding process
process-answers env id command payload r = elim (Bool-cases (is_final (get_result id r))) [
  | inl e ↦ rw e e
  | inr e ↦ rw e (settled-answers id command (handle env command payload r))
]

-- A final result of one command stays final while another is processed.
pub process-final :
    (env : Environment) (id command k : String) (payload : Json) (r : Redis)
    → is_final (get_result k r) ≡ true
    → is_final (get_result k (process env id command payload r)) ≡ true
unfolding process
process-final env id command k payload r f = elim (Bool-cases (is_final (get_result id r))) [
  | inl e ↦ rw e f
  | inr e ↦
      let h = handle env command payload r in
      rw e (
        settled-final id command k h
          (rw (get_result-Keeps k r (redis_of h) (handle-Keeps env command payload r)) f))
]

-- A command that was processed is not processed again: a second delivery under its identifier,
-- whatever it asks for, changes nothing.
pub process_twice :
    (env later : Environment) (id command command' : String) (payload payload' : Json) (r : Redis)
    → process later id command' payload' (process env id command payload r)
      ≡ process env id command payload r
process_twice env later id command command' payload payload' r =
    unfold process in rw (process-answers env id command payload r) refl
