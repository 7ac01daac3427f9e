-- ===== src/Rpc/Handlers.antt =====
-- backend/src/lumine/rpc/worker.py: the handlers of the commands, without the decision cycle.
use lumine_hedge_fund.Prelude.{
  Option, none, some, List, [], ◌∷◌, ◌++◌, String, str_eq, if◌then◌else◌, Dict, lookup,
}
use lumine_hedge_fund.Rpc.Queue.{
  Field, Json, SseEvent, Redis, Environment, hset, text, number, other, object,
}

-- How a handler ends: with its result, or by raising; an error is named by its kind alone.
pub data Handled : Type 0 where
  done : Dict Field → Redis → Handled
  raised : String → Redis → Handled

unfoldable pub or_field : Option Field → String → Field
or_field none default = text default
or_field (some v) default = v

unfoldable pub armed_with : Dict String → Dict Field → Field → Redis → Handled
unfolding hset
armed_with mapping result (text reason) r =
    done result (record r { kill_switch = hset r.kill_switch (mapping ++ ("reason", reason) ∷ []) })
armed_with mapping result (number reason) r =
    done result (record r { kill_switch = hset r.kill_switch (mapping ++ ("reason", reason) ∷ []) })
armed_with mapping result other r = raised "DataError" r

-- The values of the result are JSON booleans, here as `other`, and texts.
unfoldable pub halt_trading : Dict Field → Redis → Handled
unfolding armed_with or_field
halt_trading payload r =
    armed_with (("armed", "1") ∷ ("tier", "global") ∷ [])
      (("armed", other) ∷ ("tier", text "global") ∷ [])
      (or_field (lookup "reason" payload) "rpc:halt-trading") r

unfoldable pub resume_trading : Dict Field → Redis → Handled
unfolding armed_with or_field
resume_trading payload r =
    armed_with (("armed", "0") ∷ []) (("armed", other) ∷ [])
      (or_field (lookup "reason" payload) "rpc:resume-trading") r

unfoldable pub cancel_order : Environment → Dict Field → Redis → Handled
unfolding or_field
cancel_order env payload r =
    let result : Dict Field =
      ("order_id", or_field (lookup "order_id" payload) "unknown")
      ∷ ("status", text "cancelled")
      ∷ ("cancelled_at", text env.now)
      ∷ [] in
    let event : SseEvent = record {
      event_type = "order_cancelled";
      channel = "orders";
      data_fields = result;
    } in
    done result (record r { published = r.published ++ event ∷ [] })

unfoldable pub cycled : Option (Dict Field × List SseEvent) → Redis → Handled
cycled none r = raised "error" r
cycled (some (result, events)) r = done result (record r { published = r.published ++ events })

-- `HANDLERS[command]` on an object; a command that is not there is a `KeyError`.
unfoldable pub handle_object : Environment → String → Dict Field → Redis → Handled
unfolding halt_trading resume_trading cancel_order cycled
handle_object env command payload r =
    if str_eq command "run_decision_cycle"
    then cycled (env.cycle payload) r
    else if str_eq command "halt_trading"
    then halt_trading payload r
    else if str_eq command "resume_trading"
    then resume_trading payload r
    else if str_eq command "cancel_order"
    then cancel_order env payload r
    else raised command r

-- A payload that is no object has no `get`.
unfoldable pub handle : Environment → String → Json → Redis → Handled
unfolding handle_object
handle env command (object payload) r = handle_object env command payload r
handle env command payload r = raised "AttributeError" r
