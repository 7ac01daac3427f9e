-- ===== src/Rpc/Queue.antt =====
-- backend/src/lumine/rpc/queue.py. Redis is a record of what the queue and its worker keep there; it
-- always answers, and the expiry of results and receipts after a day is not modelled. `json.loads`
-- and `json.dumps`, the text of the clock and the decision cycle (the language models and the
-- database behind it) are parameters of a call.
use lumine_hedge_fund.Prelude.{
  ℕ, Bool, false, Option, none, some, List, [], ◌∷◌, ◌++◌, String, Dict, lookup, insert, contains,
}

-- A value of a JSON object, as far as the handlers tell values apart: `hset` takes texts and numbers.
pub data Field : Type 0 where
  text number : String → Field
  other : Field

-- What `json.loads` makes of a payload.
pub data Json : Type 0 where
  object : Dict Field → Json
  not_object malformed : Json

pub record CommandResult : Type 0 where
  pub command_id : String
  pub command : String
  pub status : String
  pub result : Option (Dict Field)
  pub error : Option String

pub record SseEvent : Type 0 where
  pub event_type : String
  pub channel : String
  pub data_fields : Dict Field

-- A stream entry, with its fields decoded.
pub record Message : Type 0 where
  pub message_id : ℕ
  pub fields : Dict String

pub record Redis : Type 0 where
  pub stream : List Message
  pub pending : List ℕ
  pub receipts : Dict (Dict String)
  pub results : Dict CommandResult
  pub kill_switch : Dict String
  pub published : List SseEvent

pub record Environment : Type 0 where
  pub loads : String → Json
  pub dumps : Dict Field → String
  pub now : String
  pub cycle : Dict Field → Option (Dict Field × List SseEvent)

unfoldable pub or_empty : Option (Dict String) → Dict String
or_empty none = []
or_empty (some d) = d

-- `hset`: the fields of a mapping, set one after the other.
unfoldable pub hset : Dict String → Dict String → Dict String
hset hash [] = hash
hset hash ((k, v) ∷ mapping) = hset (insert k v hash) mapping

-- `enqueue_command`, with the identifiers that `uuid4` and the stream give.
unfoldable pub enqueue_command : Environment → String → ℕ → String → Dict Field → Redis → Redis
unfolding hset or_empty
enqueue_command env command_id message_id command payload r = record r {
  stream =
      r.stream
      ++ record {
        message_id = message_id;
        fields =
            ("command_id", command_id)
            ∷ ("command", command)
            ∷ ("payload", env.dumps payload)
            ∷ ("enqueued_at", env.now)
            ∷ [];
      }
        ∷ [];
  receipts =
      insert command_id
        (hset (or_empty (lookup command_id r.receipts))
          (("command", command) ∷ ("status", "queued") ∷ ("enqueued_at", env.now) ∷ []))
        r.receipts;
}

unfoldable pub set_result : CommandResult → Redis → Redis
unfolding hset or_empty
set_result record_ r = record r {
  results = insert record_.command_id record_ r.results;
  receipts =
      insert record_.command_id
        (hset (or_empty (lookup record_.command_id r.receipts)) (("status", record_.status) ∷ []))
        r.receipts;
}

unfoldable pub or_text : Option String → String → String
or_text none default = default
or_text (some s) default = s

-- The answer from the receipt alone, where it is not empty.
unfoldable pub from_receipt : String → Dict String → Option CommandResult
unfolding or_text
from_receipt command_id [] = none
from_receipt command_id (entry ∷ receipt) = some (record {
  command_id = command_id;
  command = or_text (lookup "command" (entry ∷ receipt)) "unknown";
  status = or_text (lookup "status" (entry ∷ receipt)) "queued";
  result = none;
  error = none;
})

unfoldable pub stored_or_receipt :
    String → Dict String → Option CommandResult → Option CommandResult
unfolding from_receipt
stored_or_receipt command_id receipt none = from_receipt command_id receipt
stored_or_receipt command_id receipt (some stored) = some stored

unfoldable pub get_result : String → Redis → Option CommandResult
unfolding stored_or_receipt or_empty
get_result command_id r =
    stored_or_receipt command_id (or_empty (lookup command_id r.receipts))
      (lookup command_id r.results)

-- `existing and existing.get("status") in {"completed", "failed"}`
unfoldable pub is_final : Option CommandResult → Bool
is_final none = false
is_final (some result) = contains result.status ("completed" ∷ "failed" ∷ [])
