-- ===== src/Api/Sse/Events.antt =====
-- `SSEEvent` of backend/src/lumine/api/sse/publisher.py, its default factories and its text.
use lumine_hedge_fund.Prelude.{ℕ, Bool, String, Dict}
use Prim.Native.String.{◌++◌ as ◌++ₛ◌}
use lumine_hedge_fund.Decimal.{Decimal}

-- A value as `orjson` takes it; `raw` is a nested value of a caller, by its text.
pub data Value : Type 0 where
  text : String → Value
  float : Decimal → Value
  integer : ℕ → Value
  boolean : Bool → Value
  null : Value
  raw : String → Value

pub record Event : Type 0 where
  pub event_type : String
  pub channel : String
  pub data_fields : Dict Value
  pub timestamp : ℕ
  pub event_id : String

-- What the default factories and the clock give to one call.
pub record Stamp : Type 0 where
  pub timestamp : ℕ
  pub event_id : String
  pub isoformat : String

-- `SSEEvent(event_type=…, channel=…, data=…)`
unfoldable pub event : Stamp → String → String → Dict Value → Event
event stamp event_type channel data_fields = record {
  event_type = event_type;
  channel = channel;
  data_fields = data_fields;
  timestamp = stamp.timestamp;
  event_id = stamp.event_id;
}

-- `to_json` is `orjson.dumps`.
unfoldable pub to_sse_format : (Dict Value → String) → Event → String
to_sse_format to_json e =
    "id: "
    ++ₛ e.event_id
    ++ₛ "\n"
    ++ₛ "event: "
    ++ₛ e.event_type
    ++ₛ "\n"
    ++ₛ "data: "
    ++ₛ to_json e.data_fields
    ++ₛ "\n\n"
