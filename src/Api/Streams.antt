-- ===== src/Api/Streams.antt =====
-- backend/src/lumine/api/routers/streams.py: connection slots, the replay buffers and the stream of one
-- channel. The dictionaries of the module are a state that all connections share. Times are in
-- microseconds. `json.dumps` and the texts of numbers and times are a record of functions; a clock
-- reading is a parameter of the step that takes it.
pub mod Slots
pub mod Ids
pub mod Resume
pub mod Sharing
pub mod Reconnect
pub mod Market
mod Tests
use lumine_hedge_fund.Prelude.{
  ℕ, zero, suc, ◌+◌, ◌-◌, Bool, true, false, ◌&&◌, Option, none, some, List, [], ◌∷◌, ◌++◌, map,
  String, Dict, lookup, insert, str_eq, ltb, leb, if◌then◌else◌, ℤ, pos, negsuc,
}
use Prim.Native.String.{◌++◌ as ◌++ₛ◌}
use lumine_hedge_fund.Api.Deque
use lumine_hedge_fund.Api.Sse.Events.{Value, text, boolean, integer, Event}

abbrev pub max_key_connections : ℕ
max_key_connections = 20

abbrev pub max_host_connections : ℕ
max_host_connections = 1000

abbrev pub buffer_max_events : ℕ
buffer_max_events = 1000

abbrev pub replay_retention_us : ℕ
replay_retention_us = 300000000

pub record BufferedEvent : Type 0 where
  pub event_id : ℕ
  pub ts : ℕ
  pub frame : String

-- `_buffers`, `_next_ids` and `_active`
pub record Streams : Type 0 where
  pub buffers : Dict (List BufferedEvent)
  pub next_ids : Dict ℕ
  pub active : Dict ℕ

pub record Envelope : Type 0 where
  pub timestamp : String
  pub request_id : String
  pub data_fields : Dict Value

pub record Texts : Type 0 where
  pub dumps : Envelope → String
  pub str : ℕ → String
  pub isoformat : ℕ → String

-- One reading of the clock: `time.time()` and the text of `datetime.now(UTC)`.
pub record Clock : Type 0 where
  pub time : ℕ
  pub iso_utc_ms : String

unfoldable pub frame : Texts → Clock → String → ℕ → String → Dict Value → String
frame texts clock stream_id event_id event_type data_fields =
    "id: "
    ++ₛ texts.str event_id
    ++ₛ "\nevent: "
    ++ₛ event_type
    ++ₛ "\ndata: "
    ++ₛ texts.dumps (record {
      timestamp = clock.iso_utc_ms;
      request_id = "stream-" ++ₛ stream_id;
      data_fields = data_fields;
    })
    ++ₛ "\n\n"

unfoldable pub or_zero : Option ℕ → ℕ
or_zero none = 0
or_zero (some n) = n

unfoldable pub or_no_events : Option (List BufferedEvent) → List BufferedEvent
or_no_events none = []
or_no_events (some events) = events

pub data SlotError : Type 0 where
  key_limit host_limit : SlotError

pub data Acquired : Type 0 where
  acquired : Streams → Acquired
  too_many_requests : SlotError → Acquired

unfoldable pub key_slot : String → String
key_slot key_id = "key:" ++ₛ key_id

unfoldable pub host_slot : String → String
host_slot host = "host:" ++ₛ host

-- `_active.get(slot, 0)`
unfoldable pub count : String → Streams → ℕ
unfolding or_zero
count slot st = or_zero (lookup slot st.active)

unfoldable pub set_count : String → ℕ → Streams → Streams
set_count slot n st = record st { active = insert slot n st.active }

unfoldable pub taken : String → Streams → Streams
unfolding count set_count
taken slot st = set_count slot (count slot st + 1) st

unfoldable pub acquire_slot : String → String → Streams → Acquired
unfolding taken count key_slot host_slot
acquire_slot key_id host st =
    if leb max_key_connections (count (key_slot key_id) st)
    then too_many_requests key_limit
    else if leb max_host_connections (count (host_slot host) st)
    then too_many_requests host_limit
    else acquired (taken (host_slot host) (taken (key_slot key_id) st))

-- `max(0, n - 1)`, which the truncated subtraction is.
unfoldable pub given_back : String → Streams → Streams
unfolding count set_count
given_back slot st = set_count slot (count slot st - 1) st

unfoldable pub release_slot : String → String → Streams → Streams
unfolding given_back key_slot host_slot
release_slot key_id host st = given_back (host_slot host) (given_back (key_slot key_id) st)

unfoldable pub next_id : String → Streams → ℕ
unfolding or_zero
next_id channel st = or_zero (lookup channel st.next_ids) + 1

unfoldable pub emitted :
    Texts → Clock → String → String → ℕ → String → Dict Value → Streams → String × Streams
unfolding frame or_no_events
emitted texts clock channel stream_id event_id event_type data_fields st =
    let text_ = frame texts clock stream_id event_id event_type data_fields in
    (
      text_,
      record st {
        next_ids = insert channel event_id st.next_ids;
        buffers =
            insert channel
              (Deque.append buffer_max_events (or_no_events (lookup channel st.buffers))
                (record { event_id = event_id; ts = clock.time; frame = text_ }))
              st.buffers;
      },
    )

unfoldable pub emit :
    Texts → Clock → String → String → String → Dict Value → Streams → String × Streams
unfolding emitted next_id
emit texts clock channel stream_id event_type data_fields st =
    emitted texts clock channel stream_id (next_id channel st) event_type data_fields st

unfoldable pub is_replayed : ℕ → ℕ → BufferedEvent → Bool
is_replayed now last_event_id buffered =
    ltb last_event_id buffered.event_id && leb now (buffered.ts + replay_retention_us)

-- The loop of `_replay`, on a channel's buffer.
unfoldable pub replayed : ℕ → ℕ → List BufferedEvent → List BufferedEvent
unfolding is_replayed
replayed now last_event_id [] = []
replayed now last_event_id (buffered ∷ events) =
    let rest = replayed now last_event_id events in
    if is_replayed now last_event_id buffered then buffered ∷ rest else rest

unfoldable pub frame_of : BufferedEvent → String
frame_of buffered = buffered.frame

unfoldable pub replay : ℕ → String → ℕ → Streams → List String
unfolding replayed or_no_events frame_of
replay now channel last_event_id st =
    map frame_of (replayed now last_event_id (or_no_events (lookup channel st.buffers)))

-- `min((b.event_id for b in buffer), default=default)`
unfoldable pub oldest_id : ℕ → List BufferedEvent → ℕ
oldest_id default [] = default
oldest_id default (buffered ∷ events) =
    let rest = oldest_id buffered.event_id events in
    if ltb rest buffered.event_id then rest else buffered.event_id

unfoldable pub gap_detected : String → ℕ → Streams → Bool
unfolding oldest_id or_no_events
gap_detected channel last_event_id st =
    ltb (last_event_id + 1)
      (oldest_id (last_event_id + 1) (or_no_events (lookup channel st.buffers)))

-- What follows `stream_open` where the client names the last event that it has seen.
unfoldable pub resumed : Texts → Clock → String → String → ℕ → Streams → List String
unfolding frame gap_detected replay
resumed texts clock channel stream_id zero st = []
resumed texts clock channel stream_id (suc last) st =
    frame texts clock stream_id (suc last) "stream_resumed" (
      ("from_event_id", integer (suc last))
      ∷ ("gap_detected", boolean (gap_detected channel (suc last) st))
      ∷ [])
    ∷ replay clock.time channel (suc last) st

-- `int(header)`, where a text that is no number counts as zero; a negative number resumes nothing.
unfoldable pub last_event_id : Option ℤ → ℕ
last_event_id none = 0
last_event_id (some (pos n)) = n
last_event_id (some (negsuc n)) = 0

-- The frames of a connection before the live events, and the state that it leaves. The clock is read
-- once for `stream_open` and once for what is resumed.
unfoldable pub opened :
    Texts → Clock → Clock → String → String → Option ℤ → Streams → List String × Streams
unfolding emit resumed last_event_id
opened texts clock later channel stream_id header st =
    let (first, st') =
      emit texts clock channel stream_id "stream_open"
        (("stream_id", text stream_id) ∷ ("started_at", text clock.iso_utc_ms) ∷ []) st in
    (first ∷ resumed texts later channel stream_id (last_event_id header) st', st')

-- `data.setdefault(key, value)`
unfoldable pub setdefault : String → Value → Dict Value → Dict Value
setdefault key value [] = (key, value) ∷ []
setdefault key value ((j, w) ∷ d) =
    if str_eq j key then (j, w) ∷ d else (j, w) ∷ setdefault key value d

-- What a turn of the live loop waits for.
pub data Wakeup : Type 0 where
  timeout : Wakeup
  received : Clock → Event → Wakeup

unfoldable pub heartbeat_line : String
heartbeat_line = ": heartbeat\n\n"

unfoldable pub relayed : Texts → Clock → String → String → Event → Streams → List String × Streams
unfolding emit setdefault
relayed texts clock channel stream_id event st =
    let (line, st') =
      emit texts clock channel stream_id event.event_type
        (setdefault "timestamp" (text (texts.isoformat event.timestamp)) event.data_fields) st in
    if str_eq event.channel channel then (line ∷ [], st') else ([], st)

-- One turn of the live loop.
unfoldable pub turn : Texts → String → String → Wakeup → Streams → List String × Streams
unfolding relayed heartbeat_line
turn texts channel stream_id timeout st = (heartbeat_line ∷ [], st)
turn texts channel stream_id (received clock event) st =
    relayed texts clock channel stream_id event st

-- The live loop over the turns of one client, until it disconnects.
unfoldable pub live : Texts → String → String → List Wakeup → Streams → List String × Streams
unfolding turn
live texts channel stream_id [] st = ([], st)
live texts channel stream_id (w ∷ wakeups) st =
    let (lines, st') = turn texts channel stream_id w st in
    let (more, st'') = live texts channel stream_id wakeups st' in (lines ++ more, st'')
