-- ===== src/Api/Streams/Sharing.antt =====
-- The live loop of one client, and what several clients of a channel leave in the shared buffer:
-- streams.py, `_event_stream`.
use lumine_hedge_fund.Prelude.{
  ℕ, suc, ◌≡◌, refl, ap, ◌∙◌, inl, inr, true, List, [], ◌∷◌, String, Dict, str_eq, eq_iff, arith,
  if◌then◌else◌, Bool-cases,
}
use lumine_hedge_fund.Api.Deque
use lumine_hedge_fund.Api.Sse.Events.{Value, text, Event}
use lumine_hedge_fund.Api.Streams.{
  Streams, Texts, Clock, Wakeup, timeout, received, buffer_max_events, emit, emitted, next_id,
  frame, setdefault, heartbeat_line, relayed, turn, live,
}
use lumine_hedge_fund.Api.Streams.Ids.{buffer, last_id, buffered, buffer-emit, last_id-emit}

-- The data of an event as it is relayed.
abbrev pub relayed_data : Texts → Event → Dict Value
relayed_data texts event =
    setdefault "timestamp" (text (texts.isoformat event.timestamp)) event.data_fields

-- The frames that a client is to get, numbered from the last id on without any state: one for each
-- event of its channel, and a heartbeat for each time that it waited in vain.
pub numbered : Texts → String → String → ℕ → List Wakeup → List String
numbered texts channel stream_id n [] = []
numbered texts channel stream_id n (timeout ∷ wakeups) =
    heartbeat_line ∷ numbered texts channel stream_id n wakeups
numbered texts channel stream_id n (received clock event ∷ wakeups) =
    let skipped = numbered texts channel stream_id n wakeups in
    let rest = numbered texts channel stream_id (suc n) wakeups in
    if str_eq event.channel channel
    then frame texts clock stream_id (suc n) event.event_type (relayed_data texts event) ∷ rest
    else skipped

pub emit-frame :
    (texts : Texts) (clock : Clock) (channel stream_id event_type : String) (fields : Dict Value)
    (st : Streams)
    → (emit texts clock channel stream_id event_type fields st).0
      ≡ frame texts clock stream_id (suc (last_id channel st)) event_type fields
unfolding emit emitted next_id
emit-frame texts clock channel stream_id event_type fields st =
    ap (λ (n : ℕ). frame texts clock stream_id n event_type fields) (omega arith)

pub last_id-emit_self :
    (texts : Texts) (clock : Clock) (channel stream_id event_type : String) (fields : Dict Value)
    (st : Streams)
    → last_id channel (emit texts clock channel stream_id event_type fields st).1
      ≡ suc (last_id channel st)
last_id-emit_self texts clock channel stream_id event_type fields st =
    last_id-emit texts clock channel stream_id event_type fields st channel
    ∙ rw ((eq_iff channel channel).1 refl) refl

-- While no other client of the channel is served in between: a client gets exactly the events of its
-- channel, in the order of its queue, under ids that follow the last one given in the channel without
-- a hole; heartbeats take no id.
pub live-numbered :
    (texts : Texts) (channel stream_id : String) (wakeups : List Wakeup) (st : Streams)
    → (live texts channel stream_id wakeups st).0
      ≡ numbered texts channel stream_id (last_id channel st) wakeups
unfolding live turn relayed numbered
live-numbered texts channel stream_id [] st = refl
live-numbered texts channel stream_id (timeout ∷ wakeups) st =
    ap (λ (l : List String). heartbeat_line ∷ l) (live-numbered texts channel stream_id wakeups st)
live-numbered texts channel stream_id (received clock event ∷ wakeups) st =
    elim (Bool-cases (str_eq event.channel channel)) [
      | inl e ↦
          let d = relayed_data texts event in
          let s = emit texts clock channel stream_id event.event_type d st in
          let first = emit-frame texts clock channel stream_id event.event_type d st in
          let next = last_id-emit_self texts clock channel stream_id event.event_type d st in
          rw e (
            ap (λ (f : String). f ∷ (live texts channel stream_id wakeups s.1).0) first
            ∙ ap
                (λ (l : List String).
                  frame texts clock stream_id (suc (last_id channel st)) event.event_type d ∷ l)
                (live-numbered texts channel stream_id wakeups s.1
                  ∙ ap (λ (n : ℕ). numbered texts channel stream_id n wakeups) next))
      | inr e ↦ rw e (live-numbered texts channel stream_id wakeups st)
    ]

pub buffer-emit_self :
    (texts : Texts) (clock : Clock) (channel stream_id event_type : String) (fields : Dict Value)
    (st : Streams)
    → buffer channel (emit texts clock channel stream_id event_type fields st).1
      ≡ Deque.append buffer_max_events (buffer channel st) (
          buffered clock
            (suc (last_id channel st))
            (frame texts clock stream_id (suc (last_id channel st)) event_type fields))
buffer-emit_self texts clock channel stream_id event_type fields st =
    buffer-emit texts clock channel stream_id event_type fields st channel
    ∙ rw ((eq_iff channel channel).1 refl) (
        ap
          (λ (f : String).
            Deque.append buffer_max_events (buffer channel st)
              (buffered clock (suc (last_id channel st)) f))
          (emit-frame texts clock channel stream_id event_type fields st))

-- Where two clients of a channel are both served the same event: the shared buffer has it twice, under
-- two consecutive ids.
pub turn-twice :
    (texts : Texts) (c d : Clock) (channel a b : String) (event : Event) (st : Streams)
    → event.channel ≡ channel
    → let n = last_id channel st in
      let served = (turn texts channel a (received c event) st).1 in
      let after = (turn texts channel b (received d event) served).1 in
      let data_fields = relayed_data texts event in
      buffer channel after
      ≡ Deque.append buffer_max_events
          (Deque.append buffer_max_events
            (buffer channel st)
            (buffered c (suc n) (frame texts c a (suc n) event.event_type data_fields)))
          (buffered d (suc (suc n)) (frame texts d b (suc (suc n)) event.event_type data_fields))
unfolding turn relayed
turn-twice texts c d channel a b event st e =
    let fields = relayed_data texts event in
    let same : str_eq event.channel channel ≡ true = (eq_iff event.channel channel).1 e in
    let s = emit texts c channel a event.event_type fields st in
    rw same (
      buffer-emit_self texts d channel b event.event_type fields s.1
      ∙ rw (last_id-emit_self texts c channel a event.event_type fields st)
          (rw (buffer-emit_self texts c channel a event.event_type fields st) refl))
