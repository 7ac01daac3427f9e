-- ===== src/Api/Streams/Reconnect.antt =====
-- What a client that connects again is sent before the live events: streams.py, `_event_stream`.
use lumine_hedge_fund.Prelude.{
  str_eq, true, ℕ, suc, ◌+◌, ◌≤◌, ◌<◌, ◌≡◌, refl, ap, ◌∙◌, some, List, [], ◌∷◌, ◌++◌, map, pos,
  String, Dict, arith, All, length, length-append, eq_iff,
}
use lumine_hedge_fund.Api.Deque
use lumine_hedge_fund.Api.Deque.Laws.{last-last}
use lumine_hedge_fund.Api.Sse.Events.{Value, text, integer, boolean, Event}
use lumine_hedge_fund.Api.Streams.{
  BufferedEvent, Streams, Texts, Clock, received, buffer_max_events, replay_retention_us, emit,
  frame, frame_of, gap_detected, replay, replayed, resumed, last_event_id, opened, turn, relayed,
}
use lumine_hedge_fund.Api.Streams.Ids.{buffer, last_id, buffered}
use lumine_hedge_fund.Api.Streams.Resume.{IsFresh, map-append_lem, replayed-recent}
use lumine_hedge_fund.Api.Streams.Sharing.{
  relayed_data, emit-frame, last_id-emit_self, buffer-emit_self, turn-twice,
}

-- The frames `stream_open` and `stream_resumed` of a connection.
abbrev pub greeting : Texts → Clock → String → ℕ → String
greeting texts clock stream_id event_id =
    frame texts clock stream_id event_id "stream_open"
      (("stream_id", text stream_id) ∷ ("started_at", text clock.iso_utc_ms) ∷ [])

abbrev pub greeted : Texts → Clock → String → String → Streams → Streams
greeted texts clock channel stream_id st =
    (emit texts clock channel stream_id "stream_open"
      (("stream_id", text stream_id) ∷ ("started_at", text clock.iso_utc_ms) ∷ []) st).1

abbrev pub marker : Texts → Clock → String → String → ℕ → Streams → String
marker texts clock channel stream_id last st = frame texts clock stream_id last "stream_resumed" (
    ("from_event_id", integer last) ∷ ("gap_detected", boolean (gap_detected channel last st)) ∷ [])

append_assoc : (xs ys zs : List BufferedEvent) → (xs ++ ys) ++ zs ≡ xs ++ (ys ++ zs)
append_assoc [] ys zs = refl
append_assoc (x ∷ xs) ys zs = ap (λ (l : List BufferedEvent). x ∷ l) (append_assoc xs ys zs)

All-append :
    (P : BufferedEvent → Type 0) (xs ys : List BufferedEvent)
    → All P xs
    → All P ys
    → All P (xs ++ ys)
All-append P [] ys h k = k
All-append P (x ∷ xs) ys h k = (h.0, All-append P xs ys h.1 k)

-- A connection over a buffer whose newest events are given.
opened-recent :
    (texts : Texts) (clock later : Clock) (channel stream_id : String) (last : ℕ) (st : Streams)
    (events more : List BufferedEvent)
    → ((x : BufferedEvent)
        → Deque.append buffer_max_events (buffer channel st) x
          ≡ Deque.last buffer_max_events (events ++ (more ++ x ∷ [])))
    → All (λ b. (suc last < b.event_id) × IsFresh later.time b) more
    → length more ≤ 2
    → suc last ≤ last_id channel st
    → later.time ≤ clock.time + replay_retention_us
    → let hello = greeting texts clock stream_id (suc (last_id channel st)) in
      (xs : List String) × ((opened texts clock later channel stream_id
          (some (pos (suc last)))
          st).0
        ≡ hello
          ∷ marker texts later channel stream_id
              (suc last)
              (greeted texts clock channel stream_id st)
          ∷ (xs ++ (map frame_of more ++ hello ∷ [])))
unfolding opened resumed last_event_id replay frame_of
opened-recent texts clock later channel stream_id last st events more e new few known soon =
    let fields : Dict Value =
      ("stream_id", text stream_id) ∷ ("started_at", text clock.iso_utc_ms) ∷ [] in
    let hello = greeting texts clock stream_id (suc (last_id channel st)) in
    let b = buffered clock (suc (last_id channel st)) hello in
    let s = emit texts clock channel stream_id "stream_open" fields st in
    let held : buffer channel s.1 ≡ Deque.last buffer_max_events (events ++ (more ++ b ∷ [])) =
      buffer-emit_self texts clock channel stream_id "stream_open" fields st ∙ e b in
    let (xs, h) =
      replayed-recent later.time (suc last) events (more ++ b ∷ [])
        (All-append _ more (b ∷ []) new ((omega arith, soon), tt))
        (omega (arith, few, length-append more (b ∷ []))) in
    (
      xs,
      ap (λ (l : List String). s.0 ∷ marker texts later channel stream_id (suc last) s.1 ∷ l)
            (ap (λ (l : List BufferedEvent). map frame_of (replayed later.time (suc last) l)) held
              ∙ h
              ∙ ap (λ (l : List String). xs ++ l) (map-append_lem more (b ∷ [])))
          ∙ ap
              (λ (g : String).
                g
                ∷ marker texts later channel stream_id (suc last) s.1
                ∷ (xs ++ (map frame_of more ++ hello ∷ [])))
              (emit-frame texts clock channel stream_id "stream_open" fields st),
    )

-- A client that connects again, within five minutes of its `stream_open` and with the id of an event
-- that was given in the channel: what it is sent before the live events is its `stream_open` under the
-- next id, the marker `stream_resumed`, and a replay that ends with the same `stream_open` once more.
pub opened-open_twice :
    (texts : Texts) (clock later : Clock) (channel stream_id : String) (last : ℕ) (st : Streams)
    → suc last ≤ last_id channel st
    → later.time ≤ clock.time + replay_retention_us
    → let hello = greeting texts clock stream_id (suc (last_id channel st)) in
      (xs : List String) × ((opened texts clock later channel stream_id
          (some (pos (suc last)))
          st).0
        ≡ hello
          ∷ marker texts later channel stream_id
              (suc last)
              (greeted texts clock channel stream_id st)
          ∷ (xs ++ hello ∷ []))
unfolding Deque.append
opened-open_twice texts clock later channel stream_id last st known soon =
    opened-recent texts clock later channel stream_id last st (buffer channel st) [] (λ x. refl) tt
      (omega arith) known soon

-- What two appends leave, once more is appended.
append-append :
    (events : List BufferedEvent) (b c x : BufferedEvent)
    → Deque.append buffer_max_events
        (Deque.append buffer_max_events (Deque.append buffer_max_events events b) c)
        x
      ≡ Deque.last buffer_max_events (events ++ b ∷ c ∷ x ∷ [])
unfolding Deque.append
append-append events b c x =
    let n = buffer_max_events in
    ap (λ (l : List BufferedEvent). Deque.last n (l ++ x ∷ []))
      (last-last n (events ++ b ∷ []) (c ∷ []))
    ∙ last-last n ((events ++ b ∷ []) ++ c ∷ []) (x ∷ [])
    ∙ ap (Deque.last n) (
        append_assoc (events ++ b ∷ []) (c ∷ []) (x ∷ [])
        ∙ append_assoc events (b ∷ []) (c ∷ x ∷ []))

-- Two clients of a channel are both served the same event. A client that connects again within five
-- minutes of both, with the id of an event that was given before them, is sent that event twice in its
-- replay, as two frames under two consecutive ids, before its own `stream_open`.
pub opened-event_twice :
    (texts : Texts) (c d clock later : Clock) (channel a b stream_id : String) (event : Event)
    (last : ℕ) (st : Streams)
    → event.channel ≡ channel
    → suc last ≤ last_id channel st
    → later.time ≤ c.time + replay_retention_us
    → later.time ≤ d.time + replay_retention_us
    → later.time ≤ clock.time + replay_retention_us
    → let n = last_id channel st in
      let after =
        (turn texts channel b
          (received d event)
          (turn texts channel a (received c event) st).1).1 in
      let hello = greeting texts clock stream_id (suc (last_id channel after)) in
      (xs : List String) × ((opened texts clock later channel stream_id
          (some (pos (suc last)))
          after).0
        ≡ hello
          ∷ marker texts later channel stream_id
              (suc last)
              (greeted texts clock channel stream_id after)
          ∷ (xs
              ++ frame texts c a (suc n) event.event_type (relayed_data texts event)
                ∷ frame texts d b (suc (suc n)) event.event_type (relayed_data texts event)
                ∷ hello
                ∷ []))
unfolding turn relayed frame_of
opened-event_twice texts c d clock later channel a b stream_id event last st e known h i soon =
    let n = last_id channel st in
    let fields = relayed_data texts event in
    let same : str_eq event.channel channel ≡ true = (eq_iff event.channel channel).1 e in
    let after =
      (turn texts channel b (received d event) (turn texts channel a (received c event) st).1).1 in
    let s = emit texts c channel a event.event_type fields st in
    let first = last_id-emit_self texts c channel a event.event_type fields st in
    let count : last_id channel after ≡ suc (suc n) = rw same (
      last_id-emit_self texts d channel b event.event_type fields s.1
      ∙ ap (λ (m : ℕ). suc m) first) in
    let one = buffered c (suc n) (frame texts c a (suc n) event.event_type fields) in
    let two = buffered d (suc (suc n)) (frame texts d b (suc (suc n)) event.event_type fields) in
    let (xs, out) =
      opened-recent texts clock later channel stream_id last after (buffer channel st)
        (one ∷ two ∷ [])
        (λ x.
          ap (λ (l : List BufferedEvent). Deque.append buffer_max_events l x)
            (turn-twice texts c d channel a b event st e)
          ∙ append-append (buffer channel st) one two x)
        ((omega arith, h), ((omega arith, i), tt)) (omega arith) (omega (arith, count)) soon in
    (xs, out)
