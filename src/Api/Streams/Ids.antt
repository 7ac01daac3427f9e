-- ===== src/Api/Streams/Ids.antt =====
-- Event ids and connection counts over any order of the steps of all connections: streams.py, `_emit`,
-- `_acquire_slot` and `_release_slot`.
use lumine_hedge_fund.Prelude.{
  ℕ, zero, suc, ◌+◌, ◌-◌, ◌≡◌, refl, ap, ◌∙◌, sym, inl, inr, List, [], ◌∷◌, ◌++◌, String, Dict,
  lookup, lookup-insert, str_eq, arith, leb, if◌then◌else◌, length, length-append, drop, Bool-cases,
}
use mathlib.Core.Path.{subst}
use lumine_hedge_fund.Api.Deque
use lumine_hedge_fund.Api.Deque.Laws.{length-drop}
use lumine_hedge_fund.Api.Sse.Events.{Value}
use lumine_hedge_fund.Api.Streams.{
  Streams, BufferedEvent, Texts, Clock, buffer_max_events, or_no_events, or_zero, next_id, emitted,
  emit, acquired, acquire_slot, release_slot, taken, given_back, set_count,
}

abbrev pub buffer : String → Streams → List BufferedEvent
buffer channel st = or_no_events (lookup channel st.buffers)

-- The last id that was given in a channel, 0 before the first.
abbrev pub last_id : String → Streams → ℕ
last_id channel st = or_zero (lookup channel st.next_ids)

-- The events have the ids that end at `n`, without a hole.
abbrev pub EndsAt : ℕ → List BufferedEvent → Type 0
EndsAt n [] = Unit {0}
EndsAt n (buffered ∷ events) = (buffered.event_id + length events ≡ n) × EndsAt n events

EndsAt-drop : (n k : ℕ) (events : List BufferedEvent) → EndsAt n events → EndsAt n (drop k events)
EndsAt-drop n zero events h = h
EndsAt-drop n (suc k) [] h = tt
EndsAt-drop n (suc k) (b ∷ events) h = EndsAt-drop n k events h.1

EndsAt-append :
    (n : ℕ) (b : BufferedEvent) (events : List BufferedEvent)
    → b.event_id ≡ suc n
    → EndsAt n events
    → EndsAt (suc n) (events ++ b ∷ [])
EndsAt-append n b [] e h = (omega arith, tt)
EndsAt-append n b (c ∷ events) e h =
    (omega (arith, length-append events (b ∷ [])), EndsAt-append n b events e h.1)

abbrev pub buffered : Clock → ℕ → String → BufferedEvent
buffered clock event_id line = record { event_id = event_id; ts = clock.time; frame = line }

module _ (texts : Texts) (clock : Clock) (channel stream_id event_type : String)
    (fields : Dict Value) (st : Streams) where
  abbrev pub sent : String × Streams
  sent = emit texts clock channel stream_id event_type fields st

  pub last_id-emit :
      (c : String)
      → last_id c sent.1 ≡ (if str_eq channel c then suc (last_id channel st) else last_id c st)
  unfolding emit emitted next_id or_zero
  last_id-emit c = elim (Bool-cases (str_eq channel c)) [
    | inl e ↦ rw (lookup-insert, e) (omega arith)
    | inr e ↦ rw (lookup-insert, e) refl
  ]

  pub buffer-emit :
      (c : String)
      → buffer c sent.1 ≡ (
          if str_eq channel c
          then Deque.append buffer_max_events
              (buffer channel st)
              (buffered clock (suc (last_id channel st)) sent.0)
          else buffer c st)
  unfolding emit emitted next_id or_zero or_no_events
  buffer-emit c = elim (Bool-cases (str_eq channel c)) [
    | inl e ↦
        let k : next_id channel st ≡ suc (last_id channel st) = omega arith in
        rw (lookup-insert, e)
          (ap
            (λ (n : ℕ).
              Deque.append buffer_max_events (buffer channel st) (buffered clock n sent.0))
            k)
    | inr e ↦ rw (lookup-insert, e) refl
  ]

length-append_deque :
    (n : ℕ) (xs : List BufferedEvent) (x : BufferedEvent)
    → length (Deque.append n xs x) ≡ (if leb n (length xs) then n else suc (length xs))
unfolding Deque.append Deque.last
length-append_deque n xs x =
    ground
      (arith, length-append xs (x ∷ []), length-drop (length (xs ++ x ∷ []) - n) (xs ++ x ∷ []))

-- The last ids that were given, without a hole: as many as were given, and a thousand at most.
abbrev pub IsTail : ℕ → List BufferedEvent → Type 0
IsTail n events =
    EndsAt n events × (length events ≡ (if leb buffer_max_events n then buffer_max_events else n))

IsTail-append :
    (n : ℕ) (b : BufferedEvent) (events : List BufferedEvent)
    → b.event_id ≡ suc n
    → IsTail n events
    → IsTail (suc n) (Deque.append buffer_max_events events b)
unfolding Deque.append Deque.last
IsTail-append n b events e h = (
  EndsAt-drop (suc n) (length (events ++ b ∷ []) - buffer_max_events) (events ++ b ∷ [])
      (EndsAt-append n b events e h.0),
  ground (arith, length-append_deque buffer_max_events events b),
)

-- In each channel the buffer has the last ids that were given in it.
abbrev pub IsSequential : Streams → Type 0
IsSequential st = (channel : String) → IsTail (last_id channel st) (buffer channel st)

pub emit-IsSequential :
    (texts : Texts) (clock : Clock) (channel stream_id event_type : String) (fields : Dict Value)
    (st : Streams)
    → IsSequential st
    → IsSequential (emit texts clock channel stream_id event_type fields st).1
emit-IsSequential texts clock channel stream_id event_type fields st v c =
    let st' = emit texts clock channel stream_id event_type fields st in
    let l = last_id-emit texts clock channel stream_id event_type fields st c in
    let b = buffer-emit texts clock channel stream_id event_type fields st c in
    elim (Bool-cases (str_eq channel c)) [
      | inl e ↦
          subst (λ (n : ℕ). IsTail n (buffer c st'.1)) (sym (l ∙ rw e refl))
            (subst (IsTail (suc (last_id channel st))) (sym (b ∙ rw e refl)) (
              IsTail-append (last_id channel st) (buffered clock (suc (last_id channel st)) st'.0)
                (buffer channel st) refl (v channel)))
      | inr e ↦
          subst (λ (n : ℕ). IsTail n (buffer c st'.1)) (sym (l ∙ rw e refl))
            (subst (IsTail (last_id c st)) (sym (b ∙ rw e refl)) (v c))
    ]

-- The states that the module goes through: from empty buffers by frames of any connection, by
-- connections that open and by connections that close, in any order.
pub data Visits : Streams → Type 0 where
  start : (st : Streams) → st.buffers ≡ [] → st.next_ids ≡ [] → Visits st
  emits :
      (texts : Texts) (clock : Clock) (channel stream_id event_type : String) (fields : Dict Value)
      {st : Streams}
      → Visits st
      → Visits (emit texts clock channel stream_id event_type fields st).1
  acquires :
      (key_id host : String) {st st' : Streams}
      → acquire_slot key_id host st ≡ acquired st'
      → Visits st
      → Visits st'
  releases :
      (key_id host : String) {st : Streams} → Visits st → Visits (release_slot key_id host st)

start-IsSequential : (st : Streams) → st.buffers ≡ [] → st.next_ids ≡ [] → IsSequential st
unfolding or_zero or_no_events lookup
start-IsSequential st b n channel = rw (b, n) (tt, refl)

acquire_slot-keeps :
    (key_id host : String) (st st' : Streams)
    → acquire_slot key_id host st ≡ acquired st'
    → (st'.buffers ≡ st.buffers) × (st'.next_ids ≡ st.next_ids)
unfolding acquire_slot taken set_count
acquire_slot-keeps key_id host st st' e = ground arith

release_slot-keeps :
    (key_id host : String) (st : Streams)
    → ((release_slot key_id host st).buffers ≡ st.buffers)
      × ((release_slot key_id host st).next_ids ≡ st.next_ids)
unfolding release_slot given_back set_count
release_slot-keeps key_id host st = (refl, refl)

-- In every state that the module goes through from empty buffers, by frames of any connection and by
-- connections that open and close, in any order: each channel's buffer has exactly the last ids that
-- were given in the channel, without a hole, all of them up to a thousand and then the last thousand.
pub Visits-IsSequential : {st : Streams} → Visits st → IsSequential st
Visits-IsSequential (start st b n) = start-IsSequential st b n
Visits-IsSequential (emits texts clock channel stream_id event_type fields {st} v) =
    emit-IsSequential texts clock channel stream_id event_type fields st (Visits-IsSequential v)
Visits-IsSequential (acquires key_id host {st} {st'} e v) =
    let (b, n) = acquire_slot-keeps key_id host st st' e in
    λ channel. rw (b, n) (Visits-IsSequential v channel)
Visits-IsSequential (releases key_id host {st} v) =
    let (b, n) = release_slot-keeps key_id host st in
    λ channel. rw (b, n) (Visits-IsSequential v channel)
