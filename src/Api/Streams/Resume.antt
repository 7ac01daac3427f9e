-- ===== src/Api/Streams/Resume.antt =====
-- What a client gets that connects again: streams.py, `_replay` and the start of `_event_stream`.
use lumine_hedge_fund.Prelude.{
  ℕ, zero, suc, ◌+◌, ◌-◌, ◌≤◌, ◌<◌, ◌≡◌, refl, ap, ◌∙◌, sym, inl, inr, true, false, List, [], ◌∷◌,
  ◌++◌, String, arith, ltb, leb, if◌then◌else◌, length, length-append, drop, Bool-cases, map, All,
  le→leb,
}
use lumine_hedge_fund.Api.Deque
use lumine_hedge_fund.Api.Streams.{
  Streams, BufferedEvent, buffer_max_events, replay_retention_us, is_replayed, replayed, oldest_id,
  gap_detected, frame_of,
}
use lumine_hedge_fund.Api.Streams.Ids.{buffer, last_id, EndsAt, IsSequential}

-- The numbers from `s` on, `n` of them.
pub range_from : ℕ → ℕ → List ℕ
range_from s zero = []
range_from s (suc n) = s ∷ range_from (suc s) n

abbrev pub ids : List BufferedEvent → List ℕ
ids [] = []
ids (b ∷ events) = b.event_id ∷ ids events

-- No event is older than five minutes.
abbrev pub IsFresh : ℕ → BufferedEvent → Type 0
IsFresh now b = now ≤ b.ts + replay_retention_us

-- The first id that is replayed.
abbrev first_after : ℕ → ℕ → ℕ
first_after last start = if leb start last then suc last else start

range_from-none : (k n : ℕ) → n ≡ 0 → [] ≡ range_from k n
unfolding range_from
range_from-none k zero e = refl
range_from-none k (suc n) e = absurd (omega arith)

range_from-some : (k n m : ℕ) → n ≡ suc m → range_from k n ≡ k ∷ range_from (suc k) m
unfolding range_from
range_from-some k zero m e = absurd (omega arith)
range_from-some k (suc n) m e = ap (λ (j : ℕ). k ∷ range_from (suc k) j) (omega arith)

ids-replayed :
    (now last n : ℕ) (events : List BufferedEvent)
    → EndsAt n events
    → length events ≤ n
    → All (IsFresh now) events
    → (k : ℕ) → k ≡ first_after last (suc n - length events)
    → ids (replayed now last events) ≡ range_from k (suc n - k)
unfolding replayed is_replayed
ids-replayed now last n [] h len fresh k e = range_from-none k (suc n - k) (ground arith)
ids-replayed now last n (b ∷ events) h len fresh k e = elim (Bool-cases (ltb last b.event_id)) [
  | inl new ↦
      let kept : is_replayed now last b ≡ true =
        ground (arith, le→leb now (b.ts + replay_retention_us) fresh.0) in
      let at : k ≡ b.event_id = ground arith in
      rw kept (
        ap (λ (l : List ℕ). b.event_id ∷ l)
          (ids-replayed now last n events h.1 (omega arith) fresh.1 (suc k) (ground arith))
        ∙ ap (λ (i : ℕ). i ∷ range_from (suc k) (suc n - suc k)) (sym at)
        ∙ sym (range_from-some k (suc n - k) (suc n - suc k) (omega arith)))
  | inr old ↦
      let dropped : is_replayed now last b ≡ false = ground arith in
      rw dropped (ids-replayed now last n events h.1 (omega arith) fresh.1 k (ground arith))
]

EndsAt-oldest :
    (n d : ℕ) (events : List BufferedEvent)
    → EndsAt n events
    → length events ≤ n
    → oldest_id d events ≡ (if ltb 0 (length events) then suc n - length events else d)
unfolding oldest_id
EndsAt-oldest n d [] h len = refl
EndsAt-oldest n d (b ∷ events) h len = ground (arith, EndsAt-oldest n b.event_id events h.1)

-- The marker says that there is a gap exactly where more than a thousand events were given in the
-- channel since the one that the client names; the age of the events does not matter.
pub gap_detected-eq_given :
    (channel : String) (last : ℕ) (st : Streams)
    → IsSequential st
    → gap_detected channel last st ≡ ltb (last + buffer_max_events) (last_id channel st)
unfolding gap_detected
gap_detected-eq_given channel last st v = ground (
  arith,
  v channel,
  EndsAt-oldest (last_id channel st) (last + 1) (buffer channel st) (v channel).0,
)

-- Where the marker says that there is no gap, and no buffered event is older than five minutes: the
-- client is sent the events that follow the one it names, each once and in order, up to the last one
-- that was given.
pub replayed_complete :
    (channel : String) (now last : ℕ) (st : Streams)
    → IsSequential st
    → last ≤ last_id channel st
    → gap_detected channel last st ≡ false
    → All (IsFresh now) (buffer channel st)
    → ids (replayed now last (buffer channel st))
      ≡ range_from (suc last) (last_id channel st - last)
replayed_complete channel now last st v known whole fresh =
    let count = (v channel).1 in
    let few : last_id channel st ≤ last + buffer_max_events =
      ground (arith, gap_detected-eq_given channel last st v) in
    let len : length (buffer channel st) ≤ last_id channel st = ground (arith, count) in
    let start : suc last
        ≡ first_after last (suc (last_id channel st) - length (buffer channel st)) =
      ground (arith, count, few) in
    ids-replayed now last (last_id channel st) (buffer channel st) (v channel).0 len fresh
      (suc last) start
    ∙ ap (range_from (suc last)) (omega arith)

replayed-append :
    (now last : ℕ) (events more : List BufferedEvent)
    → replayed now last (events ++ more) ≡ replayed now last events ++ replayed now last more
unfolding replayed
replayed-append now last [] more = refl
replayed-append now last (b ∷ events) more = ground (arith, replayed-append now last events more)

pub map-append_lem :
    (xs ys : List BufferedEvent) → map frame_of (xs ++ ys) ≡ map frame_of xs ++ map frame_of ys
map-append_lem [] ys = refl
map-append_lem (x ∷ xs) ys = ap (λ (l : List String). frame_of x ∷ l) (map-append_lem xs ys)

drop-append :
    (k : ℕ) (xs ys : List BufferedEvent) → k ≤ length xs → drop k (xs ++ ys) ≡ drop k xs ++ ys
drop-append zero xs ys h = refl
drop-append (suc k) [] ys h = absurd (omega arith)
drop-append (suc k) (x ∷ xs) ys h = drop-append k xs ys (omega arith)

replayed_in_full :
    (now last : ℕ) (events : List BufferedEvent)
    → All (λ b. (last < b.event_id) × IsFresh now b) events
    → replayed now last events ≡ events
unfolding replayed is_replayed
replayed_in_full now last [] h = refl
replayed_in_full now last (b ∷ events) h = ground (
  arith,
  replayed_in_full now last events h.1,
  le→leb now (b.ts + replay_retention_us) h.0.1,
  h.0.0,
)

-- The newest events of a bounded buffer, younger than five minutes, are replayed last and in order.
pub replayed-recent :
    (now last : ℕ) (events more : List BufferedEvent)
    → All (λ b. (last < b.event_id) × IsFresh now b) more
    → length more ≤ buffer_max_events
    → (xs : List String) × (map frame_of
          (replayed now last (Deque.last buffer_max_events (events ++ more)))
        ≡ xs ++ map frame_of more)
unfolding Deque.last
replayed-recent now last events more new few =
    let k = length (events ++ more) - buffer_max_events in
    let shorter : k ≤ length events = omega (arith, length-append events more) in
    (
      map frame_of (replayed now last (drop k events)),
      rw
          (
            drop-append k events more shorter,
            replayed-append now last (drop k events) more,
            replayed_in_full now last more new,
          )
          (map-append_lem (replayed now last (drop k events)) more),
    )
