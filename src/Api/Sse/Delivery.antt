-- ===== src/Api/Sse/Delivery.antt =====
-- What subscribers find in their queues: publisher.py, the end of `publish`.
use lumine_hedge_fund.Prelude.{
  ℕ, zero, suc, ltb→lt, ◌≤◌, ◌≡◌, refl, ap, ◌∙◌, sym, inl, inr, List, [], ◌∷◌, ◌++◌, map, arith,
  ltb, length, length-append, take, All, Bool-cases,
}
use mathlib.Core.List.{append_assoc}
use lumine_hedge_fund.Api.Sse.Events.{Event}
use lumine_hedge_fund.Api.Sse.{
  Publisher, Subscriber, queue_maxsize, put_nowait, clean_channel, clean_old_events, store_event,
  publish,
}
use lumine_hedge_fund.Api.Sse.Buffers.{publish_all}

abbrev pub IsBounded : Subscriber → Type 0
IsBounded s = length s.queue ≤ queue_maxsize

-- The events of the calls, all channels together.
abbrev pub events_of : List (ℕ × Event) → List Event
events_of [] = []
events_of ((_, event) ∷ calls) = event ∷ events_of calls

-- A queue that nobody reads takes events until it is full.
abbrev pub filled : List Event → Subscriber → Subscriber
filled events s = record s { queue = take queue_maxsize (s.queue ++ events) }

subscribers-publish :
    (now : ℕ) (event : Event) (p : Publisher)
    → (publish now event p).subscribers ≡ map (put_nowait event) p.subscribers
unfolding publish store_event clean_old_events clean_channel
subscribers-publish now event p = ground arith

take-full : (n : ℕ) (xs ys : List Event) → length xs ≡ n → take n (xs ++ ys) ≡ xs
take-full zero [] ys h = refl
take-full (suc n) [] ys h = absurd (omega arith)
take-full zero (x ∷ xs) ys h = absurd (omega arith)
take-full (suc n) (x ∷ xs) ys h = ap (λ (zs : List Event). x ∷ zs) (take-full n xs ys (omega arith))

put_nowait-IsBounded :
    (event : Event) (s : Subscriber) → IsBounded s → IsBounded (put_nowait event s)
unfolding put_nowait
put_nowait-IsBounded event s h = elim (Bool-cases (ltb (length s.queue) queue_maxsize)) [
  | inl room ↦ rw room (omega (arith, length-append s.queue (event ∷ []), ltb→lt _ _ room))
  | inr full ↦ rw full h
]

filled-put_nowait :
    (event : Event) (events : List Event) (s : Subscriber)
    → IsBounded s
    → filled events (put_nowait event s) ≡ filled (event ∷ events) s
unfolding put_nowait
filled-put_nowait event events s h = elim (Bool-cases (ltb (length s.queue) queue_maxsize)) [
  | inl room ↦ rw room (
      ap (λ (q : List Event). record s { queue = take queue_maxsize q })
        (append_assoc s.queue (event ∷ []) events))
  | inr full ↦
      let n : length s.queue ≡ queue_maxsize = ground arith in
      rw full (
        ap (λ (q : List Event). record s { queue = q })
          (take-full queue_maxsize s.queue events n
            ∙ sym (take-full queue_maxsize s.queue (event ∷ events) n)))
]

map-filled :
    (event : Event) (events : List Event) (subscribers : List Subscriber)
    → All IsBounded subscribers
    → map (filled events) (map (put_nowait event) subscribers)
      ≡ map (filled (event ∷ events)) subscribers
map-filled event events [] h = refl
map-filled event events (s ∷ subscribers) h = rw (filled-put_nowait event events s h.0) (
    ap (λ (rest : List Subscriber). filled (event ∷ events) s ∷ rest)
      (map-filled event events subscribers h.1))

All-put_nowait :
    (event : Event) (subscribers : List Subscriber)
    → All IsBounded subscribers
    → All IsBounded (map (put_nowait event) subscribers)
All-put_nowait event [] h = tt
All-put_nowait event (s ∷ subscribers) h =
    (put_nowait-IsBounded event s h.0, All-put_nowait event subscribers h.1)

take-all : (n : ℕ) (xs : List Event) → length xs ≤ n → take n (xs ++ []) ≡ xs
take-all zero [] h = refl
take-all (suc n) [] h = refl
take-all zero (x ∷ xs) h = absurd (omega arith)
take-all (suc n) (x ∷ xs) h = ap (λ (zs : List Event). x ∷ zs) (take-all n xs (omega arith))

filled-nil :
    (subscribers : List Subscriber)
    → All IsBounded subscribers
    → map (filled []) subscribers ≡ subscribers
filled-nil [] h = refl
filled-nil (s ∷ subscribers) h = rw (filled-nil subscribers h.1) (
    ap (λ (q : List Event). record s { queue = q } ∷ subscribers)
      (take-all queue_maxsize s.queue h.0))

-- Where no queue holds more than a thousand events, and nobody reads meanwhile: after any sequence of
-- calls of `publish` every subscriber has its queue with all the events of the calls behind it, in
-- their order and for all channels, cut off at a thousand. So a slow subscriber loses the newest
-- events, and the others lose none by it.
pub subscribers-publish_all :
    (calls : List (ℕ × Event)) (p : Publisher)
    → All IsBounded p.subscribers
    → (publish_all calls p).subscribers ≡ map (filled (events_of calls)) p.subscribers
unfolding publish_all
subscribers-publish_all [] p h = sym (filled-nil p.subscribers h)
subscribers-publish_all ((now, event) ∷ calls) p h =
    let e = subscribers-publish now event p in
    subscribers-publish_all calls (publish now event p)
      (rw e (All-put_nowait event p.subscribers h))
    ∙ ap (map (filled (events_of calls))) e
    ∙ map-filled event (events_of calls) p.subscribers h
