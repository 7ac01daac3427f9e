-- ===== src/Api/Streams/Tests.antt =====
-- Two connections to one channel of streams.py.
use lumine_hedge_fund.Prelude.{
  ℕ, suc, ◌+◌, ◌-◌, ◌*◌, ◌≤◌, ◌<◌, ◌≡◌, refl, ◌⊎◌, arith, false, some, List, [], ◌∷◌, ◌++◌, pos,
  String, All, lookup, insert,
}
use lumine_hedge_fund.Api.Deque
use lumine_hedge_fund.Api.Sse.Events.{Event, text}
use lumine_hedge_fund.Api.Streams.{
  Streams, Texts, Clock, Envelope, count, acquire_slot, acquired, emit, replayed, gap_detected,
  opened, turn, received, frame,
}
use lumine_hedge_fund.Api.Streams.Ids.{
  buffer, last_id, IsSequential, Visits, start, emits, Visits-IsSequential,
}
use lumine_hedge_fund.Api.Streams.Slots
use lumine_hedge_fund.Api.Streams.Slots.{uses, IsLimited, Reaches, Reaches-counts}
use lumine_hedge_fund.Api.Streams.Resume.{ids, range_from, IsFresh, replayed_complete}
use lumine_hedge_fund.Api.Streams.Reconnect.{
  greeting, greeted, marker, opened-open_twice, opened-event_twice,
}
use lumine_hedge_fund.Api.Streams.Sharing.{relayed_data}
use lumine_hedge_fund.Api.Streams.Market.{market_status, weekday, day_us, hour_us}
use lumine_hedge_fund.Api.Streams.Market.Calendar.{IsOpen, IsClosed, market_status-next_open}

abbrev texts : Texts
texts = record { dumps = λ (e : Envelope). e.request_id; str = λ n. "1"; isoformat = λ t. "t" }

abbrev clock : ℕ → Clock
clock t = record { time = t; iso_utc_ms = "z" }

abbrev empty : Streams
empty = record { buffers = []; next_ids = []; active = [] }

abbrev filled : Event
filled = record {
  event_type = "order_fill";
  channel = "orders";
  data_fields = ("status", text "filled") ∷ [];
  timestamp = 3;
  event_id = "e";
}

abbrev one : Streams
unfolding emit
one = (emit texts (clock 5) "orders" "s1" "order_fill" [] empty).1

abbrev two : Streams
unfolding emit
two = (emit texts (clock 6) "orders" "s1" "order_fill" [] one).1

one_visited : Visits one
unfolding emit
one_visited = emits texts (clock 5) "orders" "s1" "order_fill" [] (start empty refl refl)

two_visited : Visits two
unfolding emit
two_visited = emits texts (clock 6) "orders" "s1" "order_fill" [] one_visited

Visits-IsSequential_example : IsSequential two
Visits-IsSequential_example = Visits-IsSequential two_visited

two-IsSequential : IsSequential two
two-IsSequential = Visits-IsSequential two_visited

known : 1 ≤ last_id "orders" two
unfolding emit lookup insert
known = omega arith

whole : gap_detected "orders" 1 two ≡ false
unfolding gap_detected emit lookup insert Deque.append
whole = refl

young : All (IsFresh 9) (buffer "orders" two)
unfolding emit lookup insert Deque.append
young = omega arith

replayed_complete_example :
    ids (replayed 9 1 (buffer "orders" two)) ≡ range_from 2 (last_id "orders" two - 1)
replayed_complete_example = replayed_complete "orders" 9 1 two two-IsSequential known whole young

opened-open_twice_example :
    let hello = greeting texts (clock 7) "s2" (suc (last_id "orders" two)) in
    (xs : List String) × ((opened texts (clock 7) (clock 8) "orders" "s2" (some (pos 1)) two).0
      ≡ hello
        ∷ marker texts (clock 8) "orders" "s2" 1 (greeted texts (clock 7) "orders" "s2" two)
        ∷ (xs ++ hello ∷ []))
opened-open_twice_example =
    opened-open_twice texts (clock 7) (clock 8) "orders" "s2" 0 two known (omega arith)

given : 1 ≤ last_id "orders" one
unfolding emit lookup insert
given = omega arith

opened-event_twice_example :
    let n = last_id "orders" one in
    let served = (turn texts "orders" "a" (received (clock 6) filled) one).1 in
    let after = (turn texts "orders" "b" (received (clock 7) filled) served).1 in
    let hello = greeting texts (clock 8) "s3" (suc (last_id "orders" after)) in
    (xs : List String) × ((opened texts (clock 8) (clock 9) "orders" "s3" (some (pos 1)) after).0
      ≡ hello
        ∷ marker texts (clock 9) "orders" "s3" 1 (greeted texts (clock 8) "orders" "s3" after)
        ∷ (xs
            ++ frame texts (clock 6) "a" (suc n) "order_fill" (relayed_data texts filled)
              ∷ frame texts (clock 7) "b" (suc (suc n)) "order_fill" (relayed_data texts filled)
              ∷ hello
              ∷ []))
opened-event_twice_example =
    opened-event_twice texts (clock 6) (clock 7) (clock 8) (clock 9) "orders" "a" "b" "s3" filled 0
      one refl given (omega arith) (omega arith) (omega arith)

abbrev connected : Streams
unfolding acquire_slot
connected = record empty { active = ("key:k", 1) ∷ ("host:h", 1) ∷ [] }

granted : acquire_slot "k" "h" empty ≡ acquired connected
unfolding acquire_slot lookup insert
granted = refl

reached : Reaches (("k", "h") ∷ []) connected
reached = Slots.connect "k" "h" granted (Slots.start empty refl)

Reaches-counts_example :
    (count "key:k" connected ≡ uses "key:k" (("k", "h") ∷ [])) × IsLimited connected
Reaches-counts_example = Reaches-counts "key:k" reached

-- Ten o'clock on a Monday.
abbrev morning : ℕ
morning = 10 * hour_us

closed : IsClosed morning
unfolding market_status
closed = refl

announced : (market_status morning).next_open ≡ some (7 * day_us + 21 * hour_us)
unfolding market_status
announced = refl

market_status-next_open_example :
    let n = 7 * day_us + 21 * hour_us in
    ((5 ≤ weekday morning)
      × (morning < n)
      × IsOpen n
      × ((u : ℕ) → morning ≤ u → u < n → IsClosed u))
    ⊎ ((weekday morning ≡ 0) × (m : ℕ) × (n ≡ m + 7 * day_us) × (morning < m) × IsOpen m)
market_status-next_open_example =
    market_status-next_open morning (7 * day_us + 21 * hour_us) closed announced
