-- ===== src/Api/Sse/Tests.antt =====
-- Events of an order and a heartbeat, through the publisher of publisher.py.
use lumine_hedge_fund.Prelude.{
  ℕ, ◌≡◌, refl, arith, false, List, [], ◌∷◌, pos, zero, All, lookup, length, insert,
}
use lumine_hedge_fund.Api.Deque
use lumine_hedge_fund.Api.Sse.Events.{Stamp, Event, event, text, to_sse_format}
use lumine_hedge_fund.Api.Sse.Publishing.{heartbeat_round}
use lumine_hedge_fund.Api.Sse.{
  Publisher, new_publisher, subscribe, unsubscribe, publish, start_heartbeat, stop_heartbeat,
  get_channel_history,
}
use lumine_hedge_fund.Api.Sse.Buffers.{
  buffer, publish_all, published, cleaned_at, kept, get_channel_history-publish_all,
}
use lumine_hedge_fund.Api.Sse.Delivery.{IsBounded}

abbrev at : ℕ → Stamp
at t = record { timestamp = t; event_id = "e"; isoformat = "now" }

abbrev filled_order : ℕ → Event
unfolding event
filled_order t = event (at t) "order_fill" "orders" (("status", text "filled") ∷ [])

-- The first two events are five minutes and more older than the third.
abbrev calls : List (ℕ × Event)
calls =
    (1, filled_order 1)
    ∷ (2, filled_order 2)
    ∷ (400000000, filled_order 400000000)
    ∷ (400000001, filled_order 400000001)
    ∷ []

abbrev listening : Publisher
unfolding subscribe
listening = subscribe 7 new_publisher

history : length (buffer "orders" (publish_all calls new_publisher)) ≡ 2
unfolding publish_all get_channel_history lookup publish insert filled_order Deque.append
history = refl

everything : length (get_channel_history "orders" (pos zero) (publish_all calls new_publisher)) ≡ 2
unfolding publish_all get_channel_history lookup publish insert filled_order Deque.append
everything = refl

left : (unsubscribe 7 listening).subscribers ≡ []
unfolding unsubscribe listening
left = refl

beating :
    length
      (buffer "orders" (heartbeat_round (λ c. at 5) 5 (publish 4 (filled_order 3) new_publisher)))
    ≡ 2
unfolding heartbeat_round lookup publish insert filled_order Deque.append
beating = refl

started : (stop_heartbeat (start_heartbeat new_publisher)).heartbeat_task ≡ false
unfolding stop_heartbeat
started = refl

line : to_sse_format (λ d. "{}") (filled_order 1) ≡ "id: e\nevent: order_fill\ndata: {}\n\n"
unfolding to_sse_format filled_order
line = refl

get_channel_history-publish_all_example :
    get_channel_history "orders" (pos 1) (publish_all calls new_publisher)
    ≡ Deque.last 1 (kept (cleaned_at "orders" 0 calls) (published "orders" calls))
get_channel_history-publish_all_example =
    get_channel_history-publish_all "orders" 0 calls (omega arith)

quiet : All IsBounded listening.subscribers
unfolding listening
quiet = omega arith
