-- ===== src/Api/Sse.antt =====
-- backend/src/lumine/api/sse/publisher.py. The clock, in microseconds, the texts that it gives and
-- the identifiers of `uuid4` are the stamp of a call. Floats are carried and never computed with:
-- they stand as decimals. The timer task of the heartbeat is a flag, and a round of its loop.
pub mod Events
pub mod Publishing
pub mod Buffers
pub mod Delivery
mod Tests
use lumine_hedge_fund.Prelude.{
  ℕ, zero, suc, ◌+◌, Bool, true, false, Option, none, some, List, [], ◌∷◌, ◌++◌, map, String, Dict,
  lookup, insert, ltb, ◌==◌, if◌then◌else◌, length, drop, ℤ, pos, negsuc,
}
use lumine_hedge_fund.Api.Deque
use lumine_hedge_fund.Api.Sse.Events.{Event}

-- An `asyncio.Queue`, with the identity by which the set of subscribers knows it.
pub record Subscriber : Type 0 where
  pub queue_id : ℕ
  pub queue : List Event

pub record Publisher : Type 0 where
  pub channels : Dict (List Event)
  pub subscribers : List Subscriber
  pub running : Bool
  pub heartbeat_task : Bool

abbrev pub heartbeat_interval_seconds : ℕ
heartbeat_interval_seconds = 30

abbrev pub max_events_per_channel : ℕ
max_events_per_channel = 100

abbrev pub retention_us : ℕ
retention_us = 300000000

abbrev pub queue_maxsize : ℕ
queue_maxsize = 1000

abbrev pub new_publisher : Publisher
new_publisher = record { channels = []; subscribers = []; running = false; heartbeat_task = false }

unfoldable pub subscribe : ℕ → Publisher → Publisher
subscribe queue_id p = record p {
  subscribers = p.subscribers ++ record { queue_id = queue_id; queue = [] } ∷ [];
}

unfoldable pub discard : ℕ → List Subscriber → List Subscriber
discard queue_id [] = []
discard queue_id (s ∷ subscribers) =
    let rest = discard queue_id subscribers in if s.queue_id == queue_id then rest else s ∷ rest

unfoldable pub unsubscribe : ℕ → Publisher → Publisher
unfolding discard
unsubscribe queue_id p = record p { subscribers = discard queue_id p.subscribers }

-- `put_nowait`, where `QueueFull` drops the event.
unfoldable pub put_nowait : Event → Subscriber → Subscriber
put_nowait event s =
    if ltb (length s.queue) queue_maxsize then record s { queue = s.queue ++ event ∷ [] } else s

-- The events of a channel: `none` where the channel is not a key.
unfoldable pub or_nothing : Option (List Event) → List Event
or_nothing none = []
or_nothing (some events) = events

unfoldable pub is_expired : ℕ → Event → Bool
is_expired now event = ltb (event.timestamp + retention_us) now

-- The loop of `_clean_old_events`, on one channel's events.
unfoldable pub clean_old : ℕ → List Event → List Event
unfolding is_expired
clean_old now [] = []
clean_old now (oldest ∷ events) =
    let rest = clean_old now events in if is_expired now oldest then rest else oldest ∷ events

unfoldable pub clean_channel : ℕ → String → Option (List Event) → Publisher → Publisher
unfolding clean_old
clean_channel now channel none p = p
clean_channel now channel (some events) p = record p {
  channels = insert channel (clean_old now events) p.channels;
}

unfoldable pub clean_old_events : ℕ → String → Publisher → Publisher
unfolding clean_channel
clean_old_events now channel p = clean_channel now channel (lookup channel p.channels) p

unfoldable pub store_event : Event → Publisher → Publisher
unfolding or_nothing
store_event event p = record p {
  channels =
      insert event.channel
        (Deque.append max_events_per_channel (or_nothing (lookup event.channel p.channels)) event)
        p.channels;
}

-- `now` is the time of the clean-up.
unfoldable pub publish : ℕ → Event → Publisher → Publisher
unfolding store_event clean_old_events put_nowait
publish now event p =
    let q = clean_old_events now event.channel (store_event event p) in
    record q { subscribers = map (put_nowait event) q.subscribers }

unfoldable pub start_heartbeat : Publisher → Publisher
start_heartbeat p =
    if p.heartbeat_task then p else record p { running = true; heartbeat_task = true }

unfoldable pub stop_heartbeat : Publisher → Publisher
stop_heartbeat p = record p { running = false; heartbeat_task = false }

-- `events[-limit:]`
unfoldable pub recent : ℤ → List Event → List Event
recent (pos zero) events = events
recent (pos (suc n)) events = Deque.last (suc n) events
recent (negsuc n) events = drop (suc n) events

unfoldable pub get_channel_history : String → ℤ → Publisher → List Event
unfolding recent or_nothing
get_channel_history channel limit p = recent limit (or_nothing (lookup channel p.channels))
