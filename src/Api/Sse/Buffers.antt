-- ===== src/Api/Sse/Buffers.antt =====
-- The channels' ring buffers against the log of all that was published: publisher.py, `publish`,
-- `_clean_old_events` and `get_channel_history`.
use lumine_hedge_fund.Prelude.{
  ℕ, suc, ◌≤◌, ◌≡◌, refl, ap, ◌∙◌, sym, inl, inr, true, some, List, [], ◌∷◌, ◌++◌, String, Dict,
  lookup, insert, lookup-insert, str_eq, eq_iff, arith, leb, if◌then◌else◌, length, Bool-cases, pos,
}
use mathlib.Core.List.{append_assoc, append-nil}
use lumine_hedge_fund.Api.Deque
use lumine_hedge_fund.Api.Deque.Laws.{last-cons, last-last, last-short}
use lumine_hedge_fund.Api.Sse.Events.{Event}
use lumine_hedge_fund.Api.Sse.{
  Publisher, max_events_per_channel, new_publisher, or_nothing, is_expired, clean_old,
  clean_channel, clean_old_events, store_event, publish, recent, get_channel_history,
}

abbrev pub buffer : String → Publisher → List Event
buffer channel p = or_nothing (lookup channel p.channels)

-- The calls of `publish` one after the other, each with the time of its clean-up.
unfoldable pub publish_all : List (ℕ × Event) → Publisher → Publisher
publish_all [] p = p
publish_all ((now, event) ∷ calls) p = publish_all calls (publish now event p)

-- The clock of the calls does not run backwards.
abbrev pub Timely : ℕ → List (ℕ × Event) → Type 0
Timely t [] = Unit {0}
Timely t ((now, event) ∷ calls) = (t ≤ now) × Timely now calls

-- All events of a channel, however old.
unfoldable pub published : String → List (ℕ × Event) → List Event
published channel [] = []
published channel ((now, event) ∷ calls) =
    let rest = published channel calls in
    if str_eq event.channel channel then event ∷ rest else rest

-- When the channel was last cleaned, if at `t` before the calls.
unfoldable pub cleaned_at : String → ℕ → List (ℕ × Event) → ℕ
cleaned_at channel t [] = t
cleaned_at channel t ((now, event) ∷ calls) =
    cleaned_at channel (if str_eq event.channel channel then now else t) calls

-- What the buffer is to hold of a log: of the last hundred events, those from the first on that had
-- not expired.
unfoldable pub kept : ℕ → List Event → List Event
kept t log = clean_old t (Deque.last max_events_per_channel log)

lookup-insert_self {ℓ} :
    {V : Type ℓ} (k : String) (v : V) (d : Dict V) → lookup k (insert k v d) ≡ some v
lookup-insert_self k v d = ground (arith, lookup-insert k k v d, eq_iff k k)

buffer-publish :
    (now : ℕ) (event : Event) (p : Publisher) (channel : String)
    → buffer channel (publish now event p) ≡ (
        if str_eq event.channel channel
        then clean_old now (Deque.append max_events_per_channel (buffer event.channel p) event)
        else buffer channel p)
unfolding publish store_event clean_old_events or_nothing
buffer-publish now event p channel = elim (Bool-cases (str_eq event.channel channel)) [
  | inl e ↦ rw (lookup-insert_self, clean_channel, lookup-insert, e) refl
  | inr e ↦ rw (lookup-insert_self, clean_channel, lookup-insert, e, lookup-insert, e) refl
]

-- An expired event at the front is dropped by the clean-up, whether or not the bound dropped it.
clean_old-last_cons :
    (t n : ℕ) (event : Event) (events : List Event)
    → is_expired t event ≡ true
    → clean_old t (Deque.last n (event ∷ events)) ≡ clean_old t (Deque.last n events)
unfolding clean_old
clean_old-last_cons t n event events old = elim (Bool-cases (leb n (length events))) [
  | inl e ↦ rw (last-cons, e) refl
  | inr e ↦ rw (last-cons, e, old) (ap (clean_old t) (sym (last-short n events (ground arith))))
]

is_expired_later :
    (t now : ℕ) (event : Event) → t ≤ now → is_expired t event ≡ true → is_expired now event ≡ true
unfolding is_expired
is_expired_later t now event h old = ground arith

-- An earlier clean-up does not show after a later one.
clean_old-earlier :
    (t now n : ℕ) (log more : List Event)
    → t ≤ now
    → clean_old now (Deque.last n (clean_old t log ++ more))
      ≡ clean_old now (Deque.last n (log ++ more))
unfolding clean_old
clean_old-earlier t now n [] more h = refl
clean_old-earlier t now n (event ∷ log) more h = elim (Bool-cases (is_expired t event)) [
  | inl old ↦ rw old (
      clean_old-earlier t now n log more h
      ∙ sym (clean_old-last_cons now n event (log ++ more) (is_expired_later t now event h old)))
  | inr young ↦ rw young refl
]

kept-append :
    (t now : ℕ) (log : List Event) (event : Event)
    → t ≤ now
    → clean_old now (Deque.append max_events_per_channel (kept t log) event)
      ≡ kept now (log ++ event ∷ [])
unfolding kept Deque.append
kept-append t now log event h =
    clean_old-earlier t now max_events_per_channel (Deque.last max_events_per_channel log)
      (event ∷ []) h
    ∙ ap (clean_old now) (last-last max_events_per_channel log (event ∷ []))

buffer-publish_same :
    (t now : ℕ) (event : Event) (channel : String) (log : List Event) (p : Publisher)
    → str_eq event.channel channel ≡ true
    → t ≤ now
    → buffer channel p ≡ kept t log
    → buffer channel (publish now event p) ≡ kept now (log ++ event ∷ [])
buffer-publish_same t now event channel log p same h e =
    let c : event.channel ≡ channel = (eq_iff event.channel channel).0 same in
    let e' : buffer event.channel p ≡ kept t log = ap (λ k. buffer k p) c ∙ e in
    buffer-publish now event p channel ∙ rw same (rw e' (kept-append t now log event h))

new-buffer : (channel : String) → buffer channel new_publisher ≡ kept 0 []
unfolding kept lookup clean_old Deque.last or_nothing
new-buffer channel = refl

buffer-publish_all :
    (channel : String) (s t : ℕ) (calls : List (ℕ × Event)) (log : List Event) (p : Publisher)
    → Timely t calls
    → s ≤ t
    → buffer channel p ≡ kept s log
    → buffer channel (publish_all calls p)
      ≡ kept (cleaned_at channel s calls) (log ++ published channel calls)
unfolding publish_all published cleaned_at
buffer-publish_all channel s t [] log p timely h e = e ∙ ap (kept s) (sym (append-nil log))
buffer-publish_all channel s t ((now, event) ∷ calls) log p timely h e =
    elim (Bool-cases (str_eq event.channel channel)) [
      | inl same ↦
          rw (same, ← append_assoc log (event ∷ []) (published channel calls))
            (buffer-publish_all channel now now calls (log ++ event ∷ []) (publish now event p)
              timely.1 (omega arith)
              (buffer-publish_same s now event channel log p same (omega arith) e))
      | inr other ↦ rw other (
          buffer-publish_all channel s now calls log (publish now event p) timely.1 (omega arith)
            (buffer-publish now event p channel ∙ rw other e))
    ]

-- For any sequence of calls of `publish` on any channels, heartbeats among them, whose clock does not
-- run backwards, and for a positive limit: the answer of `get_channel_history` is the last `limit`
-- events of what an unbounded log of the channel keeps, that is of its last hundred events from the
-- first on that was not older than five minutes when the channel was last published to. So the
-- evictions and the clean-ups of the calls before never lose an event that is to be kept.
pub get_channel_history-publish_all :
    (channel : String) (limit : ℕ) (calls : List (ℕ × Event))
    → Timely 0 calls
    → get_channel_history channel (pos (suc limit)) (publish_all calls new_publisher)
      ≡ Deque.last (suc limit) (kept (cleaned_at channel 0 calls) (published channel calls))
unfolding get_channel_history recent
get_channel_history-publish_all channel limit calls timely = ap (Deque.last (suc limit)) (
    buffer-publish_all channel 0 0 calls [] new_publisher timely (omega arith) (new-buffer channel))
