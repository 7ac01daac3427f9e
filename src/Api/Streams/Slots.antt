-- ===== src/Api/Streams/Slots.antt =====
-- The connection counts over acquisitions and releases: streams.py, `_acquire_slot` and `_release_slot`.
use lumine_hedge_fund.Prelude.{
  ℕ, ◌+◌, ◌-◌, ◌≤◌, ◌<◌, ◌≡◌, refl, ap, ◌∙◌, sym, inl, inr, List, [], ◌∷◌, ◌++◌, String, lookup,
  lookup-insert, str_eq, eq_iff, arith, if◌then◌else◌, Bool-cases,
}
use Prim.Native.String.{◌++◌ as ◌++ₛ◌}
use Prim.Native.String.append
use Prim.Native.Char.{code}
use lumine_hedge_fund.Api.Streams.{
  Streams, max_key_connections, max_host_connections, or_zero, key_slot, host_slot, count,
  set_count, taken, given_back, acquire_slot, release_slot, acquired,
}

first_code : String → ℕ
first_code String.[] = 0
first_code (String.◌∷◌ c s) = code c

key_ne : (k h : String) → "key:" ++ₛ k ≡ "host:" ++ₛ h → ⊥
unfolding first_code
key_ne k h e =
    let a : first_code ("key:" ++ₛ k) ≡ 107 = rw (append.cons) refl in
    let b : first_code ("host:" ++ₛ h) ≡ 104 = rw (append.cons) refl in
    omega (arith, sym a ∙ ap first_code e ∙ b)

count-set_count :
    (slot j : String) (n : ℕ) (st : Streams)
    → count j (set_count slot n st) ≡ (if str_eq slot j then n else count j st)
unfolding count set_count or_zero
count-set_count slot j n st = elim (Bool-cases (str_eq slot j)) [
  | inl e ↦ rw (lookup-insert, e) refl
  | inr e ↦ rw (lookup-insert, e) refl
]

-- One for a slot that is the one asked for.
abbrev pub is_slot : String → String → ℕ
is_slot slot j = if str_eq slot j then 1 else 0

count-taken :
    (slot j : String) (st : Streams) → count j (taken slot st) ≡ count j st + is_slot slot j
unfolding taken
count-taken slot j st = ground (arith, count-set_count slot j (count slot st + 1) st, eq_iff slot j)

count-given_back :
    (slot j : String) (st : Streams) → count j (given_back slot st) ≡ count j st - is_slot slot j
unfolding given_back
count-given_back slot j st =
    ground (arith, count-set_count slot j (count slot st - 1) st, eq_iff slot j)

-- How many of the open connections hold a slot.
pub uses : String → List (String × String) → ℕ
uses slot [] = 0
uses slot ((key_id, host) ∷ connections) =
    is_slot (key_slot key_id) slot + is_slot (host_slot host) slot + uses slot connections

-- The states that the module goes through, with the connections that are open: a connection is opened
-- where its slots are granted, and any open one may close.
pub data Reaches : List (String × String) → Streams → Type 0 where
  start : (st : Streams) → st.active ≡ [] → Reaches [] st
  connect :
      (key_id host : String) {connections : List (String × String)} {st st' : Streams}
      → acquire_slot key_id host st ≡ acquired st'
      → Reaches connections st
      → Reaches ((key_id, host) ∷ connections) st'
  disconnect :
      (key_id host : String) (before after : List (String × String))
      {connections : List (String × String)} {st : Streams}
      → connections ≡ before ++ (key_id, host) ∷ after
      → Reaches connections st
      → Reaches (before ++ after) (release_slot key_id host st)

uses-append :
    (slot : String) (before after : List (String × String))
    → uses slot (before ++ after) ≡ uses slot before + uses slot after
unfolding uses
uses-append slot [] after = omega arith
uses-append slot ((k, h) ∷ before) after = omega (arith, uses-append slot before after)

abbrev pub IsLimited : Streams → Type 0
IsLimited st =
    ((key_id : String) → count (key_slot key_id) st ≤ max_key_connections)
    × ((host : String) → count (host_slot host) st ≤ max_host_connections)

acquired_state :
    (key_id host : String) (st st' : Streams)
    → acquire_slot key_id host st ≡ acquired st'
    → (count (key_slot key_id) st < max_key_connections)
      × (count (host_slot host) st < max_host_connections)
      × (st' ≡ taken (host_slot host) (taken (key_slot key_id) st))
unfolding acquire_slot
acquired_state key_id host st st' e = ground arith

count-acquired :
    (key_id host slot : String) (st : Streams)
    → count slot (taken (host_slot host) (taken (key_slot key_id) st))
      ≡ count slot st + is_slot (key_slot key_id) slot + is_slot (host_slot host) slot
count-acquired key_id host slot st = omega (
  arith,
  count-taken (host_slot host) slot (taken (key_slot key_id) st),
  count-taken (key_slot key_id) slot st,
)

count-released :
    (key_id host slot : String) (st : Streams)
    → count slot (release_slot key_id host st)
      ≡ count slot st - is_slot (key_slot key_id) slot - is_slot (host_slot host) slot
unfolding release_slot
count-released key_id host slot st = omega (
  arith,
  count-given_back (host_slot host) slot (given_back (key_slot key_id) st),
  count-given_back (key_slot key_id) slot st,
)

count-start : (slot : String) (st : Streams) → st.active ≡ [] → count slot st ≡ 0
unfolding count or_zero lookup
count-start slot st e = rw e refl

Reaches-uses :
    (slot : String) {connections : List (String × String)} {st : Streams}
    → Reaches connections st
    → count slot st ≡ uses slot connections
unfolding uses
Reaches-uses slot (start st e) = count-start slot st e
Reaches-uses slot (connect k h {connections} {st} {st'} e r) =
    rw ((acquired_state k h st st' e).2)
      (omega (arith, count-acquired k h slot st, Reaches-uses slot r))
Reaches-uses slot (disconnect k h before after {connections} {st} e r) = omega (
  arith,
  count-released k h slot st,
  Reaches-uses slot r,
  ap (uses slot) e,
  uses-append slot before ((k, h) ∷ after),
  uses-append slot before after,
)

is_slot-key_host : (k h : String) → is_slot (key_slot k) (host_slot h) ≡ 0
unfolding key_slot host_slot
is_slot-key_host k h = ground (arith, eq_iff ("key:" ++ₛ k) ("host:" ++ₛ h), key_ne k h)

is_slot-host_key : (h k : String) → is_slot (host_slot h) (key_slot k) ≡ 0
unfolding key_slot host_slot
is_slot-host_key h k = ground (
  arith,
  eq_iff ("host:" ++ₛ h) ("key:" ++ₛ k),
  λ (e : "host:" ++ₛ h ≡ "key:" ++ₛ k). key_ne k h (sym e),
)

-- A slot below its limit is at most at its limit once it is taken, and no other slot grows.
below_limit :
    (limit : ℕ) (slot j : String) (st : Streams)
    → count slot st < limit
    → count j st ≤ limit
    → count j st + is_slot slot j ≤ limit
below_limit limit slot j st below at_most = elim (Bool-cases (str_eq slot j)) [
  | inl e ↦
      let same : count slot st ≡ count j st = ap (λ k. count k st) ((eq_iff slot j).0 e) in
      rw e (omega (arith, same))
  | inr e ↦ rw e (omega arith)
]

Reaches-IsLimited :
    {connections : List (String × String)} {st : Streams} → Reaches connections st → IsLimited st
Reaches-IsLimited (start st e) = (
  λ k. omega (arith, count-start (key_slot k) st e),
  λ h. omega (arith, count-start (host_slot h) st e),
)
Reaches-IsLimited (connect k h {connections} {st} {st'} e r) =
    let (key_free, host_free, e') = acquired_state k h st st' e in
    let limited = Reaches-IsLimited r in
    rw e' (
      (λ j. omega (
        arith,
        count-acquired k h (key_slot j) st,
        is_slot-host_key h j,
        below_limit max_key_connections (key_slot k) (key_slot j) st key_free (limited.0 j),
      )),
      (λ j. omega (
        arith,
        count-acquired k h (host_slot j) st,
        is_slot-key_host k j,
        below_limit max_host_connections (host_slot h) (host_slot j) st host_free (limited.1 j),
      )),
    )
Reaches-IsLimited (disconnect k h before after {connections} {st} e r) =
    let limited = Reaches-IsLimited r in
    (
      λ j. omega (arith, count-released k h (key_slot j) st, limited.0 j),
      λ j. omega (arith, count-released k h (host_slot j) st, limited.1 j),
    )

-- In every state that the module reaches from no count at all, by connections that are granted their
-- slots and by open connections that close, in any order: each slot counts exactly the open
-- connections that hold it, no API key has more than 20 of them and no host more than 1000.
pub Reaches-counts :
    (slot : String) {connections : List (String × String)} {st : Streams}
    → Reaches connections st
    → (count slot st ≡ uses slot connections) × IsLimited st
Reaches-counts slot r = (Reaches-uses slot r, Reaches-IsLimited r)
