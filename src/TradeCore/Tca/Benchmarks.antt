-- ===== src/TradeCore/Tca/Benchmarks.antt =====
-- Which tick the transaction-cost analysis compares with: tca.py, `resolve_benchmark`.
use native.Mathlib.Nat.{le_trans}
use lumine_hedge_fund.Prelude.{
  ℕ, ◌≤◌, ◌≡◌, ◌⊎◌, inl, inr, true, false, Option, none, some, List, [], ◌∷◌, String, eq_iff, arith,
  Option-cases, Bool-cases, All, Any, All-map,
}
use lumine_hedge_fund.TradeCore.Tca.{
  Tick, Source, arrival_mid, session_open, Benchmark, ok, ◌>>=◌, mid, Calendar, calendar_closed,
  next_open, last_tick_until, first_tick_from, session_open_benchmark, arrival_benchmark,
  resolve_benchmark,
}

-- A tick of the symbol that was known at the decision is not later than `m`.
abbrev pub IsNoLater : String → ℕ → ℕ → Tick → Type 0
IsNoLater symbol decision_ts m u = u.symbol ≡ symbol → u.ts ≤ decision_ts → u.ts ≤ m

-- A tick of the symbol from the session's open on is not earlier than `m`.
abbrev pub IsNoEarlier : String → ℕ → ℕ → Tick → Type 0
IsNoEarlier symbol open_ts m u = u.symbol ≡ symbol → open_ts ≤ u.ts → m ≤ u.ts

last_tick-known :
    (symbol : String) (d : ℕ) (ticks : List Tick) {t : Tick}
    → last_tick_until symbol d ticks ≡ some t
    → (t.symbol ≡ symbol) × (t.ts ≤ d) × Any (λ u. u ≡ t) ticks
unfolding last_tick_until
last_tick-known symbol d [] h = cc
last_tick-known symbol d (u ∷ ticks) {t} h = elim (Option-cases (last_tick_until symbol d ticks)) [
  | inl e ↦ ground (arith, eq_iff u.symbol symbol)
  | inr (r, e) ↦ ground (arith, eq_iff u.symbol symbol, last_tick-known symbol d ticks e)
]

last_tick-none :
    (symbol : String) (d : ℕ) (m : ℕ) (ticks : List Tick)
    → last_tick_until symbol d ticks ≡ none
    → All (IsNoLater symbol d m) ticks
unfolding last_tick_until
last_tick-none symbol d m [] h = tt
last_tick-none symbol d m (u ∷ ticks) h = elim (Option-cases (last_tick_until symbol d ticks)) [
  | inl e ↦ ((λ p q. ground (arith, eq_iff u.symbol symbol)), last_tick-none symbol d m ticks e)
  | inr (r, e) ↦ absurd (ground arith)
]

last_tick-latest :
    (symbol : String) (d : ℕ) (ticks : List Tick) {t : Tick}
    → last_tick_until symbol d ticks ≡ some t
    → All (IsNoLater symbol d t.ts) ticks
unfolding last_tick_until
last_tick-latest symbol d [] h = tt
last_tick-latest symbol d (u ∷ ticks) {t} h = elim (Option-cases (last_tick_until symbol d ticks)) [
  | inl e ↦ ((λ p q. ground (arith, eq_iff u.symbol symbol)), last_tick-none symbol d t.ts ticks e)
  | inr (r, e) ↦ (
    (λ p q. ground (arith, eq_iff u.symbol symbol)),
    let later : r.ts ≤ t.ts = ground arith in
        All-map (λ v bound p q. le_trans (bound p q) later) ticks
          (last_tick-latest symbol d ticks e),
  )
]

first_tick-known :
    (symbol : String) (o : ℕ) (ticks : List Tick) {t : Tick}
    → first_tick_from symbol o ticks ≡ some t
    → (t.symbol ≡ symbol) × (o ≤ t.ts) × Any (λ u. u ≡ t) ticks
unfolding first_tick_from
first_tick-known symbol o [] h = cc
first_tick-known symbol o (u ∷ ticks) {t} h = elim (Option-cases (first_tick_from symbol o ticks)) [
  | inl e ↦ ground (arith, eq_iff u.symbol symbol)
  | inr (r, e) ↦ ground (arith, eq_iff u.symbol symbol, first_tick-known symbol o ticks e)
]

first_tick-none :
    (symbol : String) (o : ℕ) (m : ℕ) (ticks : List Tick)
    → first_tick_from symbol o ticks ≡ none
    → All (IsNoEarlier symbol o m) ticks
unfolding first_tick_from
first_tick-none symbol o m [] h = tt
first_tick-none symbol o m (u ∷ ticks) h = elim (Option-cases (first_tick_from symbol o ticks)) [
  | inl e ↦ ((λ p q. ground (arith, eq_iff u.symbol symbol)), first_tick-none symbol o m ticks e)
  | inr (r, e) ↦ absurd (ground arith)
]

first_tick-earliest :
    (symbol : String) (o : ℕ) (ticks : List Tick) {t : Tick}
    → first_tick_from symbol o ticks ≡ some t
    → All (IsNoEarlier symbol o t.ts) ticks
unfolding first_tick_from
first_tick-earliest symbol o [] h = tt
first_tick-earliest symbol o (u ∷ ticks) {t} h =
    elim (Option-cases (first_tick_from symbol o ticks)) [
      | inl e ↦
          ((λ p q. ground (arith, eq_iff u.symbol symbol)), first_tick-none symbol o t.ts ticks e)
      | inr (r, e) ↦ (
        (λ p q. ground (arith, eq_iff u.symbol symbol)),
        let earlier : t.ts ≤ r.ts = ground arith in
            All-map (λ v bound p q. le_trans earlier (bound p q)) ticks
              (first_tick-earliest symbol o ticks e),
      )
    ]

-- The benchmark is the mid price of the last tick of the symbol at or before the decision.
pub record IsArrival (ticks : List Tick) (symbol : String) (d : ℕ) (b : Benchmark) (t : Tick)
    : Type 0 where
  pub stored : Any (λ u. u ≡ t) ticks
  pub of_symbol : t.symbol ≡ symbol
  pub known : t.ts ≤ d
  pub latest : All (IsNoLater symbol d t.ts) ticks
  pub priced : mid t ≡ ok b.price
  pub stamped : b.ts ≡ t.ts
  pub sourced : b.source ≡ arrival_mid

-- The benchmark is the mid price of the first tick of the symbol at or after the session's open.
pub record IsSessionOpen (ticks : List Tick) (symbol : String) (o : ℕ) (b : Benchmark) (t : Tick)
    : Type 0 where
  pub stored : Any (λ u. u ≡ t) ticks
  pub of_symbol : t.symbol ≡ symbol
  pub since_open : o ≤ t.ts
  pub earliest : All (IsNoEarlier symbol o t.ts) ticks
  pub priced : mid t ≡ ok b.price
  pub stamped : b.ts ≡ t.ts
  pub sourced : b.source ≡ session_open

priced_tick :
    (t : Tick) (source : Source) {b : Benchmark}
    → (do price ← mid t; ok (record { price = price; ts = t.ts; source = source })) ≡ ok b
    → (mid t ≡ ok b.price) × (b.ts ≡ t.ts) × (b.source ≡ source)
priced_tick t source h = ground arith

arrival_benchmark-IsArrival :
    (ticks : List Tick) (symbol : String) (d : ℕ) {b : Benchmark}
    → arrival_benchmark ticks symbol d ≡ ok b
    → (t : Tick) × IsArrival ticks symbol d b t
unfolding arrival_benchmark
arrival_benchmark-IsArrival ticks symbol d {b} h =
    elim (Option-cases (last_tick_until symbol d ticks)) [
      | inl e ↦ absurd (ground arith)
      | inr (t, e) ↦
          let (of_symbol, known, stored) = last_tick-known symbol d ticks e in
          let (priced, stamped, sourced) = priced_tick t arrival_mid (rw e at h) in
          (
            t,
            record {
              stored = stored;
              of_symbol = of_symbol;
              known = known;
              latest = last_tick-latest symbol d ticks e;
              priced = priced;
              stamped = stamped;
              sourced = sourced;
            },
          )
    ]

open-IsSessionOpen :
    (ticks : List Tick) (symbol : String) (d : ℕ) (cal : Option Calendar) {b : Benchmark}
    → session_open_benchmark ticks symbol d cal ≡ ok b
    → (o : ℕ) × (t : Tick) × (next_open cal symbol d ≡ some o) × IsSessionOpen ticks symbol o b t
unfolding session_open_benchmark
open-IsSessionOpen ticks symbol d cal {b} h = elim (Option-cases (next_open cal symbol d)) [
  | inl e ↦ absurd (ground arith)
  | inr (o, eo) ↦ elim (Option-cases (first_tick_from symbol o ticks)) [
    | inl e ↦ absurd (ground arith)
    | inr (t, e) ↦
        let (of_symbol, since, stored) = first_tick-known symbol o ticks e in
        let (priced, stamped, sourced) = priced_tick t session_open (rw (eo, e) at h) in
        (
          o,
          t,
          eo,
          record {
            stored = stored;
            of_symbol = of_symbol;
            since_open = since;
            earliest = first_tick-earliest symbol o ticks e;
            priced = priced;
            stamped = stamped;
            sourced = sourced;
          },
        )
  ]
]

-- A resolved benchmark is point-in-time. With the market open at the decision it is the mid of the
-- latest tick of the symbol known then, so no later price leaks in; with the market closed it is
-- the mid of the first tick from the next session's open on.
pub resolve_benchmark_sound :
    (ticks : List Tick) (symbol : String) (d : ℕ) (cal : Option Calendar) {b : Benchmark}
    → resolve_benchmark ticks symbol d cal ≡ ok b
    → ((calendar_closed cal symbol d ≡ false) × ((t : Tick) × IsArrival ticks symbol d b t))
      ⊎ ((calendar_closed cal symbol d ≡ true)
          × ((o : ℕ) × (t : Tick) × (next_open cal symbol d ≡ some o)
              × IsSessionOpen ticks symbol o b t))
unfolding resolve_benchmark
resolve_benchmark_sound ticks symbol d cal {b} h =
    elim (Bool-cases (calendar_closed cal symbol d)) [
      | inl e ↦ inr (e, open-IsSessionOpen ticks symbol d cal (rw e at h))
      | inr e ↦ inl (e, arrival_benchmark-IsArrival ticks symbol d (rw e at h))
    ]
