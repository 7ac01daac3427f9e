-- ===== src/Api/Streams/Market/Calendar.antt =====
-- When the announced reopening is right: streams.py, `_market_status`.
use lumine_hedge_fund.Prelude.{
  ℕ, ◌+◌, ◌-◌, ◌*◌, ◌/◌, ◌%◌, ◌≤◌, ◌<◌, ◌≡◌, refl, inl, inr, ◌⊎◌, true, false, some, arith, ltb,
  leb, Bool-cases, ltb→lt, sym,
}
use mathlib.Core.Path.{subst}
use lumine_hedge_fund.Api.Streams.Market.{
  market_status, days_until, weekday, hour, at_reopen_hour, day_us, hour_us,
}

abbrev pub IsOpen : ℕ → Type 0
IsOpen t = (market_status t).is_open ≡ true

abbrev pub IsClosed : ℕ → Type 0
IsClosed t = (market_status t).is_open ≡ false

closed_weekend : (t : ℕ) → 5 ≤ weekday t → IsClosed t
unfolding market_status
closed_weekend t h = ground arith

closed_monday : (t : ℕ) → weekday t ≡ 0 → hour t < 21 → IsClosed t
unfolding market_status
closed_monday t h k = ground arith

IsOpen-monday : (t : ℕ) → weekday t ≡ 0 → 21 ≤ hour t → IsOpen t
unfolding market_status
IsOpen-monday t h k = ground arith

closed_cases : (t : ℕ) → IsClosed t → (5 ≤ weekday t) ⊎ ((weekday t ≡ 0) × (hour t < 21))
unfolding market_status
closed_cases t h = elim (Bool-cases (leb 5 (weekday t))) [
  | inl e ↦ inl (ground arith)
  | inr e ↦ inr (ground arith, ground arith)
]

next_open-eq :
    (t n : ℕ)
    → (market_status t).next_open ≡ some n
    → n ≡ at_reopen_hour t + days_until (weekday t) * day_us
unfolding market_status
next_open-eq t n h = ground arith

days_until_weekend : (w : ℕ) → 5 ≤ w → w < 7 → days_until w ≡ 7 - w
unfolding days_until
days_until_weekend w h k = ground arith

-- A time by its day and the time of that day.
day_of : (d r : ℕ) → r < day_us → (d * day_us + r) / day_us ≡ d
day_of d r h = omega arith

monday_reopening : (d : ℕ) → d % 7 ≡ 0 → IsOpen (d * day_us + 21 * hour_us)
monday_reopening d h =
    let e : (d * day_us + 21 * hour_us) / day_us ≡ d = omega arith in
    IsOpen-monday (d * day_us + 21 * hour_us) (rw e h) (omega arith)

weekend_until :
    (t u d : ℕ)
    → 5 ≤ weekday t
    → d ≡ t / day_us + (7 - weekday t)
    → t ≤ u
    → u < d * day_us + 21 * hour_us
    → IsClosed u
weekend_until t u d w e h k = elim (Bool-cases (ltb (u / day_us) d)) [
  | inl before ↦
      let c = ltb→lt (u / day_us) d before in
      let q : t / day_us ≤ u / day_us = omega arith in closed_weekend u (omega arith)
  | inr monday ↦
      let q : u / day_us ≡ d = ground arith in closed_monday u (omega arith) (omega arith)
]

-- Closed at a time and reopening announced for `n`. On a Saturday or Sunday the announcement is right:
-- `n` lies ahead, the market is open at `n` and closed until then. On a Monday before 21:00 it is a
-- week late: the market is already open a week before `n`, at a time that lies ahead.
pub market_status-next_open :
    (t n : ℕ)
    → IsClosed t
    → (market_status t).next_open ≡ some n
    → ((5 ≤ weekday t) × (t < n) × IsOpen n × ((u : ℕ) → t ≤ u → u < n → IsClosed u))
      ⊎ ((weekday t ≡ 0) × (m : ℕ) × (n ≡ m + 7 * day_us) × (t < m) × IsOpen m)
market_status-next_open t n closed announced =
    let e = next_open-eq t n announced in
    elim (closed_cases t closed) [
      | inl w ↦
          let days = days_until_weekend (weekday t) w (omega arith) in
          let d = t / day_us + (7 - weekday t) in
          let at : n ≡ d * day_us + 21 * hour_us = omega (arith, days) in
          inl (
            w,
            omega arith,
            subst IsOpen (sym at) (monday_reopening d (omega arith)),
            λ u h k. weekend_until t u d w refl h (omega arith),
          )
      | inr (monday, early) ↦
          let days : days_until (weekday t) ≡ 7 = rw monday (unfold days_until in refl) in
          inr (
            monday,
            at_reopen_hour t,
            omega (arith, days),
            omega arith,
            monday_reopening (t / day_us) monday,
          )
    ]
