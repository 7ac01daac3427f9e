-- ===== src/Api/Streams/Market.antt =====
-- The market calendar of backend/src/lumine/api/routers/streams.py, `_market_status`. A time is the
-- number of microseconds since the start of the Monday 0001-01-01, which is what `weekday`, `hour`,
-- `replace` and `timedelta` are on UTC datetimes. `next_open` is kept as a time, not as its text.
pub mod Calendar
use lumine_hedge_fund.Prelude.{
  ℕ, ◌+◌, ◌-◌, ◌*◌, ◌/◌, ◌%◌, ◌≤◌, ◌<◌, ◌≡◌, refl, inl, inr, ◌⊎◌, Bool, true, false, ◌&&◌, ◌||◌,
  Option, none, some, arith, ltb, leb, ◌==◌, if◌then◌else◌,
}

abbrev pub hour_us : ℕ
hour_us = 3600000000

abbrev pub day_us : ℕ
day_us = 86400000000

abbrev pub weekend_close_wday : ℕ
weekend_close_wday = 5

abbrev pub weekend_reopen_hour : ℕ
weekend_reopen_hour = 21

pub record MarketStatus : Type 0 where
  pub is_open : Bool
  pub next_open : Option ℕ

-- `now.weekday()`, 0 for Monday
abbrev pub weekday : ℕ → ℕ
weekday now = now / day_us % 7

abbrev pub hour : ℕ → ℕ
hour now = now % day_us / hour_us

-- `now.replace(hour=21, minute=0, second=0, microsecond=0)`
abbrev pub at_reopen_hour : ℕ → ℕ
at_reopen_hour now = now / day_us * day_us + weekend_reopen_hour * hour_us

unfoldable pub days_until : ℕ → ℕ
days_until wday = let days = (7 - wday) % 7 in if days == 0 then 7 else days

unfoldable pub market_status : ℕ → MarketStatus
unfolding days_until
market_status now =
    if leb weekend_close_wday (weekday now)
      || (weekday now == 0 && ltb (hour now) weekend_reopen_hour)
    then record {
      is_open = false;
      next_open = some (at_reopen_hour now + days_until (weekday now) * day_us);
    }
    else record { is_open = true; next_open = none }
