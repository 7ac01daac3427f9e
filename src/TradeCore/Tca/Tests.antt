-- ===== src/TradeCore/Tca/Tests.antt =====
-- The benchmark of tca.py on a small table of ticks.
use lumine_hedge_fund.Prelude.{
  ℕ, ◌+◌, ◌≡◌, ◌⊎◌, refl, true, false, none, some, List, [], ◌∷◌, leb, ◌*ℤ◌, ◌+ℤ◌,
}
use lumine_hedge_fund.Decimal.{of_int, of_digits, le, lt, quot, add}
use lumine_hedge_fund.TradeCore.Tca.{
  Tick, Benchmark, Calendar, arrival_mid, session_open, ok, raised, arrival_tick_missing,
  calendar_closed, next_open, resolve_benchmark, last_tick_until, mid, first_tick_from,
}
use lumine_hedge_fund.TradeCore.Tca.Benchmarks.{IsArrival, IsSessionOpen, resolve_benchmark_sound}

abbrev tick : ℕ → ℕ → Tick
tick ts bid = record { symbol = "XAUUSD"; ts = ts; bid = of_int bid; ask = of_int (2 + bid) }

abbrev ticks : List Tick
ticks = tick 10 2398 ∷ tick 20 2400 ∷ tick 30 2404 ∷ []

-- A market that opens at 25.
abbrev calendar : Calendar
calendar = record { is_closed = λ symbol ts. leb ts 24; next_session_open = λ symbol ts. some 25 }

abbrev at_arrival : Benchmark
at_arrival = record {
  price = of_digits 2401000000000000000000000000 24;
  ts = 20;
  source = arrival_mid;
}

abbrev at_open : Benchmark
at_open = record {
  price = of_digits 2405000000000000000000000000 24;
  ts = 30;
  source = session_open;
}

arrival_of_ticks : resolve_benchmark ticks "XAUUSD" 22 none ≡ ok at_arrival
unfolding resolve_benchmark calendar_closed last_tick_until mid le ◌*ℤ◌ lt quot add ◌+ℤ◌
arrival_of_ticks = refl

open_of_ticks : resolve_benchmark ticks "XAUUSD" 22 (some calendar) ≡ ok at_open
unfolding resolve_benchmark calendar_closed next_open first_tick_from mid le ◌*ℤ◌ lt quot add ◌+ℤ◌
open_of_ticks = refl

nothing_known : resolve_benchmark ticks "XAUUSD" 9 none ≡ raised arrival_tick_missing
unfolding resolve_benchmark calendar_closed last_tick_until
nothing_known = refl

resolve_benchmark_sound_example :
    ((calendar_closed (some calendar) "XAUUSD" 22 ≡ false)
      × ((t : Tick) × IsArrival ticks "XAUUSD" 22 at_open t))
    ⊎ ((calendar_closed (some calendar) "XAUUSD" 22 ≡ true)
        × ((o : ℕ) × (t : Tick) × (next_open (some calendar) "XAUUSD" 22 ≡ some o)
            × IsSessionOpen ticks "XAUUSD" o at_open t))
resolve_benchmark_sound_example =
    resolve_benchmark_sound ticks "XAUUSD" 22 (some calendar) open_of_ticks
