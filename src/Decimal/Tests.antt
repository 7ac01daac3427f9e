-- ===== src/Decimal/Tests.antt =====
-- Quotients and roundings as Python's decimal module gives them.
use lumine_hedge_fund.Prelude.{◌≡◌, refl, some, ◌*ℤ◌}
use lumine_hedge_fund.Decimal.{of_int, of_digits, quot, quantize_down}

two_thirds : quot (of_int 2) (of_int 3) ≡ of_digits 6666666666666666666666666667 28
unfolding quot ◌*ℤ◌
two_thirds = refl

ten_eighths : quot (of_int 1) (of_digits 8 1) ≡ of_digits 1250000000000000000000000000 27
unfolding quot ◌*ℤ◌
ten_eighths = refl

rounded_down : quantize_down (of_digits 12987 4) 2 ≡ some (of_digits 129 2)
unfolding quantize_down ◌*ℤ◌
rounded_down = refl
