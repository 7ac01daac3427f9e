-- ===== src/Decimal/Order.antt =====
-- The order of decimals by cross multiplication.
use lumine_hedge_fund.Prelude.{◌≡◌, true, false, arith}
use lumine_hedge_fund.Decimal.{Decimal, lt, le}

pub le_refl : (a : Decimal) → le a a ≡ true
unfolding le
le_refl a = ground arith

pub le-of_not_lt : (a b : Decimal) → lt a b ≡ false → le b a ≡ true
unfolding lt le
le-of_not_lt a b h = ground arith

pub le-of_lt : (a b : Decimal) → lt a b ≡ true → le a b ≡ true
unfolding lt le
le-of_lt a b h = ground arith

pub lt-of_not_le : (a b : Decimal) → le a b ≡ false → lt b a ≡ true
unfolding lt le
lt-of_not_le a b h = ground arith
