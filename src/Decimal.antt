-- ===== src/Decimal.antt =====
-- Python's `decimal.Decimal` as the program uses it: finite values, under the default context of
-- 28 significant digits with ROUND_HALF_EVEN. A value is coefficient / 10 ^ scale; two
-- representations of one value are interchangeable here, as they are to Python's comparisons.
-- Infinities, NaN and the limits on the exponent are not modelled.
pub mod Order
mod Tests
pub mod Quantize
use lumine_hedge_fund.Prelude.{
  ℕ, zero, suc, ◌+◌, ◌-◌, ◌*◌, ◌/◌, ◌%◌, ◌^◌, Bool, true, false, not, ◌&&◌, ◌||◌, Option, none,
  some, List, [], ◌∷◌, ltb, leb, ◌==◌, if◌then◌else◌, ℤ, pos, negsuc, pos_part, neg_part, sub_ℕ,
  abs, ◌+ℤ◌, ◌-ℤ◌, ◌*ℤ◌, ltb_ℤ, leb_ℤ,
}

pub record Decimal : Type 0 where
  pub coefficient : ℤ
  pub scale : ℕ

-- `Decimal(n)`, and `Decimal("…")` with `k` digits behind the point.
abbrev pub of_int : ℕ → Decimal
of_int n = record { coefficient = pos n; scale = 0 }

abbrev pub of_digits : ℕ → ℕ → Decimal
of_digits n k = record { coefficient = pos n; scale = k }

-- The coefficient of `a` when `a` is written with `k` more digits.
abbrev pub lifted : Decimal → ℕ → ℤ
lifted a k = a.coefficient *ℤ pos (10 ^ k)

-- Comparisons are exact.
unfoldable pub lt : Decimal → Decimal → Bool
lt a b = ltb_ℤ (lifted a b.scale) (lifted b a.scale)

unfoldable pub le : Decimal → Decimal → Bool
le a b = leb_ℤ (lifted a b.scale) (lifted b a.scale)

unfoldable pub is_zero : Decimal → Bool
is_zero a = abs a.coefficient == 0

-- `precision` significant digits.
abbrev pub precision : ℕ
precision = 28

-- The number of decimal digits; as much fuel as the number itself is more than enough.
digits_within : ℕ → ℕ → ℕ
digits_within zero n = 1
digits_within (suc fuel) n = elim (ltb n 10) [
  | true ↦ 1
  | false ↦ suc (digits_within fuel (n / 10))
]

digits : ℕ → ℕ
unfolding digits_within
digits n = digits_within n n

-- n / 10 ^ k to the nearest, a tie to the even neighbour.
half_even : ℕ → ℕ → ℕ
half_even n k =
    let q = n / 10 ^ k in
    let twice = 2 * (n % 10 ^ k) in
    if ltb twice (10 ^ k)
    then q
    else if ltb (10 ^ k) twice
    then q + 1
    else if q % 2 == 0
    then q
    else q + 1

-- n / 10 ^ k to the nearest, a tie away from zero: ROUND_HALF_UP.
unfoldable pub half_up : ℕ → ℕ → ℕ
half_up n k = if ltb (2 * (n % 10 ^ k)) (10 ^ k) then n / 10 ^ k else n / 10 ^ k + 1

-- The integer of the sign of `c` and the magnitude `n`.
unfoldable pub with_sign : ℤ → ℕ → ℤ
with_sign (pos c) n = pos n
with_sign (negsuc c) n = sub_ℕ 0 n

-- `c` times 10 ^ k, over 10 ^ scale.
unfoldable pub shifted : ℤ → ℕ → ℕ → Decimal
shifted c k scale =
    if leb k scale
    then record { coefficient = c; scale = scale - k }
    else record { coefficient = c *ℤ pos (10 ^ (k - scale)); scale = 0 }

round_off : Decimal → ℕ → Decimal
unfolding half_even with_sign shifted
round_off a k = shifted (with_sign a.coefficient (half_even (abs a.coefficient) k)) k a.scale

-- The context's rounding of an exact result.
unfoldable pub fix : Decimal → Decimal
unfolding digits round_off
fix a =
    if ltb (abs a.coefficient) (10 ^ precision)
    then a
    else round_off a (digits (abs a.coefficient) - precision)

abbrev pub add_exact : Decimal → Decimal → Decimal
add_exact a b = record {
  coefficient = lifted a b.scale +ℤ lifted b a.scale;
  scale = a.scale + b.scale;
}

abbrev pub sub_exact : Decimal → Decimal → Decimal
sub_exact a b = record {
  coefficient = lifted a b.scale -ℤ lifted b a.scale;
  scale = a.scale + b.scale;
}

abbrev pub mul_exact : Decimal → Decimal → Decimal
mul_exact a b = record { coefficient = a.coefficient *ℤ b.coefficient; scale = a.scale + b.scale }

unfoldable pub add : Decimal → Decimal → Decimal
unfolding fix
add a b = fix (add_exact a b)

unfoldable pub sub : Decimal → Decimal → Decimal
unfolding fix
sub a b = fix (sub_exact a b)

unfoldable pub mul : Decimal → Decimal → Decimal
unfolding fix
mul a b = fix (mul_exact a b)

-- `-a` and `abs(a)`.
unfoldable pub neg : Decimal → Decimal
unfolding fix
neg a = fix (record a { coefficient = pos 0 -ℤ a.coefficient })

unfoldable pub magnitude : Decimal → Decimal
unfolding fix
magnitude a = fix (record a { coefficient = pos (abs a.coefficient) })

-- `max(a, b)` and `min(a, b)` keep the first of two equal values.
unfoldable pub larger : Decimal → Decimal → Decimal
unfolding lt
larger a b = if lt a b then b else a

-- A quotient digit is forced off a tie when a remainder was dropped, so that the context's rounding
-- of it is that of the exact quotient (the library divides this way).
sticky : ℕ → ℕ → ℕ
sticky q r = if r == 0 then q else if q % 5 == 0 then q + 1 else q

-- The quotient n / d of magnitudes, cut to at least `precision` + 1 digits. Its scale is `up`.
up : ℕ → ℕ → ℕ
unfolding digits
up n d = digits d + precision + 1 - digits n

down : ℕ → ℕ → ℕ
unfolding digits
down n d = digits n - (digits d + precision + 1)

cut_quotient : ℕ → ℕ → ℕ
unfolding up down sticky
cut_quotient n d =
    let num = n * 10 ^ up n d in
    let den = d * 10 ^ down n d in sticky (num / den) (num % den) * 10 ^ down n d

quotient : ℤ → ℕ → ℕ → Decimal
unfolding cut_quotient with_sign
quotient sign n d = record { coefficient = with_sign sign (cut_quotient n d); scale = up n d }

-- `a / b` where `b` is not zero.
unfoldable pub quot : Decimal → Decimal → Decimal
unfolding quotient fix
quot a b = fix (
    quotient (a.coefficient *ℤ b.coefficient) (abs a.coefficient * 10 ^ b.scale)
      (abs b.coefficient * 10 ^ a.scale))

-- `a / b`. Division by zero raises.
unfoldable pub div : Decimal → Decimal → Option Decimal
unfolding quot is_zero
div a b = if is_zero b then none else some (quot a b)

-- `a.quantize(10 ^ -k)` under ROUND_DOWN and under ROUND_HALF_UP; a coefficient of more than
-- `precision` digits raises InvalidOperation.
unfoldable pub truncated : Decimal → ℕ → Decimal
unfolding with_sign
truncated a k =
    if leb a.scale k then record { coefficient = lifted a (k - a.scale); scale = k } else record {
      coefficient = with_sign a.coefficient (abs a.coefficient / 10 ^ (a.scale - k));
      scale = k;
    }

unfoldable pub rounded_half_up : Decimal → ℕ → Decimal
unfolding with_sign half_up
rounded_half_up a k =
    if leb a.scale k then record { coefficient = lifted a (k - a.scale); scale = k } else record {
      coefficient = with_sign a.coefficient (half_up (abs a.coefficient) (a.scale - k));
      scale = k;
    }

unfoldable pub checked : Decimal → Option Decimal
checked a = if ltb (abs a.coefficient) (10 ^ precision) then some a else none

unfoldable pub quantize_down : Decimal → ℕ → Option Decimal
unfolding truncated checked
quantize_down a k = checked (truncated a k)

unfoldable pub quantize_half_up : Decimal → ℕ → Option Decimal
unfolding rounded_half_up checked
quantize_half_up a k = checked (rounded_half_up a k)

-- `a.quantize(10 ^ -k)` under the context's own rounding.
unfoldable pub rounded_half_even : Decimal → ℕ → Decimal
unfolding with_sign half_even
rounded_half_even a k =
    if leb a.scale k then record { coefficient = lifted a (k - a.scale); scale = k } else record {
      coefficient = with_sign a.coefficient (half_even (abs a.coefficient) (a.scale - k));
      scale = k;
    }

unfoldable pub quantize_half_even : Decimal → ℕ → Option Decimal
unfolding rounded_half_even checked
quantize_half_even a k = checked (rounded_half_even a k)

-- `sum(xs, Decimal(0))`, from the left.
sum_from : Decimal → List Decimal → Decimal
sum_from acc [] = acc
sum_from acc (x ∷ xs) = sum_from (add acc x) xs

unfoldable pub sum : List Decimal → Decimal
unfolding sum_from add
sum = sum_from (of_int 0)
