-- ===== src/Decimal/Quantize.antt =====
-- `quantize` under ROUND_DOWN, on values that are not negative.
use native.Mathlib.Nat.{div-add-mod, mod-lt, pow-suc, pow-zero}
use native.Mathlib.Decide.{dec_le}
use lumine_hedge_fund.Prelude.{
  ℕ, zero, suc, ◌+◌, ◌-◌, ◌*◌, ◌/◌, ◌%◌, ◌^◌, ◌≤◌, ◌<◌, ◌≡◌, refl, ◌∙◌, true, false, some, arith,
  le→leb, abs, ltb, negsuc, ℤ, pos, ◌*ℤ◌, leb, Bool-cases, inl, inr, ap, ◌+ℤ◌,
}
use lumine_hedge_fund.Decimal.{
  Decimal, cut_quotient, mul, of_int, shifted, precision, quotient, lt, le, truncated, checked,
  quantize_down, fix, quot,
}

pub pow-add : (b m n : ℕ) → b ^ (m + n) ≡ b ^ m * b ^ n
pow-add b zero n =
    let e : zero + n ≡ n = omega arith in
    rw e (omega (arith, ap (λ (t : ℕ). t * b ^ n) (pow-zero b)))
pow-add b (suc m) n =
    let e : suc m + n ≡ suc (m + n) = omega arith in
    rw (e, pow-suc b (m + n), pow-suc b m, pow-add b m n) (omega arith)

pub pow-pos : (k : ℕ) → 0 < 10 ^ k
pow-pos zero = omega arith
pow-pos (suc k) = rw (pow-suc 10 k) (omega (arith, pow-pos k))

pub *ℤ-pos : (m n : ℕ) → pos m *ℤ pos n ≡ pos (m * n)
unfolding ◌*ℤ◌
*ℤ-pos m n = ground arith

mul-le_right : (x y q : ℕ) → x ≤ y → x * q ≤ y * q
mul-le_right x y q h = grind arith

div_mul-le : (n p q : ℕ) → n / p * (p * q) ≤ n * q
div_mul-le n p q = omega (arith, ap (λ (t : ℕ). t * q) (div-add-mod n p))

lt-div_mul : (n p q : ℕ) → 0 < p → 0 < q → n * q < (n / p + 1) * (p * q)
lt-div_mul n p q h k = omega (
  arith,
  ap (λ (t : ℕ). t * q) (div-add-mod n p),
  mul-le_right (n % p + 1) p q (omega (arith, mod-lt n h)),
)

-- The next representable value above `a` at its scale.
abbrev pub step_up : Decimal → Decimal
step_up a = record a { coefficient = a.coefficient +ℤ pos 1 }

-- Comparisons of values that are not negative.
abbrev pub nonneg : ℕ → ℕ → Decimal
nonneg n s = record { coefficient = pos n; scale = s }

pub le-nonneg : (m s n t : ℕ) → m * 10 ^ t ≤ n * 10 ^ s → le (nonneg m s) (nonneg n t) ≡ true
unfolding le
le-nonneg m s n t h = rw (*ℤ-pos m (10 ^ t), *ℤ-pos n (10 ^ s)) (ground arith)

pub lt-nonneg : (m s n t : ℕ) → m * 10 ^ t < n * 10 ^ s → lt (nonneg m s) (nonneg n t) ≡ true
unfolding lt
lt-nonneg m s n t h = rw (*ℤ-pos m (10 ^ t), *ℤ-pos n (10 ^ s)) (ground arith)

step_up-nonneg : (n s : ℕ) → step_up (nonneg n s) ≡ nonneg (n + 1) s
unfolding ◌+ℤ◌
step_up-nonneg n s = ground arith

-- The two branches of `truncated`: digits are added, or dropped.
truncated-short : (n s k : ℕ) → s ≤ k → truncated (nonneg n s) k ≡ nonneg (n * 10 ^ (k - s)) k
unfolding truncated
truncated-short n s k h = rw (le→leb s k h, *ℤ-pos n (10 ^ (k - s)))

truncated-long : (n s k : ℕ) → k < s → truncated (nonneg n s) k ≡ nonneg (n / 10 ^ (s - k)) k
unfolding truncated
truncated-long n s k h = ground arith

pow_split : (s k : ℕ) → k ≤ s → 10 ^ s ≡ 10 ^ (s - k) * 10 ^ k
pow_split s k h =
    let e : s ≡ s - k + k = omega arith in ap (λ (t : ℕ). 10 ^ t) e ∙ pow-add 10 (s - k) k

-- Truncation of a value that is not negative goes down, by less than one step.
pub truncated_bounds :
    (n s k : ℕ)
    → let a = nonneg n s in (le (truncated a k) a ≡ true) × (lt a (step_up (truncated a k)) ≡ true)
truncated_bounds n s k = elim (dec_le s k) [
  | yes short ↦
      rw (truncated-short n s k short, step_up-nonneg)
        (
          le-nonneg (n * 10 ^ (k - s)) k n s
              (omega (arith, ap (λ (t : ℕ). n * t) (pow_split k s short))),
          lt-nonneg n s (n * 10 ^ (k - s) + 1) k
              (omega (arith, ap (λ (t : ℕ). n * t) (pow_split k s short), pow-pos s)),
        )
  | no long ↦
      rw (truncated-long n s k (omega arith), step_up-nonneg)
        (
          le-nonneg (n / 10 ^ (s - k)) k n s (
              omega (
                arith,
                ap (λ (t : ℕ). n / 10 ^ (s - k) * t) (pow_split s k (omega arith)),
                div_mul-le n (10 ^ (s - k)) (10 ^ k),
              )),
          lt-nonneg n s (n / 10 ^ (s - k) + 1) k (
              omega (
                arith,
                ap (λ (t : ℕ). (n / 10 ^ (s - k) + 1) * t) (pow_split s k (omega arith)),
                lt-div_mul n (10 ^ (s - k)) (10 ^ k) (pow-pos (s - k)) (pow-pos k),
              )),
        )
]

-- The values that are not negative, by their coefficient.
abbrev pub IsNonneg : Decimal → Type 0
IsNonneg a = (n : ℕ) × (a.coefficient ≡ pos n)

shifted-IsNonneg : (n k s : ℕ) → IsNonneg (shifted (pos n) k s)
unfolding shifted
shifted-IsNonneg n k s = elim (Bool-cases (leb k s)) [
  | inl h ↦ rw h (n, refl)
  | inr h ↦ rw h (n * 10 ^ (k - s), *ℤ-pos n (10 ^ (k - s)))
]

fix-IsNonneg : (n s : ℕ) → IsNonneg (fix (nonneg n s))
unfolding fix
fix-IsNonneg n s = elim (Bool-cases (ltb (abs (pos n)) (10 ^ precision))) [
  | inl h ↦ rw h (n, refl)
  | inr h ↦ rw h (shifted-IsNonneg _ _ s)
]

pub nonneg-eta : (a : Decimal) (h : IsNonneg a) → a ≡ nonneg h.0 a.scale
nonneg-eta a (n, e) = λ i. record { coefficient = e i; scale = a.scale }

quotient-IsNonneg : (p n d : ℕ) → IsNonneg (quotient (pos p) n d)
unfolding quotient
quotient-IsNonneg p n d = (cut_quotient n d, refl)

fix-IsNonneg_of : (a : Decimal) → IsNonneg a → IsNonneg (fix a)
fix-IsNonneg_of a p = rw (nonneg-eta a p) (fix-IsNonneg p.0 a.scale)

quot-eq-fix :
    (a b : Decimal)
    → quot a b
      ≡ fix (
          quotient
            (a.coefficient *ℤ b.coefficient)
            (abs a.coefficient * 10 ^ b.scale)
            (abs b.coefficient * 10 ^ a.scale))
unfolding quot
quot-eq-fix a b = refl

quot-nonneg : (m s n t : ℕ) → IsNonneg (quot (nonneg m s) (nonneg n t))
quot-nonneg m s n t =
    let x = (m + 0) * 10 ^ t in
    let y = (n + 0) * 10 ^ s in
    rw (quot-eq-fix, *ℤ-pos m n)
      (fix-IsNonneg_of (quotient (pos (m * n)) x y) (quotient-IsNonneg (m * n) x y))

-- A quotient of values that are not negative is not negative, and so is a product.
pub quot-IsNonneg : (a b : Decimal) → IsNonneg a → IsNonneg b → IsNonneg (quot a b)
quot-IsNonneg a b p q = rw (nonneg-eta a p, nonneg-eta b q) (quot-nonneg p.0 a.scale q.0 b.scale)

mul-nonneg : (m s n t : ℕ) → IsNonneg (mul (nonneg m s) (nonneg n t))
unfolding mul
mul-nonneg m s n t = rw (*ℤ-pos m n) (fix-IsNonneg (m * n) (s + t))

pub mul-IsNonneg : (a b : Decimal) → IsNonneg a → IsNonneg b → IsNonneg (mul a b)
mul-IsNonneg a b p q = rw (nonneg-eta a p, nonneg-eta b q) (mul-nonneg p.0 a.scale q.0 b.scale)

positive-IsNonneg :
    (c : ℤ) (s : ℕ)
    → le (record { coefficient = c; scale = s }) (of_int 0) ≡ false
    → IsNonneg (record { coefficient = c; scale = s })
unfolding le ◌*ℤ◌
positive-IsNonneg (pos n) s h = (n, refl)
positive-IsNonneg (negsuc n) s h = absurd (ground arith)

pub IsNonneg-of_pos : (a : Decimal) → le a (of_int 0) ≡ false → IsNonneg a
IsNonneg-of_pos a h = positive-IsNonneg a.coefficient a.scale h

checked-eq : (d : Decimal) {v : Decimal} → checked d ≡ some v → d ≡ v
unfolding checked
checked-eq d h = ground arith

-- What `quantize_down` returns: at most the value, and within one step of it.
pub quantize_down_bounds :
    (a : Decimal) (k : ℕ) {v : Decimal}
    → IsNonneg a
    → quantize_down a k ≡ some v
    → (le v a ≡ true) × (lt a (step_up v) ≡ true)
unfolding quantize_down
quantize_down_bounds a k {v} p h =
    let e : truncated a k ≡ v = checked-eq (truncated a k) h in
    rw (← e, nonneg-eta a p) (truncated_bounds p.0 a.scale k)
