-- ===== src/Api/Deque/Laws.antt =====
-- Laws of bounded deques.
use lumine_hedge_fund.Prelude.{
  ℕ, zero, suc, ◌-◌, ◌≤◌, ◌≡◌, inl, inr, refl, ap, true, List, [], ◌∷◌, ◌++◌, arith, leb,
  if◌then◌else◌, length, length-append, drop, Bool-cases,
}
use lumine_hedge_fund.Api.Deque.{last, append}

module _ {ℓ} {A : Type ℓ} where
  pub length-drop : (n : ℕ) (xs : List A) → length (drop n xs) ≡ length xs - n
  length-drop zero xs = omega arith
  length-drop (suc n) [] = omega arith
  length-drop (suc n) (x ∷ xs) = omega (arith, length-drop n xs)

  pub length-last : (n : ℕ) (xs : List A) → length (last n xs) ≤ n
  unfolding last
  length-last n xs = omega (arith, length-drop (length xs - n) xs)

  pub length-append_bounded : (n : ℕ) (xs : List A) (x : A) → length (append n xs x) ≤ n
  unfolding append
  length-append_bounded n xs x = length-last n (xs ++ x ∷ [])

  pub last-cons :
      (n : ℕ) (x : A) (xs : List A)
      → last n (x ∷ xs) ≡ (if leb n (length xs) then last n xs else x ∷ xs)
  unfolding last
  last-cons n x xs = elim (Bool-cases (leb n (length xs))) [
    | inl e ↦ let k : suc (length xs) - n ≡ suc (length xs - n) = ground arith in rw (e, k) refl
    | inr e ↦ let k : suc (length xs) - n ≡ 0 = ground arith in rw (e, k) refl
  ]

  pub last-short : (n : ℕ) (xs : List A) → length xs ≤ n → last n xs ≡ xs
  unfolding last
  last-short n xs h = let k : length xs - n ≡ 0 = omega arith in rw k refl

  -- What a bounded list has lost does not matter once more is appended.
  pub last-last : (n : ℕ) (xs ys : List A) → last n (last n xs ++ ys) ≡ last n (xs ++ ys)
  last-last n [] ys = ap (λ (zs : List A). last n (zs ++ ys)) (last-short n [] (omega arith))
  last-last n (x ∷ xs) ys = elim (Bool-cases (leb n (length xs))) [
    | inl e ↦
        let longer : leb n (length (xs ++ ys)) ≡ true = ground (arith, length-append xs ys) in
        rw (last-cons n x xs, e, last-cons n x (xs ++ ys), longer) (last-last n xs ys)
    | inr e ↦ rw (last-cons n x xs, e) refl
  ]
