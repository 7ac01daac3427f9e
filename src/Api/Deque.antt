-- ===== src/Api/Deque.antt =====
-- Python's `deque(maxlen=n)` as a list, oldest element first.
pub mod Laws
use lumine_hedge_fund.Prelude.{ℕ, ◌-◌, List, [], ◌∷◌, ◌++◌, length, drop}

module _ {ℓ} {A : Type ℓ} where
  -- The last `n` elements, in their order.
  unfoldable pub last : ℕ → List A → List A
  last n xs = drop (length xs - n) xs

  -- `append`: a full deque loses its first element.
  unfoldable pub append : ℕ → List A → A → List A
  unfolding last
  append maxlen xs x = last maxlen (xs ++ x ∷ [])
