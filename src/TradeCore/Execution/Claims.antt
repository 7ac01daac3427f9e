-- ===== src/TradeCore/Execution/Claims.antt =====
-- The Redis claims: execution_router.py, the `SET NX EX` of `dispatch` and the `delete` after a rollback.
use lumine_hedge_fund.Prelude.{
  ltb, ℕ, ◌+◌, ◌<◌, ◌≡◌, ◌≢◌, refl, ◌⊎◌, true, false, List, [], ◌∷◌, String, eq_iff, arith,
}
use text.Mathlib.TextPositions.{eq_refl}
use lumine_hedge_fund.TradeCore.Execution.{Claim, is_claimed, released, claim, dedup_ttl}

pub is_claimed-claim :
    (o : String) (n now later : ℕ) (cs : List Claim)
    → later < now + dedup_ttl
    → is_claimed o n later (claim o n now cs) ≡ true
unfolding is_claimed claim
is_claimed-claim o n now later cs h = ground (arith, eq_refl o)

pub is_claimed-released :
    (o : String) (n now : ℕ) (cs : List Claim) → is_claimed o n now (released o n cs) ≡ false
unfolding is_claimed released
is_claimed-released o n now [] = refl
is_claimed-released o n now (c ∷ cs) = ground (arith, is_claimed-released o n now cs)

-- other keys are untouched
pub is_claimed-released_ne :
    (o p : String) (n m now : ℕ) (cs : List Claim)
    → (o ≢ p) ⊎ (n ≢ m)
    → is_claimed o n now (released p m cs) ≡ is_claimed o n now cs
unfolding is_claimed released
is_claimed-released_ne o p n m now [] h = refl
is_claimed-released_ne o p n m now (c ∷ cs) h =
    ground
      (arith, eq_iff c.order_id o, eq_iff c.order_id p, is_claimed-released_ne o p n m now cs h)

pub is_claimed-claim_eq :
    (o : String) (n now later : ℕ) (cs : List Claim)
    → is_claimed o n later (claim o n now cs) ≡ ltb later (now + dedup_ttl)
unfolding is_claimed claim
is_claimed-claim_eq o n now later cs = ground (arith, eq_refl o, is_claimed-released o n later cs)
