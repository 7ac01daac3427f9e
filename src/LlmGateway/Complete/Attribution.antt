-- ===== src/LlmGateway/Complete/Attribution.antt =====
-- The route that a response is attributed to: gateway.py, `_used_route` and `_hops_used`.
use mathlib.Core.List.{append_assoc}
use lumine_hedge_fund.Prelude.{
  ℕ, zero, suc, ◌+◌, ◌≡◌, refl, inl, inr, Option, none, some, List, [], ◌∷◌, ◌++◌, String, str_eq,
  eq_iff, arith, Bool-cases, length, length-append,
}
use lumine_hedge_fund.LlmGateway.Fallback.{Route, GatewayResponse}
use lumine_hedge_fund.LlmGateway.Complete.{used_route, hops_used, matching, hop_index}

abbrev pub get_elem? : List Route → ℕ → Option Route
get_elem? [] i = none
get_elem? (r ∷ rs) zero = some r
get_elem? (r ∷ rs) (suc i) = get_elem? rs i

get_elem?-append :
    (xs : List Route) (r : Route) (ys : List Route) → get_elem? (xs ++ r ∷ ys) (length xs) ≡ some r
get_elem?-append [] r ys = refl
get_elem?-append (x ∷ xs) r ys = get_elem?-append xs r ys

hop_index-matching :
    (p : Route) (pre hops : List Route) (m : String)
    → get_elem? (p ∷ (pre ++ hops)) (hop_index (suc (length pre)) hops m) ≡ some (matching hops m p)
unfolding hop_index matching
hop_index-matching p pre [] m = refl
hop_index-matching p pre (h ∷ hops) m = elim (Bool-cases (str_eq h.model m)) [
  | inl e ↦ rw e (get_elem?-append pre h hops)
  | inr e ↦
      let shift : suc (length (pre ++ h ∷ [])) ≡ suc (length pre) + 1 =
        omega (arith, length-append pre (h ∷ [])) in
      let later = hop_index-matching p (pre ++ h ∷ []) hops m in
      rw e (cc (append_assoc pre (h ∷ []) hops, later, shift))
]

-- The hop count of a response is the place, in the primary route and the hops after it, of the
-- route that it is attributed to.
pub used_route-at_hops_used :
    (primary : Route) (hops : List Route) (response : GatewayResponse)
    → get_elem? (primary ∷ hops) (hops_used primary hops response)
      ≡ some (used_route primary hops response)
unfolding hops_used used_route
used_route-at_hops_used primary hops response =
    elim (Bool-cases (str_eq primary.model response.model_used)) [
      | inl e ↦ ground (
        arith,
        eq_iff primary.model response.model_used,
        eq_iff response.model_used primary.model,
      )
      | inr e ↦ ground (
        arith,
        eq_iff primary.model response.model_used,
        eq_iff response.model_used primary.model,
        hop_index-matching primary [] hops response.model_used,
      )
    ]
