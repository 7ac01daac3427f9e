-- ===== src/TradeCore/TcaQuality/Clusters.antt =====
-- Which strategies are paged: tca_quality.py, `detect_alerts`.
use Prim.Native.Nat.{Ordering}
use Prim.Native.String.{compare}
use mathlib.Core.List.{append_assoc, append-nil}
use lumine_hedge_fund.Prelude.{
  ℕ, ◌≡◌, refl, sym, ap, ◌∙◌, inl, inr, true, false, Option, none, some, List, [], ◌∷◌, ◌++◌,
  String, str_eq, eq_iff, ltb, arith, Bool-cases, if◌then◌else◌, Dict, lookup, insert,
  lookup-insert, length,
}
use lumine_hedge_fund.Decimal.{Decimal}
use lumine_hedge_fund.TradeCore.TcaQuality.{
  TcaObservation, SlippageBreach, SlippageCluster, breaches_of, or_none, by_strategy, is_after,
  place, sorted, cluster, clusters_of, detect_alerts,
}

-- The breaches of a strategy, in their order.
unfoldable pub of_strategy : String → List SlippageBreach → List SlippageBreach
of_strategy s [] = []
of_strategy s (b ∷ breaches) =
    let rest = of_strategy s breaches in
    if str_eq b.observation.strategy_id s then b ∷ rest else rest

by_strategy-lookup :
    (s : String) (bs : List SlippageBreach) (groups : Dict (List SlippageBreach))
    → or_none (lookup s (by_strategy bs groups)) ≡ or_none (lookup s groups) ++ of_strategy s bs
unfolding by_strategy of_strategy or_none
by_strategy-lookup s [] groups = sym (append-nil (or_none (lookup s groups)))
by_strategy-lookup s (b ∷ bs) groups =
    let k = b.observation.strategy_id in
    let v = or_none (lookup k groups) ++ b ∷ [] in
    by_strategy-lookup s bs (insert k v groups) ∙ (elim (Bool-cases (str_eq k s)) [
      | inl e ↦
          let same : k ≡ s = (eq_iff k s).0 e in
          rw (lookup-insert k s v groups, e)
            (append_assoc (or_none (lookup k groups)) (b ∷ []) (of_strategy s bs)
              ∙ ap (λ t. or_none (lookup t groups) ++ b ∷ of_strategy s bs) same)
      | inr e ↦ rw (lookup-insert k s v groups, e) refl
    ])

is_after-differs :
    (o : Ordering) (k j : String) → compare k j ≡ o → is_after o ≡ true → str_eq k j ≡ false
unfolding is_after
is_after-differs Ordering.gt k j e h = rw e refl
is_after-differs Ordering.lt k j e h = absurd cc
is_after-differs Ordering.eq k j e h = absurd cc

lookup-place :
    (s k : String) (v : List SlippageBreach) (groups : Dict (List SlippageBreach))
    → lookup s (place k v groups) ≡ (if str_eq k s then some v else lookup s groups)
unfolding lookup place
lookup-place s k v [] = refl
lookup-place s k v ((j, w) ∷ groups) = ground (
  arith,
  is_after-differs (compare k j) k j refl,
  lookup-place s k v groups,
  eq_iff k s,
  eq_iff j s,
  eq_iff k j,
)

lookup-sorted :
    (s : String) (groups : Dict (List SlippageBreach)) → lookup s (sorted groups) ≡ lookup s groups
unfolding lookup sorted
lookup-sorted s [] = refl
lookup-sorted s ((k, v) ∷ groups) =
    lookup-place s k v (sorted groups)
    ∙ ap (λ o. if str_eq k s then some v else o) (lookup-sorted s groups)

-- No key twice.
abbrev HasDistinctKeys : Dict (List SlippageBreach) → Type 0
HasDistinctKeys [] = Unit
HasDistinctKeys ((k, v) ∷ groups) = (lookup k groups ≡ none) × HasDistinctKeys groups

insert-HasDistinctKeys :
    (k : String) (v : List SlippageBreach) (groups : Dict (List SlippageBreach))
    → HasDistinctKeys groups
    → HasDistinctKeys (insert k v groups)
unfolding insert
insert-HasDistinctKeys k v [] h = (unfold lookup in refl, tt)
insert-HasDistinctKeys k v ((j, w) ∷ groups) h = elim (Bool-cases (str_eq j k)) [
  | inl e ↦ rw e (rw (sym ((eq_iff j k).0 e)) h.0, h.1)
  | inr e ↦ rw e (
    lookup-insert k j v groups ∙ ground (arith, h.0, e, eq_iff j k, eq_iff k j),
    insert-HasDistinctKeys k v groups h.1,
  )
]

by_strategy-HasDistinctKeys :
    (bs : List SlippageBreach) (groups : Dict (List SlippageBreach))
    → HasDistinctKeys groups
    → HasDistinctKeys (by_strategy bs groups)
unfolding by_strategy
by_strategy-HasDistinctKeys [] groups h = h
by_strategy-HasDistinctKeys (b ∷ bs) groups h =
    let k = b.observation.strategy_id in
    let v = or_none (lookup k groups) ++ b ∷ [] in
    by_strategy-HasDistinctKeys bs (insert k v groups) (insert-HasDistinctKeys k v groups h)

place-HasDistinctKeys :
    (k : String) (v : List SlippageBreach) (groups : Dict (List SlippageBreach))
    → lookup k groups ≡ none
    → HasDistinctKeys groups
    → HasDistinctKeys (place k v groups)
unfolding place
place-HasDistinctKeys k v [] n h = (n, tt)
place-HasDistinctKeys k v ((j, w) ∷ groups) n h = elim (Bool-cases (is_after (compare k j))) [
  | inl e ↦
      let differs = is_after-differs (compare k j) k j refl e in
      let n' : lookup k groups ≡ none =
        unfold lookup in ground (arith, n, eq_iff j k, eq_iff k j, differs) in
      rw e (
        lookup-place j k v groups ∙ ground (arith, h.0, differs),
        place-HasDistinctKeys k v groups n' h.1,
      )
  | inr e ↦ rw e (n, h)
]

sorted-HasDistinctKeys :
    (groups : Dict (List SlippageBreach)) → HasDistinctKeys groups → HasDistinctKeys (sorted groups)
unfolding sorted
sorted-HasDistinctKeys [] h = tt
sorted-HasDistinctKeys ((k, v) ∷ groups) h =
    place-HasDistinctKeys k v (sorted groups) (lookup-sorted k groups ∙ h.0)
      (sorted-HasDistinctKeys groups h.1)

-- The page of a strategy among the alerts.
unfoldable pub page_of : String → List SlippageCluster → Option SlippageCluster
page_of s [] = none
page_of s (c ∷ clusters) = if str_eq c.strategy_id s then some c else page_of s clusters

-- The page that a strategy with these breaches should get.
unfoldable pub page_for : ℕ → String → List SlippageBreach → Option SlippageCluster
page_for limit s breaches =
    if ltb limit (length breaches) then some (cluster limit s breaches) else none

page_for-nil : (limit : ℕ) (s : String) → page_for limit s [] ≡ none
unfolding page_for
page_for-nil limit s = ground arith

page_of-clusters_of :
    (s : String) (limit : ℕ) (groups : Dict (List SlippageBreach))
    → HasDistinctKeys groups
    → page_of s (clusters_of limit groups) ≡ page_for limit s (or_none (lookup s groups))
unfolding page_of page_for clusters_of lookup or_none cluster
page_of-clusters_of s limit [] h = sym (page_for-nil limit s)
page_of-clusters_of s limit ((k, v) ∷ groups) h = elim (Bool-cases (str_eq k s)) [
  | inl e ↦
      let same : k ≡ s = (eq_iff k s).0 e in
      let gone : lookup s groups ≡ none = rw same at h.0 in
      let later : page_of s (clusters_of limit groups) ≡ none =
        page_of-clusters_of s limit groups h.1
        ∙ ap (λ o. page_for limit s (or_none o)) gone
        ∙ page_for-nil limit s in
      rw e (elim (Bool-cases (ltb limit (length v))) [
        | inl big ↦ rw (big, e) (ap (λ t. some (cluster limit t v)) same)
        | inr small ↦ rw small later
      ])
  | inr e ↦
      let later = page_of-clusters_of s limit groups h.1 in
      rw e (elim (Bool-cases (ltb limit (length v))) [
        | inl big ↦ rw (big, e) later
        | inr small ↦ rw small later
      ])
]

-- A strategy is paged exactly if it has more breaches than the limit, and its page then has their
-- number and the fills of all of them, in the order of the observations.
pub detect_alerts-page_of :
    (policy : Dict Decimal) (limit : ℕ) (observations : List TcaObservation) (s : String)
    → let (breaches, clusters) = detect_alerts policy limit observations in
      page_of s clusters ≡ page_for limit s (of_strategy s breaches)
unfolding detect_alerts
detect_alerts-page_of policy limit observations s =
    let breaches = breaches_of policy observations in
    let groups = by_strategy breaches [] in
    page_of-clusters_of s limit (sorted groups)
      (sorted-HasDistinctKeys groups (by_strategy-HasDistinctKeys breaches [] tt))
    ∙ ap (λ o. page_for limit s (or_none o)) (lookup-sorted s groups)
    ∙ ap (page_for limit s) (unfold lookup or_none in by_strategy-lookup s breaches [])
