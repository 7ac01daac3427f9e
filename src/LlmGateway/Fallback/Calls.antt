-- ===== src/LlmGateway/Fallback/Calls.antt =====
-- The calls that the fallback chain makes, and how it ends: fallback.py, `run_chain_async`.
use lumine_hedge_fund.Prelude.{
  ℕ, suc, ◌+◌, ◌*◌, ◌≤◌, ◌≡◌, refl, ap, ◌∙◌, sym, ◌⊎◌, inl, inr, List, [], ◌∷◌, ◌++◌, String, arith,
  length, length-append, All, Any,
}
use mathlib.Core.List.{append_assoc}
use lumine_hedge_fund.LlmGateway.Fallback.{
  Route, GatewayResponse, Reply, answer, client_error, Kind, auth, transient, permanent, classify,
  Call, answered, Attempt, success, failure, reply_attempt, retry_route, after_reply, try_route,
  try_routes, join, last_failure, ended, run_chain,
}

abbrev pub IsError : Reply → Type 0
IsError (answer r) = ⊥
IsError (client_error e) = Unit

abbrev pub IsFailed : List Call → Type 0
IsFailed log = All (λ c. IsError c.reply) log

-- Every route was called.
abbrev pub Visits : List Route → List Call → Type 0
Visits [] log = Unit
Visits (r ∷ routes) log = Any (λ c. c.route ≡ r) log × Visits routes log

-- The log of an attempt that succeeded ends in its response, and every earlier call failed; of one
-- that failed, every call did, and every route was called.
abbrev pub Logged : List Route → Attempt → List Call → Type 0
Logged routes (success r) log =
    (failed : List Call) × (c : Call) × (log ≡ failed ++ c ∷ [])
    × IsFailed failed
    × (c.reply ≡ answer r)
Logged routes (failure e) log = IsFailed log × Visits routes log

second-Logged :
    (route : Route) (e : String) (reply : Reply)
    → Logged (route ∷ []) (reply_attempt reply) (
        record { route = route; reply = client_error e }
        ∷ record { route = route; reply = reply }
        ∷ [])
unfolding reply_attempt
second-Logged route e (answer r) = (
  record { route = route; reply = client_error e } ∷ [],
  record { route = route; reply = answer r },
  refl,
  (tt, tt),
  refl,
)
second-Logged route e (client_error e') = ((tt, (tt, tt)), (inl refl, tt))

module _ (client : ℕ → Route → Reply) where
  retry-Logged :
      (n : ℕ) (route : Route) (e : String) (k : Kind)
      → let (a, log) = retry_route client n route e k in
        Logged (route ∷ []) a log × (length log ≤ 2)
  unfolding retry_route
  retry-Logged n route e transient = (second-Logged route e (client (n + 1) route), omega arith)
  retry-Logged n route e auth = (((tt, tt), (inl refl, tt)), omega arith)
  retry-Logged n route e permanent = (((tt, tt), (inl refl, tt)), omega arith)

  after-Logged :
      (n : ℕ) (route : Route) (reply : Reply)
      → let (a, log) = after_reply client n route reply in
        Logged (route ∷ []) a log × (length log ≤ 2)
  unfolding after_reply
  after-Logged n route (answer r) =
      (([], record { route = route; reply = answer r }, refl, tt, refl), omega arith)
  after-Logged n route (client_error e) = retry-Logged n route e (classify e)

  try_route-Logged :
      (n : ℕ) (route : Route)
      → let (a, log) = try_route client n route in Logged (route ∷ []) a log × (length log ≤ 2)
  unfolding try_route
  try_route-Logged n route = after-Logged n route (client n route)

IsFailed-append : (xs ys : List Call) → IsFailed xs → IsFailed ys → IsFailed (xs ++ ys)
IsFailed-append [] ys p q = q
IsFailed-append (x ∷ xs) ys p q = (p.0, IsFailed-append xs ys p.1 q)

Any-append_left : (P : Call → Type 0) (xs ys : List Call) → Any P xs → Any P (xs ++ ys)
Any-append_left P [] ys h = absurd h
Any-append_left P (x ∷ xs) ys (inl h) = inl h
Any-append_left P (x ∷ xs) ys (inr h) = inr (Any-append_left P xs ys h)

Any-append_right : (P : Call → Type 0) (xs ys : List Call) → Any P ys → Any P (xs ++ ys)
Any-append_right P [] ys h = h
Any-append_right P (x ∷ xs) ys h = inr (Any-append_right P xs ys h)

Visits-append_right :
    (routes : List Route) (xs ys : List Call) → Visits routes ys → Visits routes (xs ++ ys)
Visits-append_right [] xs ys h = tt
Visits-append_right (r ∷ routes) xs ys h =
    (Any-append_right (λ c. c.route ≡ r) xs ys h.0, Visits-append_right routes xs ys h.1)

-- A failed attempt at one route, followed by the attempts at the rest.
continue-Logged :
    (route : Route) (routes : List Route) (e : String) (log : List Call) (a : Attempt)
    (later : List Call)
    → Logged (route ∷ []) (failure e) log
    → Logged routes a later
    → Logged (route ∷ routes) a (log ++ later)
continue-Logged route routes e log (success r) later (bad, visited) (failed, c, split, bads, good) =
    (
      log ++ failed,
      c,
      ap (λ l. log ++ l) split ∙ sym (append_assoc log failed (c ∷ [])),
      IsFailed-append log failed bad bads,
      good,
    )
continue-Logged route routes e log (failure e') later (bad, visited) (bads, rest) = (
  IsFailed-append log later bad bads,
  (
    Any-append_left (λ c. c.route ≡ route) log later visited.0,
    Visits-append_right routes log later rest,
  ),
)

join-Logged :
    (route : Route) (routes : List Route) (a : Attempt) (log : List Call)
    (rest : Attempt × List Call)
    → Logged (route ∷ []) a log
    → Logged routes rest.0 rest.1
    → Logged (route ∷ routes) (join a log rest).0 (join a log rest).1
unfolding join
join-Logged route routes (success r) log rest h k = h
join-Logged route routes (failure e) log rest h k =
    continue-Logged route routes e log rest.0 rest.1 h k

join-length :
    (a : Attempt) (log : List Call) (rest : Attempt × List Call)
    → length (join a log rest).1 ≤ length log + length rest.1
unfolding join
join-length (success r) log rest = omega arith
join-length (failure e) log rest = omega (arith, length-append log rest.1)

module _ (client : ℕ → Route → Reply) where
  try_routes-Logged :
      (n : ℕ) (last : String) (routes : List Route)
      → let (a, log) = try_routes client n last routes in
        Logged routes a log × (length log ≤ 2 * length routes)
  unfolding try_routes
  try_routes-Logged n last [] = ((tt, tt), omega arith)
  try_routes-Logged n last (route ∷ routes) =
      let here = try_route-Logged client n route in
      let (a, log) = try_route client n route in
      let rest = try_routes client (n + length log) (last_failure a last) routes in
      let later = try_routes-Logged (n + length log) (last_failure a last) routes in
      (
        join-Logged route routes a log rest here.0 later.0,
        omega (arith, join-length a log rest, here.1, later.1),
      )

  -- The chain makes at most two calls for each route. If it returns a response, that is the
  -- answer to its last call, and every earlier call failed; otherwise every route was called and
  -- every call failed.
  pub run_chain-Logged :
      (primary : Route) (hops : List Route)
      → let (result, log) = run_chain client primary hops in
        (length log ≤ 2 * suc (length hops))
        × (((r : GatewayResponse) × (result ≡ answered r) × Logged (primary ∷ hops) (success r) log)
            ⊎ (IsFailed log × Visits (primary ∷ hops) log))
  unfolding run_chain
  run_chain-Logged primary hops =
      let all = try_routes-Logged 0 "" (primary ∷ hops) in
      (
        all.1,
        settled (try_routes client 0 "" (primary ∷ hops)).0
            (try_routes client 0 "" (primary ∷ hops)).1 all.0,
      )
    where
      settled :
          (a : Attempt) (log : List Call)
          → Logged (primary ∷ hops) a log
          → ((r : GatewayResponse) × (ended hops a ≡ answered r)
              × Logged (primary ∷ hops) (success r) log)
            ⊎ (IsFailed log × Visits (primary ∷ hops) log)
      settled (success r) log h = inl (r, refl, h)
      settled (failure e) log h = inr h
