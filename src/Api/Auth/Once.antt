-- ===== src/Api/Auth/Once.antt =====
-- A request that is sent to `authenticate_request` of api/middleware/auth.py again.
use mathlib.Core.Path.{subst}
use lumine_hedge_fund.Prelude.{
  ◌≡◌, ◌≢◌, refl, sym, ap, ◌∙◌, inl, inr, arith, Bool-cases, ℕ, ◌+◌, ◌<◌, Option, none, some, List,
  [], ◌∷◌, String, ℤ, ltb, if◌then◌else◌, Dict, All,
}
use lumine_hedge_fund.Api.Auth.{
  Library, Settings, AuthError, AuthenticatedPrincipal, Request, Authenticated, accepted, raised,
  expired_timestamp, replay_detected, distance, admitted, authenticate_request,
}
use lumine_hedge_fund.Api.ReplayCache.{
  signature_window_seconds, ReplayKey, ReplayCache, is_replay, check_replay,
}
use lumine_hedge_fund.Api.Auth.Cases.{answered, request-Cases}
use lumine_hedge_fund.Api.Auth.Replay.{
  Holds, check_replay-expiry, check_replay-keeps, check_replay-Holds,
}

module _ (lib : Library) (settings : Settings) (redis : Dict (Dict String)) where
  -- The cache after a sequence of requests, each at its time.
  unfoldable pub authenticate_all : List (ℕ × Request) → ReplayCache → ReplayCache
  authenticate_all [] seen = seen
  authenticate_all ((now, request) ∷ calls) seen =
      authenticate_all calls (authenticate_request lib settings redis now request seen).1

  abbrev pub IsBefore : ℕ → ℕ × Request → Type 0
  IsBefore e call = call.0 < e

  admitted-accepted :
      (p q : AuthenticatedPrincipal) (seen after : ReplayCache) (checked : Option ReplayCache)
      → admitted lib settings redis p seen checked ≡ (accepted q, after)
      → (checked ≡ some after) × (p ≡ q)
  unfolding admitted
  admitted-accepted p q seen after none h =
      absurd (cc (ap (λ (o : Authenticated × ReplayCache). o.0) h))
  admitted-accepted p q seen after (some c) h =
      let a : accepted p ≡ accepted q = ap (λ (o : Authenticated × ReplayCache). o.0) h in
      (ap (λ (o : Authenticated × ReplayCache). some o.1) h, cc)

  raised-accepted :
      (out : Authenticated × ReplayCache) (e : AuthError) (q : AuthenticatedPrincipal)
      (seen after : ReplayCache)
      → out ≡ (raised e, seen)
      → out ≡ (accepted q, after)
      → ⊥
  raised-accepted out e q seen after h g =
      let a : raised e ≡ accepted q = ap (λ (o : Authenticated × ReplayCache). o.0) (sym h ∙ g) in
      absurd cc

  answered-accepted :
      (k : ReplayKey) (t : ℤ) (p q : AuthenticatedPrincipal) (now : ℕ) (seen after : ReplayCache)
      → answered lib settings redis k t p now seen ≡ (accepted q, after)
      → (check_replay k now seen ≡ some after) × (p ≡ q)
  unfolding answered
  answered-accepted k t p q now seen after h =
      elim (Bool-cases (ltb signature_window_seconds (distance now t))) [
        | inl l ↦ absurd (raised-accepted _ expired_timestamp q seen after (rw l refl) h)
        | inr l ↦ admitted-accepted p q seen after (check_replay k now seen) (rw l at h)
      ]

  admitted-keeps :
      (k : ReplayKey) (e : ℕ) (p : AuthenticatedPrincipal) (seen : ReplayCache)
      (checked : Option ReplayCache)
      → Holds k e seen
      → ((after : ReplayCache) → checked ≡ some after → Holds k e after)
      → Holds k e (admitted lib settings redis p seen checked).1
  unfolding admitted
  admitted-keeps k e p seen none v next = v
  admitted-keeps k e p seen (some after) v next = next after refl

  answered-keeps :
      (k j : ReplayKey) (t : ℤ) (now e : ℕ) (p : AuthenticatedPrincipal) (seen : ReplayCache)
      → now < e
      → Holds k e seen
      → Holds k e (answered lib settings redis j t p now seen).1
  unfolding answered
  answered-keeps k j t now e p seen l v =
      elim (Bool-cases (ltb signature_window_seconds (distance now t))) [
        | inl late ↦ rw late v
        | inr late ↦ rw late (
            admitted-keeps k e p seen (check_replay j now seen) v
              (λ after h. check_replay-keeps k j now e seen after h l v))
      ]

  -- A request, of whatever key, leaves a key in the cache until its time.
  authenticate_request-keeps :
      (k : ReplayKey) (now e : ℕ) (request : Request) (seen : ReplayCache)
      → now < e
      → Holds k e seen
      → Holds k e (authenticate_request lib settings redis now request seen).1
  authenticate_request-keeps k now e request seen l v =
      elim (request-Cases lib settings redis request) [
        | inl refused ↦ rw ((refused now seen).1) v
        | inr (j, t, p, _, _, _, _, h) ↦ rw (h now seen) (answered-keeps k j t now e p seen l v)
      ]

  authenticate_all-keeps :
      (k : ReplayKey) (e : ℕ) (calls : List (ℕ × Request)) (seen : ReplayCache)
      → All (IsBefore e) calls
      → Holds k e seen
      → Holds k e (authenticate_all calls seen)
  unfolding authenticate_all
  authenticate_all-keeps k e [] seen before v = v
  authenticate_all-keeps k e ((now, request) ∷ calls) seen before v =
      authenticate_all-keeps k e calls (authenticate_request lib settings redis now request seen).1
        before.1 (authenticate_request-keeps k now e request seen before.0 v)

  -- What an accepted request tells: its key was not in the cache, and its answer at any other time.
  record Accepted (now : ℕ) (request : Request) (seen after : ReplayCache)
      (p : AuthenticatedPrincipal) : Type 0 where
    k : ReplayKey
    t : ℤ
    of_api_key : request.api_key ≡ some k.api_key
    of_timestamp : request.timestamp ≡ some k.timestamp
    of_body : k.body_hash ≡ lib.sha256_hex request.body
    parsed : lib.parse_int k.timestamp ≡ some t
    passed : check_replay k now seen ≡ some after
    answers :
        (later : ℕ) (other : ReplayCache)
        → authenticate_request lib settings redis later request other
          ≡ answered lib settings redis k t p later other

  request-Accepted :
      (now : ℕ) (request : Request) (seen after : ReplayCache) (p : AuthenticatedPrincipal)
      → authenticate_request lib settings redis now request seen ≡ (accepted p, after)
      → Accepted now request seen after p
  request-Accepted now request seen after p h = elim (request-Cases lib settings redis request) [
    | inl refused ↦
        let (e, raises) = refused now seen in absurd (raised-accepted _ e p seen after raises h)
    | inr (k, t, q, a, b, c, d, answers) ↦
        let (passed, same) =
          answered-accepted k t q p now seen after (sym (answers now seen) ∙ h) in
        record {
          k = k;
          t = t;
          of_api_key = a;
          of_timestamp = b;
          of_body = c;
          parsed = d;
          passed = passed;
          answers =
              subst
                (λ (x : AuthenticatedPrincipal).
                  (later : ℕ) (other : ReplayCache)
                  → authenticate_request lib settings redis later request other
                    ≡ answered lib settings redis k t x later other)
                same answers;
        }
  ]

  key-eq :
      (k j : ReplayKey)
      → some k.api_key ≡ some j.api_key
      → some k.timestamp ≡ some j.timestamp
      → k.body_hash ≡ j.body_hash
      → k ≡ j
  key-eq k j a b c =
      let x : k.api_key ≡ j.api_key = cc in
      let y : k.timestamp ≡ j.timestamp = cc in
      λ i. record { api_key = x i; timestamp = y i; body_hash = c i }

  -- Once a request is accepted: in the next five minutes, whatever other requests come before it, no
  -- request with its API key, timestamp and body hash is accepted, the same request or one with
  -- another method, path or signature.
  pub authenticate_request-once :
      (now later : ℕ) (request again : Request) (calls : List (ℕ × Request))
      (seen after : ReplayCache) (p q : AuthenticatedPrincipal)
      → authenticate_request lib settings redis now request seen ≡ (accepted p, after)
      → again.api_key ≡ request.api_key
      → again.timestamp ≡ request.timestamp
      → lib.sha256_hex again.body ≡ lib.sha256_hex request.body
      → All (IsBefore (now + signature_window_seconds)) calls
      → later < now + signature_window_seconds
      → (authenticate_request lib settings redis later again (authenticate_all calls after)).0
        ≢ accepted q
  authenticate_request-once now later request again calls seen after p q h a b c before l taken =
      let first = request-Accepted now request seen after p h in
      let cache = authenticate_all calls after in
      let out = authenticate_request lib settings redis later again cache in
      let second = request-Accepted later again cache out.1 q (λ i. (taken i, out.1)) in
      let same : second.k ≡ first.k =
        key-eq second.k first.k (sym second.of_api_key ∙ a ∙ first.of_api_key)
          (sym second.of_timestamp ∙ b ∙ first.of_timestamp)
          (second.of_body ∙ c ∙ sym first.of_body) in
      let kept =
        authenticate_all-keeps first.k (now + signature_window_seconds) calls after before (
          now + signature_window_seconds,
          check_replay-expiry first.k now seen after first.passed,
          omega arith,
        ) in
      let refused : check_replay first.k later cache ≡ none =
        check_replay-Holds first.k later (now + signature_window_seconds) cache kept l in
      let passed : check_replay first.k later cache ≡ some out.1 =
        subst (λ (k : ReplayKey). check_replay k later cache ≡ some out.1) same second.passed in
      absurd cc

  -- The same request sent again, with nothing in between, once it is accepted: it is refused as expired
  -- where its timestamp is by then more than five minutes away, refused as a replay in the five minutes
  -- after it was accepted, and accepted again otherwise. So a request whose timestamp is not in the past
  -- can be replayed from five minutes after it was accepted up to five minutes after its timestamp.
  pub authenticate_request-again :
      (now later : ℕ) (request : Request) (seen after : ReplayCache) (p : AuthenticatedPrincipal)
      (timestamp : String) (t : ℤ)
      → authenticate_request lib settings redis now request seen ≡ (accepted p, after)
      → request.timestamp ≡ some timestamp
      → lib.parse_int timestamp ≡ some t
      → (authenticate_request lib settings redis later request after).0 ≡ (
          if ltb signature_window_seconds (distance later t)
          then raised expired_timestamp
          else if ltb later (now + signature_window_seconds)
          then raised replay_detected
          else accepted p)
  unfolding answered check_replay is_replay admitted
  authenticate_request-again now later request seen after p timestamp t h stamp parsed =
      let first = request-Accepted now request seen after p h in
      let same : first.k.timestamp ≡ timestamp =
        (let e : some first.k.timestamp ≡ some timestamp = sym first.of_timestamp ∙ stamp in cc) in
      let parses : lib.parse_int timestamp ≡ some first.t =
        subst (λ (s : String). lib.parse_int s ≡ some first.t) same first.parsed in
      let time : first.t ≡ t = cc in
      let stored = check_replay-expiry first.k now seen after first.passed in
      rw (first.answers later after, time)
        (elim (Bool-cases (ltb signature_window_seconds (distance later t))) [
          | inl late ↦ rw late refl
          | inr late ↦
              rw (late, stored)
                (elim (Bool-cases (ltb later (now + signature_window_seconds))) [
                  | inl soon ↦ rw soon refl
                  | inr soon ↦ rw soon refl
                ])
        ])
