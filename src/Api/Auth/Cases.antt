-- ===== src/Api/Auth/Cases.antt =====
-- How `authenticate_request` of api/middleware/auth.py depends on the time and on the replay cache.
use lumine_hedge_fund.Prelude.{
  ◌≡◌, refl, ◌⊎◌, inl, inr, Bool-cases, ℕ, Option, none, some, List, [], String, ℤ, ltb, is_empty,
  if◌then◌else◌, Dict,
}
use lumine_hedge_fund.Api.Auth.{
  Library, AuthError, not_ascii, signature_mismatch, invalid_timestamp, revoked_key, missing_auth,
  Settings, AuthenticatedPrincipal, Request, Authenticated, raised, expired_timestamp, load_key,
  signature_payload, request_path, is_ascii, distance, missing_headers, replay_key,
  verify_signature, admitted, signed, timed, keyed, headed, authenticate_request,
}
use lumine_hedge_fund.Api.ReplayCache.{
  signature_window_seconds, ReplayKey, ReplayCache, check_replay,
}

module _ (lib : Library) (settings : Settings) (redis : Dict (Dict String)) where
  -- A request whose outcome is an exception whenever it is made and whatever the cache holds.
  abbrev pub IsRefused : (ℕ → ReplayCache → Authenticated × ReplayCache) → Type 0
  IsRefused answer =
      (later : ℕ) (seen : ReplayCache) → (e : AuthError) × (answer later seen ≡ (raised e, seen))

  -- The answer to a request that is right but for the time and for a replay.
  unfoldable pub answered :
      ReplayKey → ℤ → AuthenticatedPrincipal → ℕ → ReplayCache → Authenticated × ReplayCache
  answered k t principal later seen =
      if ltb signature_window_seconds (distance later t)
      then (raised expired_timestamp, seen)
      else admitted lib settings redis principal seen (check_replay k later seen)

  signed_cases :
      (request : Request) (api_key timestamp signature : String) (key : String × List String)
      → ((e : AuthError) × ((later : ℕ) (seen : ReplayCache)
            → signed lib settings redis later request api_key timestamp signature key seen
              ≡ (raised e, seen)))
        ⊎ ((principal : AuthenticatedPrincipal) × ((later : ℕ) (seen : ReplayCache)
              → signed lib settings redis later request api_key timestamp signature key seen
                ≡ admitted lib settings redis principal seen (
                    check_replay
                      (replay_key lib settings redis api_key timestamp request.body)
                      later
                      seen)))
  unfolding signed
  signed_cases request api_key timestamp signature (secret, scopes) =
      let payload =
        signature_payload lib request.method (request_path request) timestamp request.body in
      elim (Bool-cases (is_ascii signature)) [
        | inr a ↦ inl (not_ascii, λ later seen. rw a refl)
        | inl a ↦ elim (Bool-cases (verify_signature lib settings redis secret payload signature)) [
          | inr v ↦ inl (signature_mismatch, λ later seen. rw (a, v) refl)
          | inl v ↦ inr (record { key_id = api_key; scopes = scopes }, λ later seen. rw (a, v) refl)
        ]
      ]

  -- What all the tests before the clock and the cache come to.
  abbrev pub Cases :
      Option String
      → Option String
      → Request
      → (ℕ → ReplayCache → Authenticated × ReplayCache)
      → Type 0
  Cases api_key timestamp request answer =
      IsRefused answer
      ⊎ ((k : ReplayKey) × (t : ℤ) × (principal : AuthenticatedPrincipal) × (api_key
            ≡ some k.api_key)
          × (timestamp ≡ some k.timestamp)
          × (k.body_hash ≡ lib.sha256_hex request.body)
          × (lib.parse_int k.timestamp ≡ some t)
          × ((later : ℕ) (seen : ReplayCache)
              → answer later seen ≡ answered k t principal later seen))

  timed-Cases :
      (request : Request) (api_key timestamp signature : String) (key : String × List String)
      (t : Option ℤ)
      → lib.parse_int timestamp ≡ t
      → Cases (some api_key) (some timestamp) request (λ later seen.
        timed lib settings redis later request api_key timestamp signature key t seen)
  unfolding timed answered replay_key
  timed-Cases request api_key timestamp signature key none parsed =
      inl (λ later seen. (invalid_timestamp, refl))
  timed-Cases request api_key timestamp signature key (some t) parsed =
      elim (signed_cases request api_key timestamp signature key) [
        | inl (e, h) ↦ inl (λ later seen.
            elim (Bool-cases (ltb signature_window_seconds (distance later t))) [
              | inl l ↦ (expired_timestamp, rw l refl)
              | inr l ↦ (e, rw l (h later seen))
            ])
        | inr (principal, h) ↦ inr (
          replay_key lib settings redis api_key timestamp request.body,
          t,
          principal,
          refl,
          refl,
          refl,
          parsed,
          λ later seen. rw (h later seen) refl,
        )
      ]

  keyed-Cases :
      (request : Request) (api_key timestamp signature : String)
      (key : Option (String × List String))
      → Cases (some api_key) (some timestamp) request (λ later seen.
        keyed lib settings redis later request api_key timestamp signature key seen)
  unfolding keyed
  keyed-Cases request api_key timestamp signature none = inl (λ later seen. (revoked_key, refl))
  keyed-Cases request api_key timestamp signature (some key) =
      timed-Cases request api_key timestamp signature key (lib.parse_int timestamp) refl

  headed-Cases :
      (request : Request) (api_key timestamp signature : Option String)
      → Cases api_key timestamp request
          (λ later seen. headed lib settings redis later request api_key timestamp signature seen)
  unfolding headed
  headed-Cases request (some api_key) (some timestamp) (some signature) =
      keyed-Cases request api_key timestamp signature (load_key settings redis api_key)
  headed-Cases request (some api_key) (some timestamp) none =
      inl (λ later seen. (missing_auth [], refl))
  headed-Cases request (some api_key) none signature = inl (λ later seen. (missing_auth [], refl))
  headed-Cases request none timestamp signature = inl (λ later seen. (missing_auth [], refl))

  pub request-Cases :
      (request : Request)
      → Cases request.api_key request.timestamp request
          (λ later seen. authenticate_request lib settings redis later request seen)
  unfolding authenticate_request
  request-Cases request = elim (Bool-cases (is_empty (missing_headers request))) [
    | inr m ↦ inl (λ later seen. (missing_auth (missing_headers request), rw m refl))
    | inl m ↦ elim (headed-Cases request request.api_key request.timestamp request.signature) [
      | inl h ↦ inl (λ later seen. let (e, eq) = h later seen in (e, rw m eq))
      | inr (k, t, principal, a, b, c, d, h) ↦
          inr (k, t, principal, a, b, c, d, λ later seen. rw m (h later seen))
    ]
  ]
