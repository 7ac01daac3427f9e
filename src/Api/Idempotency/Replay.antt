-- ===== src/Api/Idempotency/Replay.antt =====
-- What a reused key gets: idempotency.py, `IdempotencyMiddleware.__call__`.
use lumine_hedge_fund.Prelude.{
  ℕ, ◌+◌, ◌<◌, ◌≤◌, ◌≡◌, ◌≢◌, ◌⊎◌, inl, inr, Bool-cases, refl, ap, ◌∙◌, true, false, none, some, [],
  ◌∷◌, ◌++◌, String, str_eq, eq_iff, arith, if◌then◌else◌, lookup, lookup-insert,
}
use lumine_hedge_fund.Api.Idempotency.{
  Bytes, idempotency_ttl, Request, Record, State, Environment, Library, Sent, forwarded, replayed,
  conflict, joined, store_key, given_key, live, is_success, remember, forward, with_record,
  with_entry, keyed, call,
}
use lumine_hedge_fund.Api.Envelope.{payload_of}
use lumine_hedge_fund.Api.Envelope.Marked.{IsReplayOf, payload_of-IsReplayOf}

module _ (lib : Library) where
  -- The record of a request that the app answered.
  abbrev pub record_of : Environment → Request → Record
  record_of env q = record {
    created_at = env.answered_at;
    body_hash = lib.sha256_hex q.body;
    status_code = (lib.app q).status_code;
    body = joined (lib.app q).chunks;
  }

  -- A success that can be stored.
  abbrev pub IsStorable : Environment → Request → Type 0
  IsStorable env q =
      (is_success (lib.app q).status_code ≡ true)
      × (lib.is_utf8 (joined (lib.app q).chunks) ≡ true)
      × (env.set_fails ≡ false)

  forward-lookup :
      (env : Environment) (key : String) (q : Request) (s : State)
      → IsStorable env q
      → lookup key (forward lib env key q s).1.store
        ≡ some (record {
          expires = env.answered_at + idempotency_ttl;
          cached = some (record_of env q);
        })
  unfolding forward remember
  forward-lookup env key q s (a, b, c) =
      rw
        (
          a,
          b,
          c,
          lookup-insert key key
              (record {
                expires = env.answered_at + idempotency_ttl;
                cached = some (record_of env q);
              })
              s.store,
          (eq_iff key key).1 refl,
        )
        refl

  -- What a call with a live record of its key gets.
  answered_from : Environment → Request → Record → Sent
  answered_from env q r =
      if str_eq r.body_hash (lib.sha256_hex q.body)
      then replayed r.status_code (payload_of lib.loads lib.dumps r.body)
      else conflict

  keyed-live :
      (env : Environment) (key : String) (q : Request) (s : State) (r : Record) (expires : ℕ)
      → env.get_fails ≡ false
      → lookup (store_key q key) s.store ≡ some (record { expires = expires; cached = some r })
      → env.now < expires
      → env.now ≤ r.created_at + idempotency_ttl
      → keyed lib env (some key) q s ≡ (answered_from env q r, s)
  unfolding keyed with_entry with_record live answered_from
  keyed-live env key q s r expires g l a b = ground (arith, l, g)

  keyed-replays :
      (env later : Environment) (key key' : String) (q q' : Request) (s : State)
      → IsStorable env q
      → later.get_fails ≡ false
      → store_key q' key' ≡ store_key q key
      → later.now < env.answered_at + idempotency_ttl
      → let s' = (forward lib env (store_key q key) q s).1 in
        keyed lib later (some key') q' s' ≡ (
          (if str_eq (lib.sha256_hex q.body) (lib.sha256_hex q'.body)
              then replayed
                  (lib.app q).status_code
                  (payload_of lib.loads lib.dumps (joined (lib.app q).chunks))
              else conflict),
          s',
        )
  keyed-replays env later key key' q q' s ok g same soon =
      let s' = (forward lib env (store_key q key) q s).1 in
      let l = forward-lookup env (store_key q key) q s ok in
      unfold answered_from in
      keyed-live later key' q' s' (record_of env q) (env.answered_at + idempotency_ttl) g
        (ap (λ k. lookup k s'.store) same ∙ l) soon (omega (arith, soon))

  forward-calls :
      (env : Environment) (key : String) (q : Request) (s : State)
      → (forward lib env key q s).1.calls ≡ s.calls ++ q ∷ []
  unfolding forward remember
  forward-calls env key q s = ground arith

  -- A POST with a key.
  pub record IsKeyed (q : Request) (key : String) : Type 0 where
    pub http : q.is_http ≡ true
    pub post : str_eq q.method "POST" ≡ true
    pub given : given_key q.idempotency_key ≡ some key

  call-keyed :
      (env : Environment) (q : Request) (key : String) (s : State)
      → IsKeyed q key
      → call lib env q s ≡ keyed lib env (some key) q s
  unfolding call
  call-keyed env q key s k = rw (k.http, k.post, k.given) refl

  keyed-fresh :
      (env : Environment) (key : String) (q : Request) (s : State)
      → env.get_fails ≡ false
      → live env.now (lookup (store_key q key) s.store) ≡ none
      → keyed lib env (some key) q s ≡ forward lib env (store_key q key) q s
  unfolding keyed with_entry
  keyed-fresh env key q s g l = rw (g, l) refl

  -- The stored answer of `q`, where the body is the same.
  abbrev pub IsAnswer : Request → Request → Sent → Type 0
  IsAnswer q again sent =
      let body = joined (lib.app q).chunks in
      ((lib.sha256_hex q.body ≡ lib.sha256_hex again.body)
        × (payload : Bytes) × (sent ≡ replayed (lib.app q).status_code payload)
        × IsReplayOf lib.loads lib.dumps body payload)
      ⊎ ((lib.sha256_hex q.body ≢ lib.sha256_hex again.body) × (sent ≡ conflict))

  replay_or_conflict :
      (q again : Request)
      → IsAnswer q again (
          if str_eq (lib.sha256_hex q.body) (lib.sha256_hex again.body)
          then replayed
              (lib.app q).status_code
              (payload_of lib.loads lib.dumps (joined (lib.app q).chunks))
          else conflict)
  replay_or_conflict q again =
      let body = joined (lib.app q).chunks in
      let is_same = eq_iff (lib.sha256_hex q.body) (lib.sha256_hex again.body) in
      elim (Bool-cases (str_eq (lib.sha256_hex q.body) (lib.sha256_hex again.body))) [
        | inl e ↦ rw e (
            inl (
              is_same.0 e,
              payload_of lib.loads lib.dumps body,
              refl,
              payload_of-IsReplayOf lib.loads lib.dumps body,
            ))
        | inr e ↦ rw e (inr ((λ same. absurd (ground (arith, is_same.1 same, e))), refl))
      ]

  -- Where nothing live is stored for its key, a POST reaches the app. If the app's success was
  -- stored, a later POST that leads to the same record, within the hour of the answer, does not
  -- reach the app and changes nothing. With another hash of its body it gets a conflict. With the
  -- same hash it gets the stored status, which need not be 200, and the stored envelope with
  -- `meta.idempotent_replay` true and else the same fields; a stored body that is no envelope with a
  -- `meta` comes back without any mark.
  pub call-replays :
      (env later : Environment) (key key' : String) (q q' : Request) (s : State)
      → IsKeyed q key
      → IsKeyed q' key'
      → env.get_fails ≡ false
      → later.get_fails ≡ false
      → live env.now (lookup (store_key q key) s.store) ≡ none
      → IsStorable env q
      → store_key q' key' ≡ store_key q key
      → later.now < env.answered_at + idempotency_ttl
      → let out = call lib env q s in
        (out.0 ≡ forwarded (lib.app q))
        × (out.1.calls ≡ s.calls ++ q ∷ [])
        × (sent : Sent) × (call lib later q' out.1 ≡ (sent, out.1))
        × IsAnswer q q' sent
  call-replays env later key key' q q' s k k' g g' l ok same soon =
      let first = call-keyed env q key s k ∙ keyed-fresh env key q s g l in
      rw first (
        unfold forward in refl,
        forward-calls env (store_key q key) q s,
        _,
        call-keyed later q' key' (forward lib env (store_key q key) q s).1 k'
            ∙ keyed-replays env later key key' q q' s ok g' same soon,
        replay_or_conflict q q',
      )
