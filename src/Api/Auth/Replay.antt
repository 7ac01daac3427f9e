-- ===== src/Api/Auth/Replay.antt =====
-- The replay cache of api/middleware/auth.py over a sequence of requests.
use mathlib.Core.Path.{subst}
use lumine_hedge_fund.Prelude.{
  ◌≡◌, refl, sym, ap, ◌∙◌, inl, inr, arith, eq_iff, Bool-cases, ℕ, ◌+◌, ◌≤◌, ◌<◌, Bool, true, false,
  Option, none, some, [], ◌∷◌, ltb, if◌then◌else◌,
}
use lumine_hedge_fund.Api.ReplayCache.{
  signature_window_seconds, ReplayKey, ReplayCache, same_key, expiry, remember, prune_replay_cache,
  is_replay, bounded, check_replay,
}

same_key_refl : (k : ReplayKey) → same_key k k ≡ true
unfolding same_key
same_key_refl k = ground (
  arith,
  eq_iff k.api_key k.api_key,
  eq_iff k.timestamp k.timestamp,
  eq_iff k.body_hash k.body_hash,
)

same_key-eq : (j k : ReplayKey) → same_key j k ≡ true → j ≡ k
unfolding same_key
same_key-eq j k h =
    let a : j.api_key ≡ k.api_key = ground (arith, eq_iff j.api_key k.api_key) in
    let t : j.timestamp ≡ k.timestamp = ground (arith, eq_iff j.timestamp k.timestamp) in
    let b : j.body_hash ≡ k.body_hash = ground (arith, eq_iff j.body_hash k.body_hash) in
    λ i. record { api_key = a i; timestamp = t i; body_hash = b i }

expiry-remember :
    (k j : ReplayKey) (e : ℕ) (seen : ReplayCache)
    → expiry j (remember k e seen) ≡ (if same_key k j then some e else expiry j seen)
unfolding expiry remember
expiry-remember k j e [] = refl
expiry-remember k j e ((i, x) ∷ seen) = elim (Bool-cases (same_key i k)) [
  | inl s ↦ rw s (
      subst
        (λ (m : ReplayKey).
          (if same_key m j then some e else expiry j seen)
          ≡ (if same_key k j then some e else if same_key m j then some x else expiry j seen))
        (sym (same_key-eq i k s)) (ground arith))
  | inr s ↦ rw s (elim (Bool-cases (same_key i j)) [
    | inl t ↦
        let u : same_key k j ≡ false = elim (Bool-cases (same_key k j)) [
          | inl v ↦
              let e : i ≡ k = same_key-eq i j t ∙ sym (same_key-eq k j v) in
              let w : same_key i k ≡ true =
                ap (λ (m : ReplayKey). same_key m k) e ∙ same_key_refl k in
              absurd cc
          | inr v ↦ v
        ] in
        rw (t, u) refl
    | inr t ↦ rw t (expiry-remember k j e seen)
  ])
]

-- The key is in the cache until `e` at least.
abbrev pub Holds : ReplayKey → ℕ → ReplayCache → Type 0
Holds k e seen = (e' : ℕ) × (expiry k seen ≡ some e') × (e ≤ e')

expiry-prune :
    (k : ReplayKey) (now e : ℕ) (seen : ReplayCache)
    → expiry k seen ≡ some e
    → now < e
    → expiry k (prune_replay_cache now seen) ≡ some e
unfolding expiry prune_replay_cache
expiry-prune k now e [] h l = absurd cc
expiry-prune k now e ((j, x) ∷ seen) h l = ground (arith, expiry-prune k now e seen)

expiry-bounded :
    (k : ReplayKey) (now e : ℕ) (seen : ReplayCache)
    → expiry k seen ≡ some e
    → now < e
    → expiry k (bounded now seen) ≡ some e
unfolding bounded
expiry-bounded k now e seen h l = ground (arith, expiry-prune k now e seen)

else-some :
    {A : Type 0} (b : Bool) (a c : A)
    → (if b then none else some a) ≡ some c
    → (b ≡ false) × (a ≡ c)
else-some true a c h = absurd cc
else-some false a c h = (refl, cc)

-- What a check that passes has found and stored.
check_replay-some :
    (k : ReplayKey) (now : ℕ) (seen after : ReplayCache)
    → check_replay k now seen ≡ some after
    → (is_replay now (expiry k seen) ≡ false)
      × (bounded now (remember k (now + signature_window_seconds) seen) ≡ after)
unfolding check_replay
check_replay-some k now seen after h = else-some (is_replay now (expiry k seen)) _ after h

-- A check that passes leaves its key in the cache for the window.
pub check_replay-expiry :
    (k : ReplayKey) (now : ℕ) (seen after : ReplayCache)
    → check_replay k now seen ≡ some after
    → expiry k after ≡ some (now + signature_window_seconds)
check_replay-expiry k now seen after h =
    let stored = remember k (now + signature_window_seconds) seen in
    let e : expiry k stored ≡ some (now + signature_window_seconds) =
      expiry-remember k k (now + signature_window_seconds) seen ∙ rw (same_key_refl k) refl in
    subst (λ (c : ReplayCache). expiry k c ≡ some (now + signature_window_seconds))
      (check_replay-some k now seen after h).1
      (expiry-bounded k now (now + signature_window_seconds) stored e (omega arith))

-- Until its time no check, of whatever key, takes it out.
pub check_replay-keeps :
    (k j : ReplayKey) (now e : ℕ) (seen after : ReplayCache)
    → check_replay j now seen ≡ some after
    → now < e
    → Holds k e seen
    → Holds k e after
unfolding is_replay
check_replay-keeps k j now e seen after h l (x, at, le) =
    let (fresh, eq) = check_replay-some j now seen after h in
    let stored = remember j (now + signature_window_seconds) seen in
    elim (Bool-cases (same_key j k)) [
      | inl s ↦
          let same : expiry j seen ≡ some x =
            ap (λ (m : ReplayKey). expiry m seen) (same_key-eq j k s) ∙ at in
          let open_ : ltb now x ≡ false =
            subst (λ (o : Option ℕ). is_replay now o ≡ false) same fresh in
          absurd (ground arith)
      | inr s ↦ (
        x,
        subst (λ (c : ReplayCache). expiry k c ≡ some x) eq
            (expiry-bounded k now x stored
              (expiry-remember j k (now + signature_window_seconds) seen ∙ rw s at) (omega arith)),
        le,
      )
    ]

pub check_replay-Holds :
    (k : ReplayKey) (later e : ℕ) (seen : ReplayCache)
    → Holds k e seen
    → later < e
    → check_replay k later seen ≡ none
unfolding check_replay is_replay
check_replay-Holds k later e seen (x, at, le) l =
    let open_ : ltb later x ≡ true = ground arith in rw (at, open_) refl
