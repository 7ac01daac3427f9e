-- ===== src/Api/ReplayCache.antt =====
-- `_replay_seen` and `_check_replay` of backend/src/lumine/api/middleware/auth.py.
use lumine_hedge_fund.Prelude.{
  ℕ, ◌+◌, Bool, false, ◌&&◌, Option, none, some, List, [], ◌∷◌, String, str_eq, ltb, leb, length,
  if◌then◌else◌,
}

-- `_SIGNATURE_WINDOW_SECONDS`
abbrev pub signature_window_seconds : ℕ
signature_window_seconds = 300

-- `_REPLAY_CACHE_MAX`
abbrev pub replay_cache_max : ℕ
replay_cache_max = 10000

pub record ReplayKey : Type 0 where
  pub api_key : String
  pub timestamp : String
  pub body_hash : String

-- `_replay_seen`, with the expiry of each key.
abbrev pub ReplayCache : Type 0
ReplayCache = List (ReplayKey × ℕ)

unfoldable pub same_key : ReplayKey → ReplayKey → Bool
same_key k j =
    str_eq k.api_key j.api_key && str_eq k.timestamp j.timestamp && str_eq k.body_hash j.body_hash

unfoldable pub expiry : ReplayKey → ReplayCache → Option ℕ
unfolding same_key
expiry k [] = none
expiry k ((j, e) ∷ seen) = if same_key j k then some e else expiry k seen

unfoldable pub remember : ReplayKey → ℕ → ReplayCache → ReplayCache
unfolding same_key
remember k expires [] = (k, expires) ∷ []
remember k expires ((j, e) ∷ seen) =
    if same_key j k then (j, expires) ∷ seen else (j, e) ∷ remember k expires seen

-- `_prune_replay_cache`
unfoldable pub prune_replay_cache : ℕ → ReplayCache → ReplayCache
prune_replay_cache now [] = []
prune_replay_cache now ((j, e) ∷ seen) =
    let rest = prune_replay_cache now seen in if leb e now then rest else (j, e) ∷ rest

unfoldable pub is_replay : ℕ → Option ℕ → Bool
is_replay now none = false
is_replay now (some expires) = ltb now expires

unfoldable pub bounded : ℕ → ReplayCache → ReplayCache
unfolding prune_replay_cache
bounded now seen = if ltb replay_cache_max (length seen) then prune_replay_cache now seen else seen

-- `_check_replay`: the cache after it, or `none` where it raises.
unfoldable pub check_replay : ReplayKey → ℕ → ReplayCache → Option ReplayCache
unfolding is_replay expiry remember bounded
check_replay k now seen =
    if is_replay now (expiry k seen)
    then none
    else some (bounded now (remember k (now + signature_window_seconds) seen))
