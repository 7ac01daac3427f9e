-- ===== src/Security/Anchoring/Tests.antt =====
-- Calls of anchoring.py's `maybe_anchor` with a toy library.
use lumine_hedge_fund.Prelude.{
  ℕ, ◌+◌, ◌*◌, ◌<◌, ◌≡◌, refl, arith, true, false, some, [], ◌∷◌, String, lookup, insert,
}
use lumine_hedge_fund.Security.HashChain.{Library}
use lumine_hedge_fund.Security.Anchoring.{
  works, breaks_off, broken_off, worm_sink_write_failed, key_for, AnchorState, Store, returned,
  anchor_error, local_worm, null_worm, head, Environment, maybe_anchor, anchor_lineage, seq_of,
}
use lumine_hedge_fund.Security.Anchoring.Cadence.{anchor_appends, anchor_appends-recent}
use lumine_hedge_fund.Security.Anchoring.Sequence.{store_of, IsSequenced, maybe_anchor-IsSequenced}
use lumine_hedge_fund.Security.Anchoring.Retry.{Call, call, calls, calls-after_error}

abbrev library : Library
library = record {
  sha256_hex = λ b. "0123456789abcdef0123456789abcdef0123456789abcdef0123456789abcdef";
  encode = λ s. [];
  dumps = λ r. [];
  normalized = λ d. "";
  iso_utc = λ t. "2026-01-01T00:00:00Z";
  str = λ v. "1";
}

abbrev lineage : String
lineage = "lineage_records"

abbrev nothing : Store
nothing = record { anchor_state = []; audit_anchors = []; security_events = []; objects = [] }

abbrev moment : ℕ → Environment
moment now = record { now = now; chain_head = head "h1" "r1"; disk = works; database_fails = false }

abbrev failing : Environment
failing = record (moment 0) { database_fails = true }

abbrev state : AnchorState
state = record { last_anchor_seq = 1; last_row_count = 1; last_anchor_ts = some 0 }

abbrev anchored : Store
anchored = store_of (anchor_lineage library null_worm (moment 0) nothing)

first_anchors : lookup lineage anchored.anchor_state ≡ some state
unfolding lookup anchor_lineage insert
first_anchors = refl

soon : (60000000 < 0 + 5 * 60000000) × (240000000 < 0 + 5 * 60000000)
soon = (omega arith, omega arith)

anchor_appends-recent_example :
    anchor_appends library null_worm (moment 60000000 ∷ moment 240000000 ∷ []) anchored
    ≡ returned anchored
anchor_appends-recent_example =
    anchor_appends-recent library null_worm (moment 60000000 ∷ moment 240000000 ∷ []) anchored state
      0 first_anchors refl (soon.0, (soon.1, tt))

empty_IsSequenced : IsSequenced lineage nothing
unfolding seq_of lookup
empty_IsSequenced = refl

maybe_anchor-IsSequenced_example :
    IsSequenced lineage
      (store_of (maybe_anchor library local_worm (moment 0) lineage 1 1000 5 nothing))
maybe_anchor-IsSequenced_example =
    maybe_anchor-IsSequenced library local_worm lineage (moment 0) lineage 1 1000 5 nothing
      empty_IsSequenced

-- A write that breaks off leaves an object behind, and no later call writes it anew.
breaks_off_leaves_file :
    store_of (
      anchor_lineage library local_worm (moment 600000000) (
        store_of
          (anchor_lineage library local_worm (record (moment 0) { disk = breaks_off }) nothing)))
    ≡ record {
      anchor_state = [];
      audit_anchors = [];
      security_events = worm_sink_write_failed lineage 1 ∷ worm_sink_write_failed lineage 1 ∷ [];
      objects = (key_for library lineage 1, broken_off) ∷ [];
    }
unfolding anchor_lineage lookup insert key_for
breaks_off_leaves_file = refl

abbrev first_call : Call
first_call = record { env = failing; row_count = 1; every_n = 1000; every_m = 5 }

abbrev second_call : Call
second_call = record { env = moment 600000000; row_count = 1; every_n = 1000; every_m = 5 }

abbrev left : Store
left = store_of (call library lineage first_call nothing)

first_call_raises : call library lineage first_call nothing ≡ anchor_error left
unfolding call maybe_anchor lookup
first_call_raises = refl

calls-after_error_example :
    ((calls library lineage (second_call ∷ []) left).anchor_state ≡ left.anchor_state)
    × ((calls library lineage (second_call ∷ []) left).audit_anchors ≡ left.audit_anchors)
calls-after_error_example =
    calls-after_error library lineage first_call (second_call ∷ []) nothing left first_call_raises
