-- ===== src/Security/Anchoring.antt =====
-- backend/src/lumine/security/anchoring.py, with the sinks of worm_local.py and worm_stub.py and the
-- call in backend/src/lumine/data/lineage.py. Times are microseconds. What the database and the disk
-- answer in a call is its environment; a file's bytes are kept as the payload that they encode.
pub mod Sequence
pub mod Cadence
pub mod Retry
mod Tests
use Prim.Native.String.{slice, ◌++◌ as ◌++ₛ◌}
use lumine_hedge_fund.Prelude.{
  ℕ, ◌+◌, ◌*◌, Bool, true, false, ◌&&◌, Option, none, some, List, [], ◌∷◌, String, ltb,
  if◌then◌else◌, Dict, lookup, insert, pos,
}
use lumine_hedge_fund.Security.HashChain.{int, Library}

abbrev pub anchor_every_n_rows : ℕ
anchor_every_n_rows = 1000

abbrev pub anchor_every_m_minutes : ℕ
anchor_every_m_minutes = 5

pub record AnchorState : Type 0 where
  pub last_anchor_seq : ℕ
  pub last_row_count : ℕ
  pub last_anchor_ts : Option ℕ

pub record AnchorPayload : Type 0 where
  pub table_name : String
  pub anchor_seq : ℕ
  pub anchored_hash : String
  pub anchored_row_id : String
  pub row_count : ℕ
  pub anchored_at : String
  pub object_key : String
  pub backend : String

pub record AuditAnchor : Type 0 where
  pub table_name : String
  pub anchor_seq : ℕ
  pub anchored_hash : String
  pub anchored_row_id : String
  pub row_count : ℕ
  pub anchored_at : ℕ
  pub worm_object_key : String
  pub worm_backend : String

-- A file of the local sink: the whole payload, or what a write that broke off left behind.
pub data File : Type 0 where
  whole : AnchorPayload → File
  broken_off : File

-- What the disk does with a new file: it takes it, does not open it, or breaks off writing it.
pub data Disk : Type 0 where
  works refuses breaks_off : Disk

-- A `chain_anchor_break` event, by its reason.
pub data SecurityEvent : Type 0 where
  chain_head_unreadable : String → SecurityEvent
  worm_sink_write_failed : String → ℕ → SecurityEvent

-- The tables `anchor_state`, `audit_anchors` and `security_events`, the last two latest first, and
-- the files of the local sink by object key.
pub record Store : Type 0 where
  pub anchor_state : Dict AnchorState
  pub audit_anchors : List AuditAnchor
  pub security_events : List SecurityEvent
  pub objects : Dict File

pub data WormSink : Type 0 where
  local_worm null_worm : WormSink

unfoldable pub backend_of : WormSink → String
backend_of local_worm = "local_append_only"
backend_of null_worm = "object_lock_stub"

-- What `read_chain_head` answers.
pub data ChainHead : Type 0 where
  unreadable empty : ChainHead
  head : String → String → ChainHead

pub record Environment : Type 0 where
  pub now : ℕ
  pub chain_head : ChainHead
  pub disk : Disk
  pub database_fails : Bool

pub data Stored : Type 0 where
  stored_in : Dict File → Stored
  not_implemented : Stored
  failed : Dict File → Stored

-- `LocalWorm.store`: an object that exists is refused.
unfoldable pub store_local : Option File → Disk → AnchorPayload → Dict File → Stored
store_local (some old) disk payload objects = failed objects
store_local none refuses payload objects = failed objects
store_local none breaks_off payload objects = failed (insert payload.object_key broken_off objects)
store_local none works payload objects =
    stored_in (insert payload.object_key (whole payload) objects)

unfoldable pub worm_store : WormSink → Disk → AnchorPayload → Dict File → Stored
unfolding store_local
worm_store null_worm disk payload objects = not_implemented
worm_store local_worm disk payload objects =
    store_local (lookup payload.object_key objects) disk payload objects

pub data Outcome : Type 0 where
  returned anchor_error : Store → Outcome

unfoldable pub seq_of : Option AnchorState → ℕ
seq_of none = 0
seq_of (some s) = s.last_anchor_seq

unfoldable pub count_of : Option AnchorState → ℕ
count_of none = 0
count_of (some s) = s.last_row_count

-- `minutes_elapsed < anchor_every_m`, false where there is no previous anchor.
unfoldable pub is_recent : ℕ → ℕ → Option ℕ → Bool
is_recent now minutes none = false
is_recent now minutes (some ts) = ltb now (ts + minutes * 60000000)

unfoldable pub ts_of : Option AnchorState → Option ℕ
ts_of none = none
ts_of (some s) = s.last_anchor_ts

unfoldable pub with_event : SecurityEvent → Store → Store
with_event event store = record {
  anchor_state = store.anchor_state;
  audit_anchors = store.audit_anchors;
  security_events = event ∷ store.security_events;
  objects = store.objects;
}

unfoldable pub with_objects : Dict File → Store → Store
with_objects objects store = record {
  anchor_state = store.anchor_state;
  audit_anchors = store.audit_anchors;
  security_events = store.security_events;
  objects = objects;
}

-- `_key_for`: the first 16 characters of the digest, of table and sequence number alone.
unfoldable pub key_for : Library → String → ℕ → String
key_for lib table_name anchor_seq =
    let name = table_name ++ₛ ("\0" ++ₛ lib.str (int (pos anchor_seq))) in
    slice (lib.sha256_hex (lib.encode name)) 0 16 ++ₛ ".anchor.json"

module _ (lib : Library) (worm : WormSink) where
  unfoldable pub anchor_payload : String → ℕ → String → String → ℕ → ℕ → AnchorPayload
  unfolding key_for backend_of
  anchor_payload table_name anchor_seq anchored_hash anchored_row_id row_count now = record {
    table_name = table_name;
    anchor_seq = anchor_seq;
    anchored_hash = anchored_hash;
    anchored_row_id = anchored_row_id;
    row_count = row_count;
    anchored_at = lib.iso_utc now;
    object_key = key_for lib table_name anchor_seq;
    backend = backend_of worm;
  }

  -- The two database writes, which are in the caller's transaction.
  unfoldable pub write_anchor : Environment → AnchorPayload → Store → Outcome
  write_anchor env p store =
      if env.database_fails
      then anchor_error store
      else returned record {
        anchor_state =
            insert p.table_name
              record {
                last_anchor_seq = p.anchor_seq;
                last_row_count = p.row_count;
                last_anchor_ts = some env.now;
              }
              store.anchor_state;
        audit_anchors =
            record {
              table_name = p.table_name;
              anchor_seq = p.anchor_seq;
              anchored_hash = p.anchored_hash;
              anchored_row_id = p.anchored_row_id;
              row_count = p.row_count;
              anchored_at = env.now;
              worm_object_key = p.object_key;
              worm_backend = p.backend;
            }
            ∷ store.audit_anchors;
        security_events = store.security_events;
        objects = store.objects;
      }

  unfoldable pub after_store : Environment → AnchorPayload → Store → Stored → Outcome
  unfolding write_anchor with_event with_objects
  after_store env p store (failed objects) =
      returned
        (with_event (worm_sink_write_failed p.table_name p.anchor_seq) (with_objects objects store))
  after_store env p store not_implemented = write_anchor env p store
  after_store env p store (stored_in objects) = write_anchor env p (with_objects objects store)

  unfoldable pub anchor_head : Environment → String → ℕ → ℕ → Store → ChainHead → Outcome
  unfolding after_store with_event worm_store anchor_payload
  anchor_head env table_name row_count seq store empty = returned store
  anchor_head env table_name row_count seq store unreadable =
      returned (with_event (chain_head_unreadable table_name) store)
  anchor_head env table_name row_count seq store (head hash row_id) =
      let p = anchor_payload table_name seq hash row_id row_count env.now in
      after_store env p store (worm_store worm env.disk p store.objects)

  -- `maybe_anchor`
  unfoldable pub maybe_anchor : Environment → String → ℕ → ℕ → ℕ → Store → Outcome
  unfolding anchor_head seq_of count_of ts_of is_recent
  maybe_anchor env table_name row_count anchor_every_n anchor_every_m store =
      let state = lookup table_name store.anchor_state in
      if ltb row_count (count_of state + anchor_every_n)
        && is_recent env.now anchor_every_m (ts_of state)
      then returned store
      else anchor_head env table_name row_count (seq_of state + 1) store env.chain_head

  -- The call that `write_lineage` makes after each appended row.
  unfoldable pub anchor_lineage : Environment → Store → Outcome
  unfolding maybe_anchor
  anchor_lineage env store =
      maybe_anchor env "lineage_records" 1 anchor_every_n_rows anchor_every_m_minutes store
