-- ===== src/AutogenPipeline/Backfill/Tests.antt =====
-- One checkpoint of a workflow, before and after the UPDATE of orchestrator.py.
use lumine_hedge_fund.Prelude.{
  ℕ, ◌≡◌, ◌⊎◌, inl, refl, false, some, Option, List, [], ◌∷◌, String, lookup, insert, erase,
}
use lumine_hedge_fund.Security.Toy.{
  points, points-injective, odd_digest, even_digest, digest, digest_size,
}
use lumine_hedge_fund.Security.HashChain.{
  Value, null, text, Row, Library, compute_chain_pair, canonicalize_row, canonicalize_value, column,
  genesis_prev_hash,
}
use lumine_hedge_fund.Security.Verifier.{
  ChainedTable, VerificationResult, valid, verify_rows, row_failures, self_hash_mismatch,
  is_version, out_of_order,
}
use lumine_hedge_fund.Security.Verifier.Tamper.{Collision}
use lumine_hedge_fund.AutogenPipeline.Backfill.{link_journal, link_traces}
use lumine_hedge_fund.AutogenPipeline.Backfill.Broken.{TellsNull, link_journal-broken}

abbrev null_code : Option Value → List ℕ
null_code (some null) = 0 ∷ []
null_code _ = 0 ∷ 0 ∷ []

text_of : Value → String
text_of (text s) = s
text_of v = "?"

abbrev library : Library
library = record {
  sha256_hex = digest;
  encode = points;
  dumps = λ (row : Row). null_code (lookup "lineage_id" row);
  normalized = λ d. "";
  iso_utc = λ t. "";
  str = text_of;
}

tells_null : TellsNull library
tells_null a b s e f same = let h = rw (e, f) at same in cc

abbrev journal : ChainedTable
journal = record { table_name = "workflow_journal"; order_column = "ts"; pk_column = "id" }

abbrev checkpoint : Value → Row
checkpoint lineage =
    ("id", text "j1")
    ∷ ("ts", text "2026-01-01")
    ∷ ("workflow_id", text "w1")
    ∷ ("lineage_id", lineage)
    ∷ ("prev_hash", text odd_digest)
    ∷ ("self_hash", text odd_digest)
    ∷ []

abbrev before : VerificationResult
before = record {
  table_name = "workflow_journal";
  row_count = 1;
  head_hash = some odd_digest;
  failures = [];
}

verifies : verify_rows library journal (checkpoint null ∷ []) ≡ some before
unfolding digest points text_of verify_rows compute_chain_pair canonicalize_row erase insert
    canonicalize_value column row_failures lookup is_version out_of_order genesis_prev_hash
verifies = refl

abbrev after : VerificationResult
after = record before { failures = self_hash_mismatch 1 even_digest odd_digest ∷ [] }

linked_fails :
    verify_rows library journal (link_journal "w1" "l1" (checkpoint null ∷ [])) ≡ some after
unfolding digest points text_of verify_rows compute_chain_pair canonicalize_row erase insert
    canonicalize_value column row_failures lookup is_version out_of_order genesis_prev_hash
    link_journal
linked_fails = refl

other_trace : link_traces ("t1" ∷ []) "l1" (checkpoint null ∷ []) ≡ checkpoint null ∷ []
unfolding link_traces lookup
other_trace = refl

link_journal-broken_example : (valid after ≡ false) ⊎ Collision library
unfolding valid lookup
link_journal-broken_example =
    link_journal-broken library digest_size points-injective tells_null journal "w1" "l1"
      (checkpoint null ∷ []) before after verifies refl (inl (refl, refl)) linked_fails
