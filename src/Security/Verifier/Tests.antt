-- ===== src/Security/Verifier/Tests.antt =====
-- The chain of hashchain.py and verifier.py with a toy library.
use lumine_hedge_fund.Prelude.{
  ℕ, ◌≡◌, ◌⊎◌, ◌↔◌, refl, true, none, some, List, [], ◌∷◌, String, erase, insert, lookup,
}
use lumine_hedge_fund.Security.Toy.{points, points-injective, odd_digest, digest, digest_size}
use lumine_hedge_fund.Security.HashChain.{
  Value, text, Row, Library, append_chained, genesis_prev_hash, compute_chain_pair,
  canonicalize_row, canonicalize_value, column,
}
use lumine_hedge_fund.Security.Verifier.{
  ChainedTable, chained_tables, find_table, VerificationResult, valid, start, verify_rows,
  row_failures, is_version, out_of_order,
}
use lumine_hedge_fund.Security.Verifier.Linked.{IsChain, verify_rows-valid_iff}
use lumine_hedge_fund.Security.Verifier.Tamper.{Collision, SameRows, verify_rows-tamper_evident}
use lumine_hedge_fund.Security.Verifier.Appended.{append_chained-valid}

text_of : Value → String
text_of (text s) = s
text_of v = "?"

dumped : Row → List ℕ
dumped [] = []
dumped ((k, v) ∷ row) = 0 ∷ dumped row

abbrev library : Library
library = record {
  sha256_hex = digest;
  encode = points;
  dumps = dumped;
  normalized = λ d. "";
  iso_utc = λ t. "";
  str = text_of;
}

abbrev journal : ChainedTable
journal = record { table_name = "workflow_journal"; order_column = "ts"; pk_column = "id" }

abbrev first_row : Row
first_row = ("id", text "j1") ∷ ("ts", text "2026-01-01") ∷ []

abbrev one_row : List Row
one_row =
    (("id", text "j1")
      ∷ ("ts", text "2026-01-01")
      ∷ ("prev_hash", text odd_digest)
      ∷ ("self_hash", text odd_digest)
      ∷ [])
    ∷ []

abbrev empty_result : VerificationResult
empty_result = record {
  table_name = "workflow_journal";
  row_count = 0;
  head_hash = none;
  failures = [];
}

empty_verifies : verify_rows library journal [] ≡ some empty_result
unfolding verify_rows
empty_verifies = refl

first_appends : append_chained library [] first_row ≡ some one_row
unfolding digest points dumped text_of append_chained canonicalize_row erase insert
    canonicalize_value
first_appends = refl

abbrev one_result : VerificationResult
one_result = record {
  table_name = "workflow_journal";
  row_count = 1;
  head_hash = some odd_digest;
  failures = [];
}

one_row_verifies : verify_rows library journal one_row ≡ some one_result
unfolding digest points dumped text_of verify_rows compute_chain_pair canonicalize_row erase insert
    canonicalize_value column row_failures lookup is_version out_of_order genesis_prev_hash
one_row_verifies = refl

verify_rows-valid_iff_example :
    ((r : VerificationResult) × (verify_rows library journal one_row ≡ some r) × (valid r ≡ true))
    ↔ IsChain library journal (start library journal) one_row
verify_rows-valid_iff_example = verify_rows-valid_iff library journal one_row

verify_rows-tamper_evident_example :
    SameRows library journal (start library journal) one_row (start library journal) one_row
    ⊎ Collision library
unfolding valid
verify_rows-tamper_evident_example =
    verify_rows-tamper_evident library digest_size points-injective journal one_row one_row
      one_result one_result one_row_verifies one_row_verifies refl refl refl refl

str-text : (s : String) → library.str (text s) ≡ s
unfolding text_of
str-text s = refl

abbrev workflow_journal : String
workflow_journal = "workflow_journal"

journal_known : find_table workflow_journal chained_tables ≡ some journal
unfolding find_table
journal_known = refl

append_chained-valid_example :
    (r : VerificationResult) × (verify_rows library journal one_row ≡ some r) × (valid r ≡ true)
unfolding valid is_version lookup out_of_order start
append_chained-valid_example =
    append_chained-valid library str-text workflow_journal journal [] one_row first_row empty_result
      journal_known empty_verifies refl first_appends refl refl
