-- ===== src/AutogenPipeline/Backfill.antt =====
-- The two UPDATE statements of backend/src/lumine/autogen_pipeline/orchestrator.py, `_write_lineage`,
-- on the chained tables of security/hashchain.py.
pub mod Broken
mod Tests
use lumine_hedge_fund.Prelude.{
  Bool, true, false, Option, none, some, List, [], ◌∷◌, String, lookup, insert, contains, str_eq,
  if◌then◌else◌,
}
use lumine_hedge_fund.Security.HashChain.{Value, text, uuid, Row}

-- `values(lineage_id=lineage_id)` on a row that the WHERE clause selects.
unfoldable pub with_lineage : String → Row → Row
with_lineage lineage_id row = insert "lineage_id" (uuid lineage_id) row

unfoldable pub update_where : (Row → Bool) → String → List Row → List Row
unfolding with_lineage
update_where selected lineage_id [] = []
update_where selected lineage_id (row ∷ rows) =
    (if selected row then with_lineage lineage_id row else row)
    ∷ update_where selected lineage_id rows

unfoldable pub is_uuid_in : List String → Option Value → Bool
is_uuid_in ids (some (uuid u)) = contains u ids
is_uuid_in ids _ = false

unfoldable pub is_text : String → Option Value → Bool
is_text s (some (text t)) = str_eq t s
is_text s _ = false

-- `update(ReasoningTrace).where(ReasoningTrace.trace_id.in_(trace_ids))`
unfoldable pub link_traces : List String → String → List Row → List Row
unfolding update_where is_uuid_in
link_traces trace_ids lineage_id rows =
    update_where (λ row. is_uuid_in trace_ids (lookup "trace_id" row)) lineage_id rows

-- `update(WorkflowJournal).where(WorkflowJournal.workflow_id == workflow_id)`
unfoldable pub link_journal : String → String → List Row → List Row
unfolding update_where is_text
link_journal workflow_id lineage_id rows =
    update_where (λ row. is_text workflow_id (lookup "workflow_id" row)) lineage_id rows
