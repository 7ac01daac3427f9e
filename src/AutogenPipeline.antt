-- ===== src/AutogenPipeline.antt =====
-- The decision pipeline: backend/src/lumine/autogen_pipeline.
pub mod RiskAssessor
pub mod Stage
pub mod Debate
pub mod Orchestrator
pub mod Backfill
