-- ===== src/LlmGateway.antt =====
-- The gateway to the language models: backend/src/lumine/llm_gateway.
pub mod Tiers
pub mod Budget
pub mod Fallback
pub mod Registry
pub mod Complete
mod Tests
