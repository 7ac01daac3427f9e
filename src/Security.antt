-- ===== src/Security.antt =====
-- The tamper-evident audit trail: backend/src/lumine/security.
pub mod HashChain
pub mod Verifier
pub mod Anchoring
pub mod Toy
