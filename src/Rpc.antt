-- ===== src/Rpc.antt =====
-- The command queue: backend/src/lumine/rpc.
pub mod Queue
pub mod Handlers
pub mod Worker
mod Tests
