-- ===== src/Api.antt =====
-- The HTTP layer: backend/src/lumine/api.
pub mod Envelope
pub mod Idempotency
pub mod ReplayCache
pub mod Auth
pub mod Deque
pub mod Sse
pub mod Streams
