-- ===== src/Trading.antt =====
-- The live connection to the broker: backend/src/lumine/trading.
pub mod PositionSync
pub mod Mt5Bridge
