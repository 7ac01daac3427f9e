-- ===== src/TradeCore.antt =====
-- The deterministic trading core: backend/src/lumine/trade_core.
pub mod Risk
pub mod Sizing
pub mod Reconciliation
pub mod Tca
pub mod TcaQuality
pub mod Execution
