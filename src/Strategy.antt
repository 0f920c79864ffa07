-- ===== src/Strategy.antt =====
-- strategies/ and market_data/regime_detector.py: which strategy enters, and which may run.
pub mod Premium
pub mod Registry
pub mod Regime
mod Tests
