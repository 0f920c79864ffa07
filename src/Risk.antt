-- ===== src/Risk.antt =====
-- risk/risk_manager.py: `RiskManager`, the checks before every order.
pub mod Underlying
pub mod Contract
pub mod Manager
pub mod Validate
pub mod Admission
pub mod Latch
mod Tests
