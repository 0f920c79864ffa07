-- ===== src/Paper.antt =====
-- paper_trading/paper_broker.py: `PaperBroker`, the simulated broker.
pub mod Fills
pub mod Positions
pub mod Broker
pub mod Calls
pub mod Effects
pub mod Margin
pub mod Ledger
mod Tests
