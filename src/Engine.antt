-- ===== src/Engine.antt =====
-- The exits of live_trading/live_trading_engine.py: `LiveTradingEngine` closes what the strategies
-- opened, through the order manager.
pub mod Legs
pub mod Course
pub mod CloseOnce
pub mod State
pub mod Spread
pub mod Condor
pub mod Reasons
pub mod Check
pub mod Terms
pub mod Rows
pub mod Entries
pub mod Exclusive
pub mod Events
pub mod Rebuild
pub mod Rebuilt
pub mod Tracked
pub mod Single
pub mod SingleFate
pub mod Reserve
pub mod Leaving
pub mod Rollback
pub mod CondorReserve
mod Samples
mod Tests
mod OpenTests
