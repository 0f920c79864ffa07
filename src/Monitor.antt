-- ===== src/Monitor.antt =====
-- `StrategyMonitor` (risk/strategy_monitor.py): profit factor and drawdown of recent trades.
pub mod Metrics
pub mod Drawdown
mod Tests
