-- ===== src/Zerodha.antt =====
-- brokers/zerodha.py: orders sent to Kite Connect, which has no idempotency of its own.
pub mod Place
pub mod Once
mod Tests
