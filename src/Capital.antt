-- ===== src/Capital.antt =====
-- portfolio/capital_periods.py: capital periods from expiry to expiry, and their rollover.
pub mod Store
pub mod Rollover
pub mod Loop
pub mod Laws
mod Tests
