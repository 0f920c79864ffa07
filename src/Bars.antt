-- ===== src/Bars.antt =====
-- `update_intraday_bar` (core/utils.py): five-minute bars built from live prices.
pub mod Update
pub mod Sound
mod Tests
