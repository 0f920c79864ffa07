-- ===== src/Orders.antt =====
-- orders/order_manager.py: the lifecycle of orders, between the risk check, the broker and the tables
-- of the database.
pub mod Text
pub mod Store
pub mod Place
pub mod Sync
pub mod Expire
pub mod Outcome
pub mod Refused
pub mod Newest
pub mod Table
pub mod Settled
pub mod SyncKeeps
pub mod PlaceKeeps
pub mod Finished
pub mod Sweep
mod Tests
