-- ===== src/Ticketing.antt =====
-- The ticketing application: examples/ticketing.
pub mod Types
pub mod Inventory
pub mod Payment
