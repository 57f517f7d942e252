-- ===== src/Testing.antt =====
-- The crate `testing`: in-memory implementations of the event store and the event bus.
pub mod EventStore
pub mod EventBus
