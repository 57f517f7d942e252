-- ===== src/Core.antt =====
-- The crate `core`: events, streams, effects, composition and the event store's vocabulary.
mod Tests
pub mod Stream
pub mod Event
pub mod EventStore
pub mod Effect
pub mod Composition
