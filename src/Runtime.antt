-- ===== src/Runtime.antt =====
-- The crate `runtime`: the store that runs reducers and effects, and what guards its operations.
mod Tests
pub mod Health
pub mod DeadLetterQueue
pub mod Breaker
pub mod AtomicBreaker
pub mod RetryOperation
pub mod Retry
pub mod Metadata
pub mod Store
