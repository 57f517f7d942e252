-- ===== src/Auth.antt =====
-- The authentication crate: auth.
pub mod TokenStore
pub mod RateLimiter
mod Tests
