-- ===== src/Core.antt =====
-- The small shared parts of core/: retry policy, messages and channels, the final status, and the
-- receive-side idempotency cache.
pub mod Retry
pub mod Messages
pub mod Status
pub mod Idempotency
pub mod Delays
