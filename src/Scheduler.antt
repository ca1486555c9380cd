-- ===== src/Scheduler.antt =====
-- hermes/scheduler: retry and dead-letter, the lease, and the cycle.
pub mod Backoff
pub mod Retry
pub mod Locks
pub mod Runner
mod Tests
