-- ===== src/Renewals.antt =====
-- hermes/renewals: the cadence before a policy expires, the lifecycle of a policy, and the executor.
pub mod Cadence
pub mod Lifecycle
pub mod Executor
pub mod Eligibility
pub mod Candidates
pub mod Corrections
