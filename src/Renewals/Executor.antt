-- ===== src/Renewals/Executor.antt =====
-- hermes/renewals/executor.py: approved renewal instructions, and their execution against the AMS.
pub mod Instruction
pub mod Calls
pub mod Finish
pub mod Pipeline
pub mod Process
pub mod Steps
pub mod Writes
pub mod Instructed
pub mod Authority
pub mod Filing
pub mod Receipts
pub mod Runs
pub mod Counts
pub mod Proofs
pub mod Verified
pub mod Previews
mod Tests
