-- ===== src/Commissions/Statements.antt =====
-- hermes/commissions/statements.py: uploaded statements, from their rows to the ledger.
pub mod Parse
pub mod Rows
pub mod Batches
pub mod Commit
pub mod Gate
pub mod Ledger
pub mod Posting
mod Tests
