-- ===== src/Commissions.antt =====
-- hermes/commissions: the rollup of statement lines onto ledger rows, and their matching.
pub mod Reconcile
pub mod Matching
pub mod Statements
