-- ===== src/Balances.antt =====
-- src/indexer/projections/balances.rs: the movements of balances that a block's events project to.
pub mod Kinds
pub mod Events
pub mod Project
pub mod Shape
pub mod Ledger
pub mod Entries
pub mod Records
