-- ===== src/Projections.antt =====
-- src/indexer/projections: the accounts that a block touches and the operations on its ATS events.
pub mod Accounts
pub mod Touched
pub mod Ats
pub mod Versions
