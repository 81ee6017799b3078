-- ===== src/Backfill.antt =====
-- src/indexer/backfill.rs: the decomposition of the missing blocks into chunks, the chunk queue that
-- the workers share, and the error text that the queue keeps.
pub mod Chunks
pub mod Queue
pub mod ErrorText
