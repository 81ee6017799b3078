-- ===== src/Live.antt =====
-- src/live: the merge of streamed items into a list.
pub mod Merge
