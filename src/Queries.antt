-- ===== src/Queries.antt =====
-- src/data/indexed/queries: the paginated reads of the indexed provider. A query is modelled over the
-- network's rows in the order of its `ORDER BY`; `WHERE` is a test and `LIMIT` a prefix.
pub mod Keyset
pub mod Pager
pub mod Blocks
pub mod Events
pub mod Extrinsics
pub mod Runtime
pub mod Transfers
