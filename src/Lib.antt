-- ===== src/Lib.antt =====
-- Allfeat explorer: an indexer that follows a chain's blocks into a database, and an API that pages
-- through them.
--
-- The parts and how they interact. A live worker appends best blocks to a pending buffer
-- (src/indexer/buffer.rs, Buffer), which finalized heads empty again. Backfill workers share a queue
-- of block ranges in the table backfill_chunks (src/indexer/backfill.rs, Backfill): a planner cuts
-- what is missing into chunks, and workers claim, finish and fail them under leases. What is indexed
-- is read page by page (src/data/indexed/queries, Queries: blocks, extrinsics, transfers, events and
-- the runtime's history), with a cursor text that the client hands back (src/data/cursor.rs, Cursor)
-- and filters that the in-memory path and the database must agree on (src/data/filters.rs, Filters).
-- Rows become blocks of the API (src/domain.rs, Domain), whose addresses and hashes are printed by
-- src/data/ss58.rs (Ss58) and by hex_bytes of src/data/rpc/mappers/common.rs (Hex). Events that move
-- balances become rows of a ledger (src/indexer/projections/balances.rs, Balances; accounts.rs and
-- ats.rs beside it, Projections), streamed items are merged into a list that was loaded before
-- (src/live/merge.rs, Live), and failures become HTTP answers (src/data/error.rs and
-- src/server/api/error.rs, Errors).
--
-- The provider (src/data/indexed/provider.rs, Indexed) joins those pages with what the database does
-- not have yet, from the pending buffer and the RPC provider; the mock provider (src/data/mock.rs,
-- Mock) serves generated data for the networks of src/network.rs (Network). Probes and the status
-- banner (src/server/health.rs, Health) tell how far the indexer is.
--
-- Functions keep their names. Buffer has append_block, advance_finalized and the two lookups;
-- Backfill/Chunks has split_gaps_into_chunks and push_chunked, Backfill/Queue has seed_chunks,
-- claim_chunk, mark_chunk_done and mark_chunk_failed, Backfill/ErrorText has truncate_error;
-- Queries/Blocks has list_blocks_page, list_blocks_page_bounded, rows_to_page and row_to_block; each
-- child of Cursor has one cursor with to_string and from_str, and Cursor/Request has parse_cursor;
-- Balances/Project has project; Live/Merge has merge_live. Queries/Extrinsics, Queries/Transfers and
-- Queries/Events have the queries of their files, Queries/Events/Hydrate has hydrate_events and
-- Queries/Extrinsics/Lookup has parse_lookup; Indexed/Blocks, Indexed/Extrinsics and Indexed/Runtime
-- have the provider's methods. Queries/Pager follows the cursors of any list. The other children hold
-- the proofs.
--
-- How the code is modelled. Integers are natural numbers with the width as a bound, and signed columns
-- are integers with the casts written out (Common/Integers), except the number of a block's own row
-- and the times, which are written from unsigned numbers. Strings are lists of bytes. Mutable state
-- is a record that each call maps to the next one: PendingBuffer for the buffer with its two indexes,
-- the transfers sent and the gauges, Table for the chunk queue, where each SQL statement is one atomic
-- step and a sequence of steps stands for any interleaving of workers. Hash maps are functions to
-- options. Panics and exhausted fuel are `none`; the loop of push_chunked has fuel for one round per
-- block, which is shown to suffice, and a walk through the pages has fuel for one page per row and one
-- more. A query of the database reads the list of a network's rows in the order of its ORDER BY, LIMIT
-- is a prefix of it; the answers of the RPC provider and the generators of the mock are records of
-- functions. Decimal and Text model the standard library's integer parsing and string splitting. The
-- hash, the base58 form, hex::decode_to_slice, the parser of addresses, the decoders of SCALE bytes
-- and the arithmetic of f32 are parameters. Examples applies each theorem once.
--
-- Not modelled: RPC clients and everything that reads subxt values, WebSocket and HTTP wiring, metrics
-- beyond the buffer's, failures of single queries, the ATS and account queries, and the web frontend.
pub mod Common
pub mod Decimal
pub mod Text
pub mod Cursor
pub mod Domain
pub mod Errors
pub mod Backfill
pub mod Ss58
pub mod Buffer
pub mod Balances
pub mod Filters
pub mod Queries
pub mod Hex
pub mod Examples
pub mod Live
pub mod Network
pub mod Indexed
pub mod Health
pub mod Mock
pub mod Projections
