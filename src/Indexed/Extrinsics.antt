-- ===== src/Indexed/Extrinsics.antt =====
-- src/data/indexed/provider.rs: `extrinsics_in_block`, `latest_extrinsics`, whose pages join a slice of
-- the pending buffer with rows of the database, and `extrinsic_by_id`.
use allfeat_explorer.Common.{
  ℕ, ◌-◌, Bool, true, false, ◌&&◌, not, Option, none, some, List, [], ◌∷◌, ◌++◌, Bytes, Result, ok,
  ◌>>=◌, ltb, leb, ◌==◌, if◌then◌else◌, length, reverse, find,
}
use allfeat_explorer.Common.Maps.{pair_lt}
use allfeat_explorer.Domain.{Extrinsic, Page, PageRequest, empty_page}
use allfeat_explorer.Errors.{DataError}
use allfeat_explorer.Filters.{ExtrinsicFilters, extrinsic_matches_filters}
use allfeat_explorer.Buffer.{
  BufferedBlock, PendingBuffer, extrinsic_by_block_idx, extrinsic_by_hash,
}
use allfeat_explorer.Cursor.Extrinsic.{ExtrinsicCursor, from_str}
use allfeat_explorer.Cursor.Request.{parse_cursor}
use allfeat_explorer.Network.{ChainCtx}
use allfeat_explorer.Queries.Extrinsics.{
  Codec, cursor_of, list_extrinsics_page_bounded, next_cursor,
}
use allfeat_explorer.Queries.Extrinsics.Lookup.{ExtrinsicLookup, block_idx, hash, parse_lookup}
use allfeat_explorer.Indexed.{
  Tables, IndexedProvider, is_indexed, buffer_for, tables_of, indexed_head_or_zero,
}

abbrev pub place_of : Extrinsic → ℕ × ℕ
place_of ext = (ext.block_number, ext.index)

-- The timestamp inherent, which the loop skips.
abbrev pub skipped : Extrinsic → Bool
skipped ext = (ext.index == 0) && not ext.signed

-- `(ext.block_number, ext.index) >= (c.block, c.index)`
abbrev pub past_cursor : Option ExtrinsicCursor → Extrinsic → Bool
past_cursor none ext = false
past_cursor (some c) ext = not (pair_lt (place_of ext) (c.block, c.index))

-- The blocks newest first, and each block's extrinsics from the last one on.
unfoldable pub newest_first : List BufferedBlock → List Extrinsic
newest_first [] = []
newest_first (b ∷ bs) = newest_first bs ++ reverse b.extrinsics

-- What the loop over the buffer leaves: the items, and the row it reached last.
pub record Buffered : Type 0 where
  pub items : List Extrinsic
  pub last_buffered : Option (ℕ × ℕ)

module _ (count : ℕ) (cursor : Option ExtrinsicCursor) (filters : ExtrinsicFilters) where
  unfoldable pub scan_buffer : List Extrinsic → Buffered → Buffered
  scan_buffer [] found = found
  scan_buffer (ext ∷ rest) found = elim (skipped ext) [
    | true ↦ scan_buffer rest found
    | false ↦ elim (past_cursor cursor ext) [
      | true ↦ scan_buffer rest found
      | false ↦ elim (extrinsic_matches_filters ext filters) [
        | false ↦ scan_buffer rest (record found { last_buffered = some (place_of ext) })
        | true ↦ elim (leb count (length found.items)) [
          | true ↦ record found { last_buffered = some (place_of ext) }
          | false ↦
              scan_buffer rest
                (record { items = found.items ++ ext ∷ []; last_buffered = some (place_of ext) })
        ]
      ]
    ]
  ]

  -- The slice of the network's buffer, where it has one.
  unfoldable pub buffered_slice : Option PendingBuffer → Buffered
  unfolding newest_first
  buffered_slice none = record { items = []; last_buffered = none }
  buffered_slice (some buffer) =
      scan_buffer (newest_first buffer.blocks) (record { items = []; last_buffered = none })

-- `last_buffered.or_else(|| cursor.map(|c| (c.block, c.index)))`
abbrev pub bound_of : Option (ℕ × ℕ) → Option ExtrinsicCursor → Option (ℕ × ℕ)
bound_of none none = none
bound_of none (some c) = some (c.block, c.index)
bound_of (some k) cursor = some k

-- The page that the buffer fills, which goes on where the probe finds a row.
unfoldable pub filled : List Extrinsic → Page Extrinsic → Page Extrinsic
filled items probe =
    let more = ltb 0 (length probe.items) in
    record {
      items = items;
      page_info = record { total = none; next_cursor = next_cursor more items; has_more = more };
    }

-- The next cursor of the database's page, or the one of the last item where it has none.
abbrev pub cursor_or_last : Bool → Option Bytes → List Extrinsic → Option Bytes
cursor_or_last more (some text) items = some text
cursor_or_last more none items = next_cursor more items

unfoldable pub topped_up : List Extrinsic → Page Extrinsic → Page Extrinsic
topped_up buffered db_page =
    let items = buffered ++ db_page.items in
    let more = db_page.page_info.has_more in
    record {
      items = items;
      page_info = record {
        total = none;
        next_cursor = cursor_or_last more db_page.page_info.next_cursor items;
        has_more = more;
      };
    }

-- The extrinsics of a buffered block above the finalized head.
unfoldable pub buffered_block : Option PendingBuffer → ℕ → Option (List Extrinsic)
buffered_block none block = none
buffered_block (some buffer) block =
    if ltb buffer.finalized_head block
    then elim (find (λ (b : BufferedBlock). b.number == block) (reverse buffer.blocks)) [
      | none ↦ none
      | some b ↦ some b.extrinsics
    ]
    else none

-- The buffer's answer to a lookup.
unfoldable pub buffered_extrinsic : Option PendingBuffer → ExtrinsicLookup → Option Extrinsic
buffered_extrinsic none lookup = none
buffered_extrinsic (some buffer) (block_idx block idx) = extrinsic_by_block_idx buffer block idx
buffered_extrinsic (some buffer) (hash h) = extrinsic_by_hash buffer h

module _ (codec : Codec) (self : IndexedProvider) (ctx : ChainCtx) where
  -- The page of the database below the bound.
  unfoldable pub db_page :
      Tables → ℕ → Option (ℕ × ℕ) → ExtrinsicFilters → Result DataError (Page Extrinsic)
  db_page tables count bound filters =
      list_extrinsics_page_bounded codec ctx.spec.ss58_prefix tables.events tables.extrinsics
        (record { count = count; cursor = none }) bound filters

  unfoldable pub merge_page :
      Tables
      → ℕ
      → Option ExtrinsicCursor
      → ExtrinsicFilters
      → Buffered
      → Result DataError (Page Extrinsic)
  unfolding db_page
  merge_page tables count cursor filters found =
      if leb count (length found.items)
      then (do
        probe ← db_page tables 1 (bound_of found.last_buffered cursor) filters
        ok (filled found.items probe))
      else (do
        page ←
            db_page tables (count - length found.items) (bound_of found.last_buffered cursor)
              filters
        ok (topped_up found.items page))

  unfoldable pub latest_extrinsics :
      PageRequest → ExtrinsicFilters → Result DataError (Page Extrinsic)
  latest_extrinsics req filters =
      if not (is_indexed self ctx)
      then self.rpc.latest_extrinsics req filters
      else if req.count == 0
      then ok empty_page
      else (do
        cursor ← parse_cursor from_str req
        tables ← tables_of self ctx
        merge_page tables req.count cursor filters
            (buffered_slice req.count cursor filters (buffer_for self ctx)))

  -- The rows of the database, or the RPC provider's answer for a block above the indexed head.
  unfoldable pub db_block : Tables → ℕ → List Extrinsic → Result DataError (List Extrinsic)
  db_block tables block [] =
      if ltb (indexed_head_or_zero tables) block then self.rpc.extrinsics_in_block block else ok []
  db_block tables block (row ∷ rows) = ok (row ∷ rows)

  unfoldable pub extrinsics_in_block : ℕ → Result DataError (List Extrinsic)
  extrinsics_in_block block =
      if not (is_indexed self ctx)
      then self.rpc.extrinsics_in_block block
      else elim (buffered_block (buffer_for self ctx) block) [
        | some extrinsics ↦ ok extrinsics
        | none ↦ do
          tables ← tables_of self ctx
          db_block tables block (
              allfeat_explorer.Queries.Extrinsics.extrinsics_in_block codec ctx.spec.ss58_prefix
                tables.events tables.extrinsics block)
      ]

  -- The database's answer; a position above the indexed head is asked of the RPC provider.
  unfoldable pub stored_extrinsic :
      Tables → Bytes → ExtrinsicLookup → Result DataError (Option Extrinsic)
  stored_extrinsic tables id (block_idx block idx) =
      elim (allfeat_explorer.Queries.Extrinsics.extrinsic_by_block_idx codec ctx.spec.ss58_prefix
        tables.events tables.extrinsics block idx) [
          | some ext ↦ ok (some ext)
          | none ↦
              if ltb (indexed_head_or_zero tables) block
              then self.rpc.extrinsic_by_id id
              else ok none
        ]
  stored_extrinsic tables id (hash h) = ok (
      allfeat_explorer.Queries.Extrinsics.extrinsic_by_hash codec ctx.spec.ss58_prefix tables.events
        tables.extrinsics h)

  -- A lookup is answered by the buffer first.
  unfoldable pub resolve : Bytes → ExtrinsicLookup → Result DataError (Option Extrinsic)
  unfolding buffered_extrinsic stored_extrinsic
  resolve id lookup = elim (buffered_extrinsic (buffer_for self ctx) lookup) [
    | some ext ↦ ok (some ext)
    | none ↦ do tables ← tables_of self ctx; stored_extrinsic tables id lookup
  ]

  unfoldable pub extrinsic_by_id : Bytes → Result DataError (Option Extrinsic)
  extrinsic_by_id id =
      if not (is_indexed self ctx)
      then self.rpc.extrinsic_by_id id
      else elim (parse_lookup codec.decode_to_slice id) [
        | none ↦ ok none
        | some lookup ↦ resolve id lookup
      ]
