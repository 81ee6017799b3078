-- ===== src/Indexed/Blocks.antt =====
-- src/data/indexed/provider.rs: `block_by_number` and `latest_blocks`, whose pages join a slice of
-- pending blocks with rows of the database.
use allfeat_explorer.Common.{
  ℕ, ◌+◌, ◌-◌, ◌%◌, ◌^◌, Bool, true, false, ◌&&◌, not, Option, none, some, List, [], ◌∷◌, ◌++◌,
  Bytes, Result, ok, err, ◌>>=◌, ltb, leb, ◌==◌, if◌then◌else◌, length, take, min,
}
use allfeat_explorer.Decimal.{u64_max}
use allfeat_explorer.Domain.{Block, Page, PageRequest, empty_page}
use allfeat_explorer.Errors.{DataError}
use allfeat_explorer.Filters.{BlockFilters}
use allfeat_explorer.Cursor.Block.{BlockCursor, to_string, from_str}
use allfeat_explorer.Cursor.Request.{parse_cursor}
use allfeat_explorer.Network.{ChainCtx}
use allfeat_explorer.Queries.Keyset.{last}
use allfeat_explorer.Queries.Blocks.{list_blocks_page_bounded}
use allfeat_explorer.Queries.Extrinsics.{Codec}
use allfeat_explorer.Indexed.{
  RpcProvider, Tables, IndexedProvider, is_indexed, tables_of, indexed_head_or_zero,
}

abbrev pub ok_value : {A : Type 0} → Result DataError A → Option A
ok_value (ok a) = some a
ok_value (err e) = none

-- The cursor's exclusive bound as an inclusive one, or a bound for a request without a cursor.
abbrev pub below_cursor : Option BlockCursor → ℕ → ℕ
below_cursor none other = other
below_cursor (some c) other = c.block - 1

unfoldable pub pending_upper : Option BlockCursor → Option ℕ → ℕ → ℕ
pending_upper cursor chain_head head =
    below_cursor cursor (elim chain_head [ none ↦ head | some n ↦ n ])

-- The loop over the RPC page, with what is taken so far.
unfoldable pub take_pending : ℕ → ℕ → List Block → List Block → List Block
take_pending count head [] taken = taken
take_pending count head (b ∷ bs) taken =
    let rest = take_pending count head bs (taken ++ b ∷ []) in
    if ltb head b.number
    then if leb count (length (taken ++ b ∷ [])) then taken ++ b ∷ [] else rest
    else taken

abbrev pub cursor_text : Option BlockCursor → Option Bytes
cursor_text none = none
cursor_text (some c) = some (to_string c)

unfoldable pub skips_pending : BlockFilters → Bool
skips_pending filters = elim filters.finalized [ none ↦ false | some finalized ↦ finalized ]

unfoldable pub pending_slice :
    RpcProvider
    → PageRequest
    → Option BlockCursor
    → BlockFilters
    → ℕ
    → ℕ
    → Result DataError (List Block)
unfolding take_pending
pending_slice rpc req cursor filters upper head =
    if ltb head upper && not (skips_pending filters)
    then (do
      rpc_page ←
          rpc.latest_blocks (record { count = req.count; cursor = cursor_text cursor }) filters
      ok (take_pending req.count head rpc_page.items []))
    else ok []

-- `items.last().map(|b| BlockCursor { block: b.number }.to_string())`
unfoldable pub last_cursor : List Block → Option Bytes
last_cursor items = elim (last items) [
  | none ↦ none
  | some b ↦ some (to_string (record { block = b.number }))
]

-- The items, `has_more` and the next cursor.
pub record Merged : Type 0 where
  pub items : List Block
  pub has_more : Bool
  pub next_cursor : Option Bytes

-- The pending blocks with the rows of a database page, of which at most `need` are shown.
unfoldable pub top_up : List Block → ℕ → Page Block → Merged
unfolding last_cursor
top_up pending need db_page =
    if ltb need (length db_page.items)
    then record {
      items = pending ++ take need db_page.items;
      has_more = true;
      next_cursor = last_cursor (take need db_page.items);
    }
    else record {
      items = pending ++ db_page.items;
      has_more = db_page.page_info.has_more;
      next_cursor = db_page.page_info.next_cursor;
    }

-- The page that the pending blocks fill.
unfoldable pub filled : List Block → ℕ → ℕ → Merged
unfolding last_cursor
filled pending upper head =
    if ltb 0 head && ltb head upper
    then record { items = pending; has_more = true; next_cursor = last_cursor pending }
    else record { items = pending; has_more = false; next_cursor = none }

-- `total: chain_head.map(|h| h + 1)`, which wraps at 64 bits.
abbrev pub total_of : Option ℕ → Option ℕ
total_of none = none
total_of (some h) = some ((h + 1) % 2 ^ 64)

unfoldable pub page_of : Option ℕ → Merged → Page Block
page_of chain_head merged = record {
  items = merged.items;
  page_info = record {
    total = total_of chain_head;
    next_cursor = merged.next_cursor;
    has_more = merged.has_more;
  };
}

module _ (codec : Codec) (self : IndexedProvider) (ctx : ChainCtx) where
  -- The page of the database below both heads; the probe is a `u32`.
  unfoldable pub db_page_of : Tables → ℕ → Option BlockCursor → BlockFilters → ℕ → Page Block
  db_page_of tables need cursor filters head =
      list_blocks_page_bounded codec.blake2b512 codec.to_base58 tables.blocks ((need + 1) % 2 ^ 32)
        none (some (min head (below_cursor cursor u64_max))) filters ctx.spec.ss58_prefix

  unfoldable pub merge_pages :
      Tables → PageRequest → Option BlockCursor → BlockFilters → List Block → ℕ → ℕ → Merged
  unfolding top_up filled db_page_of
  merge_pages tables req cursor filters pending upper head =
      let need = req.count - length pending in
      if ltb 0 need
      then top_up pending need (db_page_of tables need cursor filters head)
      else filled pending upper head

  unfoldable pub latest_blocks : PageRequest → BlockFilters → Result DataError (Page Block)
  latest_blocks req filters =
      if not (is_indexed self ctx)
      then self.rpc.latest_blocks req filters
      else if req.count == 0
      then ok empty_page
      else (do
        cursor ← parse_cursor from_str req
        tables ← tables_of self ctx
        let head = indexed_head_or_zero tables
        let upper = pending_upper cursor (ok_value self.rpc.head_block) head
        pending ← pending_slice self.rpc req cursor filters upper head
        ok (
            page_of (ok_value self.rpc.head_block)
              (merge_pages tables req cursor filters pending upper head)))

  -- What the database has first, and the RPC provider's answer otherwise.
  unfoldable pub block_by_number : ℕ → Result DataError (Option Block)
  block_by_number number =
      if not (is_indexed self ctx) then self.rpc.block_by_number number else (do
        tables ← tables_of self ctx
        elim (allfeat_explorer.Queries.Blocks.block_by_number codec.blake2b512 codec.to_base58
            tables.blocks number ctx.spec.ss58_prefix) [
              | none ↦ self.rpc.block_by_number number
              | some block ↦ ok (some block)
            ])
