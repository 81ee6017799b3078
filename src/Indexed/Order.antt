-- ===== src/Indexed/Order.antt =====
-- src/data/indexed/provider.rs: the order of the pages of `latest_blocks`.
use allfeat_explorer.Common.{
  ℕ, ◌-◌, ◌+◌, ◌%◌, ◌^◌, ◌<◌, ◌≡◌, ◌⊎◌, refl, sym, subst, true, ◌&&◌, not, Option, some, List, [],
  arith, ltb, length, All, Bool-cases, inl, inr, ok, err, ne→==, min,
}
use allfeat_explorer.Decimal.{u64_max}
use allfeat_explorer.Domain.{Block, Page, PageRequest}
use allfeat_explorer.Errors.{DataError}
use allfeat_explorer.Filters.{BlockFilters}
use allfeat_explorer.Cursor.Block.{BlockCursor, from_str}
use allfeat_explorer.Cursor.Request.{parse_cursor, Result-cases}
use allfeat_explorer.Network.{ChainCtx}
use allfeat_explorer.Queries.Keyset.{IsDescending, IsDescending-take}
use allfeat_explorer.Queries.Blocks.{BlockRow}
use allfeat_explorer.Queries.Extrinsics.{Codec}
use allfeat_explorer.Indexed.{
  RpcProvider, Tables, IndexedProvider, is_indexed, tables_of, indexed_head_or_zero,
}
use allfeat_explorer.Indexed.Blocks.{
  ok_value, below_cursor, take_pending, skips_pending, cursor_text, pending_slice, pending_upper,
  db_page_of, merge_pages, page_of, latest_blocks,
}
use allfeat_explorer.Indexed.Seam.{
  number_of, Ordered, IsSeam, IsPage, take_pending-prefix, head_or_zero-All, bounded-IsBelow,
  top_up-IsPage, filled-items,
}

-- The request that the pending window is asked with.
abbrev pub pending_request : PageRequest → Option BlockCursor → PageRequest
pending_request req cursor = record { count = req.count; cursor = cursor_text cursor }

module _ (rpc : RpcProvider) (req : PageRequest) (cursor : Option BlockCursor)
    (filters : BlockFilters) (upper head : ℕ) (some_rows : 0 < req.count) where
  taken-IsSeam :
      (bs : List Block) → Ordered bs → IsSeam req.count head (take_pending req.count head bs [])
  taken-IsSeam bs d =
      let (k, e, high, few) = take_pending-prefix req.count head bs [] some_rows in
      record {
        order = subst Ordered (sym e) (IsDescending-take number_of ltb k bs d);
        above = subst (All (λ b. head < b.number)) (sym e) high;
        few = few;
      }

  -- The pending slice, or the error of the RPC provider.
  slice-cases :
      ((page : Page Block)
        → rpc.latest_blocks (pending_request req cursor) filters ≡ ok page
        → Ordered page.items)
      → ((pending : List Block) × (pending_slice rpc req cursor filters upper head ≡ ok pending)
          × IsSeam req.count head pending)
        ⊎ ((e : DataError) × (rpc.latest_blocks (pending_request req cursor) filters ≡ err e)
            × (pending_slice rpc req cursor filters upper head ≡ err e))
  unfolding pending_slice
  slice-cases ordered = elim (Bool-cases (ltb head upper && not (skips_pending filters))) [
    | inr shut ↦ inl ([], rw (shut) refl, record { order = tt; above = tt; few = omega arith })
    | inl reached ↦ elim (Result-cases (rpc.latest_blocks (pending_request req cursor) filters)) [
      | inl (page, answered) ↦ inl (
        take_pending req.count head page.items [],
        rw (reached, answered) refl,
        taken-IsSeam page.items (ordered page answered),
      )
      | inr (e, failed) ↦ inr (e, failed, rw (reached, failed) refl)
    ]
  ]

module _ (codec : Codec) (self : IndexedProvider) (ctx : ChainCtx) (tables : Tables)
    (req : PageRequest) (cursor : Option BlockCursor) (filters : BlockFilters)
    (descending : IsDescending (λ (row : BlockRow). row.num) ltb tables.blocks) where
  merge-IsPage :
      (pending : List Block) (upper : ℕ)
      → IsSeam req.count (indexed_head_or_zero tables) pending
      → IsPage req.count
          (merge_pages codec self ctx tables req cursor filters pending upper
            (indexed_head_or_zero tables)).items
  unfolding merge_pages db_page_of
  merge-IsPage pending upper seam =
      let head = indexed_head_or_zero tables in
      let need = req.count - length pending in
      elim (Bool-cases (ltb 0 need)) [
        | inl h ↦ rw (h) (
            top_up-IsPage req.count head pending
              (db_page_of codec self ctx tables need cursor filters head) seam
              (bounded-IsBelow codec ctx.spec.ss58_prefix head ((need + 1) % 2 ^ 32) tables.blocks
                (some (min head (below_cursor cursor u64_max))) filters descending
                (head_or_zero-All tables)))
        | inr h ↦ rw (h) (
            subst (IsPage req.count) (sym (filled-items pending upper head))
              (record { order = seam.order; few = seam.few }))
      ]

  -- A page of the block list of an indexed network has at most `count` blocks, in strictly descending
  -- order across the seam between pending and stored blocks, so that it shows no block twice; only an
  -- error of the RPC provider, asked for the pending blocks, takes its place. The page size is above
  -- zero, the cursor is read, the tables are there with blocks in strictly descending order, and the
  -- RPC provider lists blocks in that order.
  pub latest_blocks-IsPage :
      is_indexed self ctx ≡ true
      → 0 < req.count
      → parse_cursor from_str req ≡ ok cursor
      → tables_of self ctx ≡ ok tables
      → ((page : Page Block)
          → self.rpc.latest_blocks (pending_request req cursor) filters ≡ ok page
          → Ordered page.items)
      → ((page : Page Block) × (latest_blocks codec self ctx req filters ≡ ok page)
          × IsPage req.count page.items)
        ⊎ ((e : DataError) × (self.rpc.latest_blocks (pending_request req cursor) filters ≡ err e)
            × (latest_blocks codec self ctx req filters ≡ err e))
  unfolding latest_blocks page_of
  latest_blocks-IsPage indexed p parsed opened ordered =
      let head = indexed_head_or_zero tables in
      let upper = pending_upper cursor (ok_value self.rpc.head_block) head in
      let positive = ne→== req.count 0 (λ e. omega (arith, e, p)) in
      elim (slice-cases self.rpc req cursor filters upper head p ordered) [
        | inl (pending, sliced, seam) ↦ inl (
          page_of (ok_value self.rpc.head_block)
              (merge_pages codec self ctx tables req cursor filters pending upper head),
          rw (indexed, positive, parsed, opened, sliced) refl,
          merge-IsPage pending upper seam,
        )
        | inr (e, failed, sliced) ↦
            inr (e, failed, rw (indexed, positive, parsed, opened, sliced) refl)
      ]
