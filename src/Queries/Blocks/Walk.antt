-- ===== src/Queries/Blocks/Walk.antt =====
-- A client that follows `next_cursor` from page to page, over src/data/indexed/queries/blocks.rs.
use allfeat_explorer.Common.{
  ℕ, zero, suc, ◌^◌, ◌<◌, ◌≡◌, refl, sym, ap, subst, ◌∙◌, true, false, Option, none, some, List, [],
  map, Bytes, arith, ltb, ◌==◌, if◌then◌else◌, keep, take, length, All, Bool-cases, inl, inr,
  Result, ok,
}
use allfeat_explorer.Common.Keeping.{
  keep-ext, keep-none, keep-map, keep-always, length-keep, All-keep,
}
use allfeat_explorer.Common.Members.{All-In}
use allfeat_explorer.Decimal.{u32_max}
use allfeat_explorer.Domain.{Block, Page, PageRequest, empty_page}
use allfeat_explorer.Errors.{DataError}
use allfeat_explorer.Filters.{BlockFilters, block_matches_filters}
use allfeat_explorer.Cursor.Block.{BlockCursor, to_string, from_str, block_round_trip}
use allfeat_explorer.Cursor.Request.{parse_cursor, as_cursor}
use allfeat_explorer.Queries.Keyset.{
  truncate-probe, has_more-probe, IsDescending, IsDescending-keep, rest_below,
}
use allfeat_explorer.Queries.Pager.{walk, walk-last, walk_all, IsPageOf, IsMet, cursor_text, window}
use allfeat_explorer.Queries.Blocks.{
  BlockRow, num_bound, within_bound, enough_extrinsics, is_excluded, next_cursor, row_to_block,
  rows_to_page, list_blocks_page_bounded, list_blocks_page,
}
use allfeat_explorer.Queries.Blocks.Window.{
  cursor_bound, FitsInt, IsCounted, fetched, bounded-fetched, to_block, matches, matches-excluded,
  bounded-excluded, keep-matches,
}

abbrev num_of : BlockRow → ℕ
num_of row = row.num

abbrev num_text : ℕ → Bytes
num_text n = to_string (record { block = n })

-- The page that is cut from the rows with the probe for one more.
page-IsPageOf :
    (blake2b512 : Bytes → Bytes) (to_base58 : Bytes → Bytes) (ss58_prefix count : ℕ)
    (ys : List BlockRow)
    → IsPageOf num_of num_text
        (row_to_block blake2b512 to_base58 ss58_prefix)
        count
        ys
        (rows_to_page blake2b512 to_base58 (take (suc count) ys) count ss58_prefix)
unfolding rows_to_page next_cursor
page-IsPageOf blake2b512 to_base58 ss58_prefix count ys = record {
  items = ap (map (row_to_block blake2b512 to_base58 ss58_prefix)) (truncate-probe count ys);
  ends = λ h. rw (has_more-probe count ys, h) refl;
  goes_on = λ r h l. rw (has_more-probe count ys, h, truncate-probe count ys, l) refl;
}

-- With a row behind it a cursor is not 0, and its bound is the strict one.
window-bound :
    (n : ℕ) (rows : List BlockRow)
    → n < 2 ^ 63
    → 0 < length (rest_below num_of ltb n rows)
    → keep (within_bound (num_bound (some (record { block = n })) none)) rows
      ≡ rest_below num_of ltb n rows
window-bound zero rows h p =
    absurd
      (omega (arith, ap length (keep-none (λ row. ltb row.num zero) rows (λ row. ground arith))))
window-bound (suc n) rows h p =
    keep-ext (λ row. cursor_bound (record { block = suc n }) row (omega arith) ∙ positive row) rows
  where
    positive :
        (row : BlockRow)
        → (if suc n == 0 then row.num == 0 else ltb row.num (suc n)) ≡ ltb row.num (suc n)
    positive row = ground arith

module _ (blake2b512 : Bytes → Bytes) (to_base58 : Bytes → Bytes) (table : List BlockRow)
    (count : ℕ) (filters : BlockFilters) (ss58_prefix : ℕ) where
  -- The endpoint, for a request with a cursor.
  unfoldable pub serve : Option Bytes → Result DataError (Page Block)
  serve cursor =
      list_blocks_page blake2b512 to_base58 table (record { count = count; cursor = cursor })
        filters ss58_prefix

  kept : List BlockRow
  kept = keep (enough_extrinsics filters.min_extrinsics) table

  request : Option Bytes → PageRequest
  request cursor = record { count = count; cursor = cursor }

  serve-bounded :
      (c : Option BlockCursor) (cursor : Option Bytes)
      → 0 < count
      → count < u32_max
      → is_excluded filters.finalized ≡ false
      → parse_cursor from_str (request cursor) ≡ ok c
      → serve cursor
        ≡ ok (
            rows_to_page blake2b512 to_base58
              (take
                (suc count)
                (fetched blake2b512 to_base58 ss58_prefix filters (num_bound c none) table))
              count
              ss58_prefix)
  unfolding serve list_blocks_page request
  serve-bounded c cursor p n e h = rw (h) (ap ok (bounded count p n))
    where
      bounded :
          (k : ℕ)
          → 0 < k
          → k < u32_max
          → list_blocks_page_bounded blake2b512 to_base58 table k c none filters ss58_prefix
            ≡ rows_to_page blake2b512 to_base58
                (take
                  (suc k)
                  (fetched blake2b512 to_base58 ss58_prefix filters (num_bound c none) table))
                k
                ss58_prefix
      bounded zero p n = absurd (omega arith)
      bounded (suc k) p n =
          bounded-fetched blake2b512 to_base58 ss58_prefix filters table k c none n e

  reads :
      (n : ℕ)
      → n < 2 ^ 63
      → parse_cursor from_str (request (some (num_text n))) ≡ ok (some (record { block = n }))
  unfolding parse_cursor as_cursor request
  reads n h = ap as_cursor (block_round_trip (record { block = n }) (omega arith))

  serves :
      0 < count
      → count < u32_max
      → is_excluded filters.finalized ≡ false
      → All (λ row. row.num < 2 ^ 63) kept
      → (c : Option ℕ) → IsMet num_of ltb kept c
      → (page : Page Block) × (serve (cursor_text num_text c) ≡ ok page)
        × IsPageOf num_of num_text
            (row_to_block blake2b512 to_base58 ss58_prefix)
            count
            (window num_of ltb kept c)
            page
  unfolding fetched kept parse_cursor request within_bound num_bound
  serves p n e b none met = (
    rows_to_page blake2b512 to_base58 (take (suc count) kept) count ss58_prefix,
    serve-bounded none none p n e refl
        ∙ ap (λ ys. ok (rows_to_page blake2b512 to_base58 (take (suc count) ys) count ss58_prefix))
            (keep-always kept),
    page-IsPageOf blake2b512 to_base58 ss58_prefix count kept,
  )
  serves p n e b (some k) (r, held, same, behind) =
      let fits : k < 2 ^ 63 =
        subst (λ j. j < 2 ^ 63) same (All-In (λ row. row.num < 2 ^ 63) kept r b held) in
      (
        rows_to_page blake2b512 to_base58 (take (suc count) (rest_below num_of ltb k kept)) count
            ss58_prefix,
        serve-bounded (some (record { block = k })) (some (num_text k)) p n e (reads k fits)
            ∙ ap
                (λ ys.
                  ok (rows_to_page blake2b512 to_base58 (take (suc count) ys) count ss58_prefix))
                (window-bound k kept fits behind),
        page-IsPageOf blake2b512 to_base58 ss58_prefix count (rest_below num_of ltb k kept),
      )

  to_item : BlockRow → Block
  to_item = to_block blake2b512 to_base58 ss58_prefix filters

  walk-excluded :
      (fuel : ℕ)
      → 0 < count
      → is_excluded filters.finalized ≡ true
      → walk serve (suc fuel) none ≡ []
  unfolding serve list_blocks_page parse_cursor empty_page
  walk-excluded fuel p e = walk-last serve fuel none empty_page (ap ok (empty count p)) refl
    where
      empty :
          (k : ℕ)
          → 0 < k
          → list_blocks_page_bounded blake2b512 to_base58 table k none none filters ss58_prefix
            ≡ empty_page
      empty zero p = absurd (omega arith)
      empty (suc k) p =
          bounded-excluded blake2b512 to_base58 ss58_prefix filters table k none none e

  -- A client that follows `next_cursor` from the first page gets the blocks that the filters' predicate
  -- keeps of the whole table, newest first, each exactly once, in at most one page for each row and one
  -- more. The rows descend strictly in their numbers, which are below `2 ^ 63`, their counts are not
  -- negative, `min_extrinsics` is below `2 ^ 31`, and the page size is above zero and below the `u32`
  -- maximum.
  pub walk_complete :
      (fuel : ℕ)
      → 0 < count
      → count < u32_max
      → FitsInt filters.min_extrinsics
      → All IsCounted table
      → All (λ row. row.num < 2 ^ 63) table
      → IsDescending (λ (row : BlockRow). row.num) ltb table
      → length table < fuel
      → walk serve fuel none
        ≡ keep
            (λ block. block_matches_filters block filters)
            (map (row_to_block blake2b512 to_base58 ss58_prefix) table)
  unfolding to_item to_block matches kept within_bound
  walk_complete zero p n h c b d lt = absurd (omega arith)
  walk_complete (suc fuel) p n h c b d lt = elim (Bool-cases (is_excluded filters.finalized)) [
    | inl e ↦
        walk-excluded fuel p e
        ∙ sym (
            keep-map (matches blake2b512 to_base58 ss58_prefix filters) to_item table
            ∙ ap (map to_item) (
                keep-none (λ row. matches blake2b512 to_base58 ss58_prefix filters (to_item row))
                  table (matches-excluded blake2b512 to_base58 ss58_prefix filters e)))
    | inr e ↦
        walk_all num_of num_text (row_to_block blake2b512 to_base58 ss58_prefix) ltb kept
          (λ k. ground arith) (λ j k h. ground arith) count p serve
          (serves p n e
            (All-keep (λ row. row.num < 2 ^ 63) (enough_extrinsics filters.min_extrinsics) table b))
          (IsDescending-keep num_of ltb (enough_extrinsics filters.min_extrinsics) table d)
          (suc fuel) (omega (arith, length-keep (enough_extrinsics filters.min_extrinsics) table))
        ∙ ap (map to_item) (sym (keep-always kept))
        ∙ sym (keep-matches blake2b512 to_base58 ss58_prefix filters none table h c e)
        ∙ ap (λ rows. keep (matches blake2b512 to_base58 ss58_prefix filters) (map to_item rows))
            (keep-always table)
  ]
