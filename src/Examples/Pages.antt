-- ===== src/Examples/Pages.antt =====
-- The theorems on the pages of blocks, at a concrete table.
use allfeat_explorer.Common.{
  ℕ, ◌≡◌, refl, true, ◌&&◌, none, some, List, [], ◌∷◌, map, Bytes, arith, keep, take, ltb, ◌==◌,
  if◌then◌else◌,
}
use allfeat_explorer.Common.Integers.{ℤ, pos}
use allfeat_explorer.Filters.{BlockFilters, block_matches_filters}
use allfeat_explorer.Cursor.Block.{BlockCursor}
use allfeat_explorer.Queries.Blocks.{
  BlockRow, row_to_block, within_bound, num_bound, list_blocks_page_bounded,
}
use allfeat_explorer.Queries.Blocks.Window.{
  cursor_bound, is_below, is_up_to, list_blocks_page_bounded-matches,
}
use allfeat_explorer.Queries.Pager.{walk}
use allfeat_explorer.Queries.Blocks.Walk.{serve, walk_complete}

abbrev row : ℕ → ℕ → BlockRow
row num extrinsics = record {
  num = num;
  hash = 1 ∷ [];
  parent_hash = 2 ∷ [];
  state_root = 3 ∷ [];
  extrinsics_root = 4 ∷ [];
  author = none;
  timestamp_ms = 1000;
  spec_version = pos 100;
  extrinsic_count = pos extrinsics;
  event_count = pos 5;
  ref_time = pos 7;
  proof_size = pos 8;
  ref_time_pct = pos 3;
  size_bytes = pos 9;
}

abbrev table : List BlockRow
table = row 4 1 ∷ row 3 6 ∷ row 2 8 ∷ row 0 4 ∷ []

abbrev filters : BlockFilters
filters = record { finalized = some true; min_extrinsics = some 3 }

-- Stand-ins for the hash and the text form of an address.
abbrev hash : Bytes → Bytes
hash bytes = bytes

abbrev text : Bytes → Bytes
text bytes = bytes

counted : (n : ℕ) × (◌≡◌ {A = ℤ} (pos 1) (pos n))
counted = (1, refl)

abbrev zero_cursor : BlockCursor
zero_cursor = record { block = 0 }

cursor_bound_example :
    within_bound (num_bound (some zero_cursor) none) (row 0 4)
    ≡ (if zero_cursor.block == 0 then (row 0 4).num == 0 else ltb (row 0 4).num zero_cursor.block)
cursor_bound_example = cursor_bound zero_cursor (row 0 4) (omega arith)

abbrev behind_four : BlockCursor
behind_four = record { block = 4 }

list_blocks_page_bounded-matches_example :
    (list_blocks_page_bounded hash text table 2 (some behind_four) (some 2) filters 42).items
    ≡ take 2 (
        keep
          (λ block. block_matches_filters block filters)
          (map
            (row_to_block hash text 42)
            (keep (λ r. is_below (some behind_four) r && is_up_to (some 2) r) table)))
list_blocks_page_bounded-matches_example =
    list_blocks_page_bounded-matches hash text 42 filters table 2 (some behind_four) (some 2)
      (omega arith) (omega arith) (counted, ((6, refl), ((8, refl), ((4, refl), tt))))
      (omega arith, omega arith) (omega arith)

walk_complete_example :
    walk (serve hash text table 2 filters 42) 6 none
    ≡ keep (λ block. block_matches_filters block filters) (map (row_to_block hash text 42) table)
walk_complete_example =
    walk_complete hash text table 2 filters 42 6 (omega arith) (omega arith) (omega arith)
      (counted, ((6, refl), ((8, refl), ((4, refl), tt))))
      (omega arith, (omega arith, (omega arith, (omega arith, tt))))
      ((refl, (refl, (refl, tt))), ((refl, (refl, tt)), ((refl, tt), (tt, tt)))) (omega arith)
