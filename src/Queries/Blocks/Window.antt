-- ===== src/Queries/Blocks/Window.antt =====
-- src/data/indexed/queries/blocks.rs and src/data/filters.rs: the rows that a page of blocks shows,
-- against the filters' in-memory predicate.
use allfeat_explorer.Common.{
  ℕ, ◌+◌, ◌-◌, ◌^◌, ◌≤◌, ◌<◌, ◌≡◌, refl, sym, ap, ◌∙◌, Bool, true, false, ◌&&◌, not, Option, none,
  some, List, [], ◌∷◌, map, Bytes, arith, ltb, leb, ◌==◌, if◌then◌else◌, min, keep, take, All,
  Bool-cases, inl, inr, zero, suc,
}
use allfeat_explorer.Common.Keeping.{keep-keep, keep-map, take-map, keep-All, keep-ext, keep-none}
use allfeat_explorer.Common.Integers.{
  ℤ, pos, as_i64, as_i64-pos, as_i32-pos, leb_int, at_least_zero,
}
use allfeat_explorer.Decimal.{u32_max}
use allfeat_explorer.Domain.{Block, Page, empty_page}
use allfeat_explorer.Filters.{BlockFilters, admits, bool_eq, block_matches_filters}
use allfeat_explorer.Cursor.Block.{BlockCursor}
use allfeat_explorer.Queries.Keyset.{truncate-probe}
use allfeat_explorer.Queries.Blocks.{
  BlockRow, num_bound, within_bound, enough_extrinsics, fetch, is_excluded, row_to_block,
  rows_to_page, list_blocks_page_bounded,
}

leb_int-pos_as_i64 : (n m : ℕ) → m < 2 ^ 63 → leb_int (pos n) (as_i64 m) ≡ leb n m
unfolding leb_int
leb_int-pos_as_i64 n m h = rw (as_i64-pos m h) refl

-- The bound of a cursor up to `2 ^ 63` keeps the rows below it, except that the cursor 0 keeps block 0.
pub cursor_bound :
    (c : BlockCursor) (row : BlockRow)
    → c.block ≤ 2 ^ 63
    → within_bound (num_bound (some c) none) row
      ≡ (if c.block == 0 then row.num == 0 else ltb row.num c.block)
unfolding within_bound num_bound
cursor_bound c row h = ground (arith, leb_int-pos_as_i64 row.num (c.block - 1) (omega arith))

-- The rows that the documentation promises: strictly below the cursor, and not above the upper bound.
abbrev pub is_below : Option BlockCursor → BlockRow → Bool
is_below none row = true
is_below (some c) row = ltb row.num c.block

abbrev pub is_up_to : Option ℕ → BlockRow → Bool
is_up_to none row = true
is_up_to (some upper) row = leb row.num upper

-- A cursor that a row can stand below, and an upper bound that the query casts without a wrap.
abbrev pub HasRowsBelow : Option BlockCursor → Type 0
HasRowsBelow none = Unit
HasRowsBelow (some c) = (0 < c.block) × (c.block ≤ 2 ^ 63)

abbrev pub FitsLong : Option ℕ → Type 0
FitsLong none = Unit
FitsLong (some upper) = upper < 2 ^ 63

bound-window :
    (cursor : Option BlockCursor) (upper : Option ℕ) (row : BlockRow)
    → HasRowsBelow cursor
    → FitsLong upper
    → within_bound (num_bound cursor upper) row ≡ (is_below cursor row && is_up_to upper row)
unfolding within_bound num_bound
bound-window none none row h f = refl
bound-window none (some upper) row h f = leb_int-pos_as_i64 row.num upper f
bound-window (some c) none row (low, h) f =
    ground (arith, leb_int-pos_as_i64 row.num (c.block - 1) (omega arith))
bound-window (some c) (some upper) row (low, h) f =
    ground (arith, leb_int-pos_as_i64 row.num (min upper (c.block - 1)) (omega arith))

-- A count that is not negative.
abbrev pub IsCounted : BlockRow → Type 0
IsCounted row = (n : ℕ) × (row.extrinsic_count ≡ pos n)

enough_extrinsics-counted :
    (m : ℕ) (row : BlockRow)
    → m < 2 ^ 31
    → IsCounted row
    → enough_extrinsics (some m) row ≡ not (ltb (at_least_zero row.extrinsic_count) m)
unfolding enough_extrinsics leb_int at_least_zero
enough_extrinsics-counted m row h (n, e) = rw (e, as_i32-pos m h) (ground arith)

-- The filters' `min_extrinsics` is in the range that the query casts without a wrap.
abbrev pub FitsInt : Option ℕ → Type 0
FitsInt none = Unit
FitsInt (some m) = m < 2 ^ 31

enough-matches :
    (m : Option ℕ) (row : BlockRow)
    → FitsInt m
    → IsCounted row
    → admits (λ min_count. not (ltb (at_least_zero row.extrinsic_count) min_count)) m
      ≡ enough_extrinsics m row
unfolding enough_extrinsics
enough-matches none row h c = refl
enough-matches (some m) row h c = sym (enough_extrinsics-counted m row h c)

admits-finalized : (f : Option Bool) → admits (bool_eq true) f ≡ not (is_excluded f)
unfolding is_excluded
admits-finalized none = refl
admits-finalized (some true) = refl
admits-finalized (some false) = refl

pub probe : (count : ℕ) → suc count < u32_max → min (suc count + 1) u32_max ≡ suc (suc count)
probe count h = ground arith

nonzero : (n : ℕ) → (suc n == 0) ≡ false
nonzero n = ground arith

module _ (blake2b512 : Bytes → Bytes) (to_base58 : Bytes → Bytes) (ss58_prefix : ℕ)
    (filters : BlockFilters) where
  unfoldable pub to_block : BlockRow → Block
  to_block = row_to_block blake2b512 to_base58 ss58_prefix

  unfoldable pub matches : Block → Bool
  matches block = block_matches_filters block filters

  matches-row :
      (row : BlockRow)
      → FitsInt filters.min_extrinsics
      → IsCounted row
      → matches (to_block row)
        ≡ (not (is_excluded filters.finalized) && enough_extrinsics filters.min_extrinsics row)
  unfolding matches to_block block_matches_filters row_to_block
  matches-row row h c =
      ground
        (arith, enough-matches filters.min_extrinsics row h c, admits-finalized filters.finalized)

  matches-rows :
      (rows : List BlockRow)
      → FitsInt filters.min_extrinsics
      → All IsCounted rows
      → is_excluded filters.finalized ≡ false
      → All (λ row. matches (to_block row) ≡ enough_extrinsics filters.min_extrinsics row) rows
  matches-rows [] h c e = tt
  matches-rows (row ∷ rows) h (c, cs) e =
      (ground (arith, matches-row row h c), matches-rows rows h cs e)

  pub matches-excluded :
      is_excluded filters.finalized ≡ true → (row : BlockRow) → matches (to_block row) ≡ false
  unfolding matches to_block block_matches_filters row_to_block
  matches-excluded e row = ground (arith, admits-finalized filters.finalized)

  -- What the predicate keeps of the rows in a window is what the query fetches.
  pub keep-matches :
      (bound : Option ℤ) (table : List BlockRow)
      → FitsInt filters.min_extrinsics
      → All IsCounted table
      → is_excluded filters.finalized ≡ false
      → keep matches (map to_block (keep (within_bound bound) table))
        ≡ map to_block
            (keep (within_bound bound) (keep (enough_extrinsics filters.min_extrinsics) table))
  keep-matches bound table h c e =
      keep-map matches to_block (keep (within_bound bound) table)
      ∙ ap (map to_block) (
          keep-keep (λ row. matches (to_block row)) (within_bound bound) table
          ∙ ap (keep (within_bound bound)) (
              keep-All (λ row. matches (to_block row)) (enough_extrinsics filters.min_extrinsics)
                table (matches-rows table h c e)))

  -- The rows that a page is cut from.
  unfoldable pub fetched : Option ℤ → List BlockRow → List BlockRow
  fetched bound table =
      keep (within_bound bound) (keep (enough_extrinsics filters.min_extrinsics) table)

  pub bounded-fetched :
      (table : List BlockRow) (count : ℕ) (cursor : Option BlockCursor) (upper : Option ℕ)
      → suc count < u32_max
      → is_excluded filters.finalized ≡ false
      → list_blocks_page_bounded blake2b512 to_base58 table
          (suc count)
          cursor
          upper
          filters
          ss58_prefix
        ≡ rows_to_page blake2b512 to_base58
            (take (suc (suc count)) (fetched (num_bound cursor upper) table))
            (suc count)
            ss58_prefix
  unfolding list_blocks_page_bounded fetch fetched
  bounded-fetched table count cursor upper n e = rw (nonzero count, e, probe count n) refl

  pub bounded-excluded :
      (table : List BlockRow) (count : ℕ) (cursor : Option BlockCursor) (upper : Option ℕ)
      → is_excluded filters.finalized ≡ true
      → list_blocks_page_bounded blake2b512 to_base58 table
          (suc count)
          cursor
          upper
          filters
          ss58_prefix
        ≡ empty_page
  unfolding list_blocks_page_bounded
  bounded-excluded table count cursor upper e = rw (nonzero count, e) refl

  -- The page, by the bound that the query computes.
  page-windowed :
      (table : List BlockRow) (count : ℕ) (cursor : Option BlockCursor) (upper : Option ℕ)
      → count < u32_max
      → FitsInt filters.min_extrinsics
      → All IsCounted table
      → (list_blocks_page_bounded blake2b512 to_base58 table count cursor upper filters
          ss58_prefix).items
        ≡ take count (
            keep
              (λ block. block_matches_filters block filters)
              (map
                (row_to_block blake2b512 to_base58 ss58_prefix)
                (keep (within_bound (num_bound cursor upper)) table)))
  unfolding list_blocks_page_bounded rows_to_page empty_page matches to_block fetched
  page-windowed table zero cursor upper n h c = refl
  page-windowed table (suc count) cursor upper n h c =
      let window = keep (within_bound (num_bound cursor upper)) table in
      elim (Bool-cases (is_excluded filters.finalized)) [
        | inl e ↦
            ap (λ (p : Page Block). p.items) (bounded-excluded table count cursor upper e)
            ∙ ap (take (suc count)) (
                sym (
                  keep-map matches to_block window
                  ∙ ap (map to_block)
                      (keep-none (λ row. matches (to_block row)) window (matches-excluded e))))
        | inr e ↦
            let rows = fetched (num_bound cursor upper) table in
            ap (λ (p : Page Block). p.items) (bounded-fetched table count cursor upper n e)
            ∙ ap (map to_block) (truncate-probe (suc count) rows)
            ∙ sym (take-map (suc count) to_block rows)
            ∙ ap (take (suc count)) (sym (keep-matches (num_bound cursor upper) table h c e))
      ]

  -- The query agrees with the in-memory predicate: a page holds the first `count` of the rows strictly
  -- below the cursor and not above the upper bound whose blocks the predicate keeps. A cursor is above
  -- zero and at most `2 ^ 63`, an upper bound below `2 ^ 63`, the counts in the table are not negative,
  -- `min_extrinsics` is below `2 ^ 31` and `count` below the `u32` maximum.
  pub list_blocks_page_bounded-matches :
      (table : List BlockRow) (count : ℕ) (cursor : Option BlockCursor) (upper : Option ℕ)
      → count < u32_max
      → FitsInt filters.min_extrinsics
      → All IsCounted table
      → HasRowsBelow cursor
      → FitsLong upper
      → (list_blocks_page_bounded blake2b512 to_base58 table count cursor upper filters
          ss58_prefix).items
        ≡ take count (
            keep
              (λ block. block_matches_filters block filters)
              (map
                (row_to_block blake2b512 to_base58 ss58_prefix)
                (keep (λ row. is_below cursor row && is_up_to upper row) table)))
  unfolding matches to_block
  list_blocks_page_bounded-matches table count cursor upper n h c below fits =
      page-windowed table count cursor upper n h c
      ∙ ap (λ rows. take count (keep matches (map to_block rows)))
          (keep-ext (λ row. bound-window cursor upper row below fits) table)
