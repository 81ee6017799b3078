-- ===== src/Queries/Extrinsics/Paged.antt =====
-- src/data/indexed/queries/extrinsics.rs: the page that is cut from the rows with the probe for one more.
use allfeat_explorer.Common.{
  ℕ, suc, ◌^◌, ◌<◌, ◌≡◌, refl, sym, ap, ◌∙◌, Bool, true, false, none, some, List, map, Bytes, arith,
  ltb, take, length, All,
}
use allfeat_explorer.Common.Integers.{
  ℤ, pos, as_i32, as_i32-pos, as_i64, as_i64-pos, at_least_zero, eq_int, lt_int, lt_row,
}
use allfeat_explorer.Common.Keeping.{take-map, All-map, All-each, All-take, map-map, length-map}
use allfeat_explorer.Common.Members.{DistinctBy, DistinctBy-under}
use allfeat_explorer.Common.Maps.{pair_lt}
use allfeat_explorer.Domain.{Extrinsic}
use allfeat_explorer.Cursor.Extrinsic.{to_string}
use allfeat_explorer.Queries.Keyset.{
  last, last-map, truncate, has_more, truncate-probe, has_more-probe, IsDescending,
  IsDescending-take, IsDescending-DistinctBy,
}
use allfeat_explorer.Queries.Pager.{IsPageOf}
use allfeat_explorer.Queries.Events.{EventRow, IsPhased}
use allfeat_explorer.Queries.Events.Hydrate.{hydrate_events-own, IsBare, pair_of, with_own_events}
use allfeat_explorer.Queries.Extrinsics.{
  ExtrinsicRow, Codec, row_to_extrinsic, below_upper, cursor_of, next_cursor, page_of, hydrated,
}
use allfeat_explorer.Queries.Extrinsics.Shown.{shown}

abbrev pub position : ExtrinsicRow → ℕ × ℕ
position row = (at_least_zero row.block_num, at_least_zero row.idx)

abbrev pub position_text : ℕ × ℕ → Bytes
position_text k = to_string (record { block = k.0; index = k.1 })

-- A position that the casts of the query keep.
pub record InRange (k : ℕ × ℕ) : Type 0 where
  pub block : k.0 < 2 ^ 63
  pub index : k.1 < 2 ^ 31

-- A row whose block and index are not negative, within what the casts keep.
pub record IsPlaced (row : ExtrinsicRow) : Type 0 where
  pub block : row.block_num ≡ pos (at_least_zero row.block_num)
  pub index : row.idx ≡ pos (at_least_zero row.idx)
  pub range : InRange (position row)

pub lt_row-pos :
    (a b c d : ℤ) {i j k l : ℕ}
    → a ≡ pos i
    → b ≡ pos j
    → c ≡ pos k
    → d ≡ pos l
    → lt_row a b c d ≡ pair_lt (i, j) (k, l)
unfolding lt_row lt_int eq_int
lt_row-pos a b c d p q r s = rw (p, q, r, s) refl

-- The bound of a position in range keeps exactly the rows before it.
pub below_upper-lt :
    (k : ℕ × ℕ) (row : ExtrinsicRow)
    → InRange k
    → IsPlaced row
    → below_upper (some k) row ≡ pair_lt (position row) k
unfolding below_upper
below_upper-lt k row r p =
    lt_row-pos row.block_num row.idx (as_i64 k.0) (as_i32 k.1) p.block p.index
      (as_i64-pos k.0 r.block) (as_i32-pos k.1 r.index)

module _ (codec : Codec) (ss58_prefix : ℕ) where
  bare : (row : ExtrinsicRow) → IsPlaced row → IsBare (row_to_extrinsic codec ss58_prefix row)
  unfolding row_to_extrinsic
  bare row p = record { no_events = refl; block_fits = p.range.block; index_fits = p.range.index }

  distinct :
      (rows : List ExtrinsicRow)
      → IsDescending position pair_lt rows
      → DistinctBy (λ row. pair_of (row_to_extrinsic codec ss58_prefix row)) rows
  unfolding row_to_extrinsic
  distinct rows d = IsDescending-DistinctBy position pair_lt (λ k. ground arith) rows d

  module _ (events : List EventRow) (phased : All IsPhased events) where
    -- The rows of a page are read with the events of their own.
    pub hydrated-shown :
        (rows : List ExtrinsicRow)
        → All IsPlaced rows
        → IsDescending position pair_lt rows
        → hydrated codec ss58_prefix events (map (row_to_extrinsic codec ss58_prefix) rows)
          ≡ map (shown codec ss58_prefix events) rows
    hydrated-shown rows r d =
        hydrate_events-own codec.decode_event_fields events
          (map (row_to_extrinsic codec ss58_prefix) rows) phased
          (All-map IsBare (row_to_extrinsic codec ss58_prefix) rows (All-each rows bare r))
          (DistinctBy-under (row_to_extrinsic codec ss58_prefix) pair_of rows (distinct rows d))
        ∙ map-map (with_own_events codec.decode_event_fields events)
            (row_to_extrinsic codec ss58_prefix) rows

    module _ (count : ℕ) (ys : List ExtrinsicRow) (placed : All IsPlaced ys)
        (descending : IsDescending position pair_lt ys) where
      abbrev pub read : List Extrinsic
      read = map (row_to_extrinsic codec ss58_prefix) (take (suc count) ys)

      pub read-items :
          hydrated codec ss58_prefix events (truncate count read)
          ≡ map (shown codec ss58_prefix events) (take count ys)
      read-items =
          ap (λ xs. hydrated codec ss58_prefix events (truncate count xs))
            (sym (take-map (suc count) (row_to_extrinsic codec ss58_prefix) ys))
          ∙ ap (hydrated codec ss58_prefix events) (
              truncate-probe count (map (row_to_extrinsic codec ss58_prefix) ys)
              ∙ take-map count (row_to_extrinsic codec ss58_prefix) ys)
          ∙ hydrated-shown (take count ys) (All-take IsPlaced count ys placed)
              (IsDescending-take position pair_lt count ys descending)

      pub read-more : has_more count read ≡ ltb count (length ys)
      read-more =
          ap (has_more count) (sym (take-map (suc count) (row_to_extrinsic codec ss58_prefix) ys))
          ∙ has_more-probe count (map (row_to_extrinsic codec ss58_prefix) ys)
          ∙ ap (ltb count) (length-map (row_to_extrinsic codec ss58_prefix) ys)

      next-none : (xs : List Extrinsic) (more : Bool) → more ≡ false → next_cursor more xs ≡ none
      unfolding next_cursor
      next-none xs more h = rw (h) refl

      next-last :
          (xs : List Extrinsic) (more : Bool) (x : Extrinsic)
          → more ≡ true
          → last xs ≡ some x
          → next_cursor more xs ≡ some (cursor_of x)
      unfolding next_cursor
      next-last xs more x h l = rw (h, l) refl

      pub page-IsPageOf :
          IsPageOf position position_text
            (shown codec ss58_prefix events)
            count
            ys
            (page_of codec ss58_prefix events count (take (suc count) ys))
      unfolding page_of row_to_extrinsic
      page-IsPageOf = record {
        items = read-items;
        ends = λ h.
            next-none (hydrated codec ss58_prefix events (truncate count read))
              (has_more count read) (read-more ∙ h);
        goes_on = λ r h l.
            next-last (hydrated codec ss58_prefix events (truncate count read))
              (has_more count read) (shown codec ss58_prefix events r) (read-more ∙ h)
              (ap last read-items ∙ last-map (shown codec ss58_prefix events) (take count ys) l);
      }
