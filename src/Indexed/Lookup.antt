-- ===== src/Indexed/Lookup.antt =====
-- src/data/indexed/provider.rs: the extrinsic behind an id that a page shows.
use allfeat_explorer.Common.{
  ℕ, ◌≡◌, ap, ap₂, subst, ◌∙◌, true, &&-eq-true, none, some, List, ◌∷◌, ◌++◌, Bytes, arith, find,
  In, ok,
}
use allfeat_explorer.Common.Maps.{pair_lt}
use allfeat_explorer.Common.Members.{DistinctBy-unique, find_sound, find_complete}
use allfeat_explorer.Common.Integers.{
  as_i32, as_i32-pos, as_i64, as_i64-pos, eq_int, eq_int-key, eq_int_self,
}
use allfeat_explorer.Decimal.{display}
use allfeat_explorer.Network.{ChainCtx}
use allfeat_explorer.Queries.Keyset.{IsDescending, IsDescending-DistinctBy}
use allfeat_explorer.Queries.Extrinsics.{
  ExtrinsicRow, Codec, at_position, read_row, extrinsic_by_block_idx, row_to_extrinsic,
}
use allfeat_explorer.Queries.Extrinsics.Lookup.{ExtrinsicLookup, parse_lookup-id, block_idx}
use allfeat_explorer.Queries.Extrinsics.Paged.{position, InRange, IsPlaced}
use allfeat_explorer.Queries.Extrinsics.Shown.{shown, read_row-shown}
use allfeat_explorer.Indexed.{Tables, IndexedProvider, is_indexed, buffer_for, tables_of}
use allfeat_explorer.Indexed.Extrinsics.{
  buffered_extrinsic, stored_extrinsic, resolve, extrinsic_by_id,
}

-- The point query finds a row by its position, and only there.
at_position_self :
    (row : ExtrinsicRow) → IsPlaced row → at_position (position row).0 (position row).1 row ≡ true
unfolding at_position
at_position_self row p =
    let r = p.range in
    rw (as_i64-pos (position row).0 r.block, as_i32-pos (position row).1 r.index)
      (ground (arith, eq_int_self row.block_num p.block, eq_int_self row.idx p.index))

at_position-key :
    (k : ℕ × ℕ) (row : ExtrinsicRow) → InRange k → at_position k.0 k.1 row ≡ true → position row ≡ k
unfolding at_position
at_position-key k row r h =
    let (at_block, at_index) =
      &&-eq-true (eq_int row.block_num (as_i64 k.0)) (eq_int row.idx (as_i32 k.1)) h in
    ap₂ (λ b i. (b, i))
      (eq_int-key row.block_num k.0
        (subst (λ z. eq_int row.block_num z ≡ true) (as_i64-pos k.0 r.block) at_block))
      (eq_int-key row.idx k.1
        (subst (λ z. eq_int row.idx z ≡ true) (as_i32-pos k.1 r.index) at_index))

find-row :
    (rows : List ExtrinsicRow) (row : ExtrinsicRow)
    → IsPlaced row
    → IsDescending position pair_lt rows
    → In row rows
    → find (at_position (position row).0 (position row).1) rows ≡ some row
find-row rows row p d i =
    let test = at_position (position row).0 (position row).1 in
    let (b, e) = find_complete test rows row i (at_position_self row p) in
    let (held, same) = find_sound test rows b e in
    let distinct = IsDescending-DistinctBy position pair_lt (λ k. ground arith) rows d in
    e
    ∙ ap some (
        DistinctBy-unique position rows b row distinct held i
          (at_position-key (position row) b p.range same))

module _ (codec : Codec) (self : IndexedProvider) (ctx : ChainCtx) (tables : Tables) where
  resolve-absent :
      (id : Bytes) (lookup : ExtrinsicLookup)
      → buffered_extrinsic (buffer_for self ctx) lookup ≡ none
      → tables_of self ctx ≡ ok tables
      → resolve codec self ctx id lookup ≡ stored_extrinsic codec self ctx tables id lookup
  unfolding resolve
  resolve-absent id lookup absent opened = ground arith

  stored-found :
      (id : Bytes) (row : ExtrinsicRow)
      → find (at_position (position row).0 (position row).1) tables.extrinsics ≡ some row
      → stored_extrinsic codec self ctx tables id (block_idx (position row).0 (position row).1)
        ≡ ok (some (read_row codec ctx.spec.ss58_prefix tables.events row))
  unfolding stored_extrinsic extrinsic_by_block_idx
  stored-found id row e = ground arith

  -- Every stored extrinsic is found by the id that it is shown with, as the list pages show it, unless
  -- the buffer answers for its position first: for an indexed network with its tables, whose rows
  -- descend strictly, at a position that is not negative and below `2 ^ 63` and
  -- `2 ^ 31`.
  pub extrinsic_by_id-shown :
      (row : ExtrinsicRow)
      → is_indexed self ctx ≡ true
      → tables_of self ctx ≡ ok tables
      → buffered_extrinsic (buffer_for self ctx) (block_idx (position row).0 (position row).1)
        ≡ none
      → IsPlaced row
      → IsDescending position pair_lt tables.extrinsics
      → In row tables.extrinsics
      → extrinsic_by_id codec self ctx (shown codec ctx.spec.ss58_prefix tables.events row).id
        ≡ ok (some (shown codec ctx.spec.ss58_prefix tables.events row))
  unfolding extrinsic_by_id row_to_extrinsic
  extrinsic_by_id-shown row indexed opened absent p d i =
      let r = p.range in
      let id = display (position row).0 ++ b'-' ∷ display (position row).1 in
      rw
        (
          indexed,
          parse_lookup-id codec.decode_to_slice (position row).0 (position row).1
              (omega (arith, r.block)) (omega (arith, r.index)),
        )
        (resolve-absent id (block_idx (position row).0 (position row).1) absent opened
          ∙ stored-found id row (find-row tables.extrinsics row p d i)
          ∙ ap (λ x. ok (some x)) (read_row-shown codec ctx.spec.ss58_prefix tables.events row))
