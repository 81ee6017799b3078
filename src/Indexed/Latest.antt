-- ===== src/Indexed/Latest.antt =====
-- src/data/indexed/provider.rs: `latest_extrinsics` for an indexed network, as a request sees it.
use allfeat_explorer.Common.{
  ℕ, ◌<◌, ◌≤◌, ◌≡◌, refl, ap, ◌∙◌, true, false, Option, none, List, [], ◌++◌, map, arith, ltb, leb,
  keep, take, length, All, Bool-cases, inl, inr, length-take, ok, ne→==, leb→le,
}
use allfeat_explorer.Common.Keeping.{take-within}
use allfeat_explorer.Common.Maps.{pair_lt}
use allfeat_explorer.Domain.{Extrinsic, Page, PageRequest}
use allfeat_explorer.Filters.{ExtrinsicFilters}
use allfeat_explorer.Cursor.Extrinsic.{ExtrinsicCursor, from_str}
use allfeat_explorer.Cursor.Request.{parse_cursor}
use allfeat_explorer.Network.{ChainCtx}
use allfeat_explorer.Queries.Keyset.{IsDescending}
use allfeat_explorer.Queries.Events.{IsPhased}
use allfeat_explorer.Queries.Extrinsics.{Codec, below_upper, shown_to}
use allfeat_explorer.Queries.Extrinsics.Paged.{position, IsPlaced}
use allfeat_explorer.Indexed.{Tables, IndexedProvider, is_indexed, buffer_for, tables_of}
use allfeat_explorer.Indexed.Extrinsics.{
  Buffered, buffered_slice, bound_of, merge_page, latest_extrinsics,
}
use allfeat_explorer.Indexed.Merge.{
  is_candidate, is_wanted, last_candidate, scan_buffer-items, scan_buffer-last,
}
use allfeat_explorer.Indexed.Pages.{
  buffered, buffered_slice_lem, stored, show_row, merge-filled, merge-topped_up,
}

module _ (codec : Codec) (self : IndexedProvider) (ctx : ChainCtx) (req : PageRequest)
    (filters : ExtrinsicFilters) (cursor : Option ExtrinsicCursor) (tables : Tables) where
  -- The candidates of the buffer that the filters admit, newest first.
  abbrev pub wanted : List Extrinsic
  wanted = keep (is_wanted cursor filters) (buffered (buffer_for self ctx))

  -- The place of the last candidate, or the cursor's where there is none.
  abbrev pub bound : Option (ℕ × ℕ)
  bound =
      bound_of (last_candidate none (keep (is_candidate cursor) (buffered (buffer_for self ctx))))
        cursor

  -- The rows below the bound that the filters show, each with its events.
  abbrev pub topping : List Extrinsic
  topping = map (show_row codec self ctx tables) (stored codec self ctx tables bound filters)

  abbrev found : Buffered
  found = buffered_slice req.count cursor filters (buffer_for self ctx)

  found-items : found.items ≡ take req.count wanted
  found-items =
      ap (λ (f : Buffered). f.items)
        (buffered_slice_lem req.count cursor filters (buffer_for self ctx))
      ∙ scan_buffer-items req.count cursor filters (buffered (buffer_for self ctx))
          (record { items = []; last_buffered = none }) (omega arith)

  found-last :
      length wanted ≤ req.count
      → found.last_buffered
        ≡ last_candidate none (keep (is_candidate cursor) (buffered (buffer_for self ctx)))
  found-last h =
      ap (λ (f : Buffered). f.last_buffered)
        (buffered_slice_lem req.count cursor filters (buffer_for self ctx))
      ∙ scan_buffer-last req.count cursor filters (buffered (buffer_for self ctx))
          (record { items = []; last_buffered = none }) (omega (arith, h))

  module _ (indexed : is_indexed self ctx ≡ true) (some_rows : 0 < req.count)
      (parsed : parse_cursor from_str req ≡ ok cursor)
      (opened : tables_of self ctx ≡ ok tables) where
    latest-merge :
        latest_extrinsics codec self ctx req filters
        ≡ merge_page codec self ctx tables req.count cursor filters found
    unfolding latest_extrinsics
    latest-merge =
        rw (indexed, ne→== req.count 0 (λ e. omega (arith, e, some_rows)), parsed, opened) refl

    module _ (placed : All IsPlaced tables.extrinsics)
        (descending : IsDescending position pair_lt tables.extrinsics)
        (phased : All IsPhased tables.events) where
      -- A page of an indexed network is the first `count` of the wanted extrinsics of the buffer,
      -- followed by the rows of the database that the filters show and that are below the last
      -- candidate, or below the cursor where the buffer has no candidate. A candidate is a buffered
      -- extrinsic behind the cursor that is not an unsigned one of index 0; it is wanted when the filters
      -- admit it. So an unsigned extrinsic 0 of the buffer is left out whatever the filters are, also
      -- where the query would show it. Candidates are taken newest block first and in a block from the
      -- last extrinsic on, and the last one is the last in this order. Where fewer than `count` are
      -- wanted, the page goes on exactly when there are more. The cursor is read, the network has its
      -- number and its tables, whose rows descend strictly in positions that are not negative and below `2 ^ 63` and `2 ^ 31`, the
      -- events' extrinsic indices are not negative, and the page size is above zero.
      pub latest_extrinsics-merged :
          (page : Page Extrinsic) × (latest_extrinsics codec self ctx req filters ≡ ok page)
          × (page.items ≡ take req.count (wanted ++ topping))
          × (length wanted < req.count
              → page.page_info.has_more ≡ ltb req.count (length (wanted ++ topping)))
      latest_extrinsics-merged = elim (Bool-cases (leb req.count (length found.items))) [
        | inl h ↦
            let (page, served, items, more) =
              merge-filled codec self ctx tables filters placed descending phased req.count cursor
                found wanted
                (last_candidate none (keep (is_candidate cursor) (buffered (buffer_for self ctx))))
                some_rows found-items found-last h in
            (
              page,
              latest-merge ∙ served,
              items,
              λ few. absurd (
                  omega (
                    arith,
                    few,
                    leb→le req.count (length found.items) h,
                    ap length found-items,
                    length-take req.count wanted,
                  )),
            )
        | inr h ↦
            let (page, served, items, more) =
              merge-topped_up codec self ctx tables filters placed descending phased req.count
                cursor found wanted
                (last_candidate none (keep (is_candidate cursor) (buffered (buffer_for self ctx))))
                some_rows found-items found-last h in
            (page, latest-merge ∙ served, items, λ few. more)
      ]

      -- Where the wanted extrinsics of the buffer fill the page and the database has no extrinsic yet, the
      -- page says that there is no more, whatever else the buffer holds. The cursor is read, the network
      -- has its number and its tables, the events' extrinsic indices are not negative, and the page size
      -- is above zero.
      pub latest_extrinsics-ends_early :
          tables.extrinsics ≡ []
          → req.count ≤ length wanted
          → (page : Page Extrinsic) × (latest_extrinsics codec self ctx req filters ≡ ok page)
            × (page.items ≡ take req.count wanted)
            × (page.page_info.has_more ≡ false)
      latest_extrinsics-ends_early none_stored many =
          let full : leb req.count (length found.items) ≡ true =
            ground (arith, ap length found-items, length-take req.count wanted) in
          let (page, served, items, more) =
            merge-filled codec self ctx tables filters placed descending phased req.count cursor
              found wanted
              (last_candidate none (keep (is_candidate cursor) (buffered (buffer_for self ctx))))
              some_rows found-items found-last full in
          (
            page,
            latest-merge ∙ served,
            items ∙ take-within req.count wanted topping many,
            more
                ∙ ap
                    (λ rows. ltb 0 (
                      length (
                        keep (below_upper (bound_of found.last_buffered cursor))
                          (keep (shown_to filters) rows))))
                    none_stored,
          )
