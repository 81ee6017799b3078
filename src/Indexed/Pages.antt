-- ===== src/Indexed/Pages.antt =====
-- src/data/indexed/provider.rs: the pages of `latest_extrinsics`, against the buffered extrinsics and
-- the rows of the database.
use allfeat_explorer.Common.{
  ℕ, suc, ◌-◌, ◌<◌, ◌≤◌, ◌≡◌, refl, sym, ap, ap₂, ◌∙◌, true, false, Option, none, some, List, [],
  ◌++◌, map, arith, ltb, leb, keep, take, length, All, length-append, length-take, take-all, ok,
  leb→le,
}
use allfeat_explorer.Common.Keeping.{take-within, take-beyond, take-map, All-keep, length-map}
use allfeat_explorer.Domain.{Extrinsic, Page}
use allfeat_explorer.Filters.{ExtrinsicFilters}
use allfeat_explorer.Common.Maps.{pair_lt}
use allfeat_explorer.Buffer.{PendingBuffer}
use allfeat_explorer.Cursor.Extrinsic.{ExtrinsicCursor}
use allfeat_explorer.Cursor.Request.{parse_cursor}
use allfeat_explorer.Network.{ChainCtx}
use allfeat_explorer.Queries.Keyset.{IsDescending, IsDescending-keep}
use allfeat_explorer.Queries.Events.{IsPhased}
use allfeat_explorer.Queries.Extrinsics.{
  ExtrinsicRow, Codec, below_upper, upper_of, shown_to, page_of,
}
use allfeat_explorer.Queries.Extrinsics.Shown.{shown}
use allfeat_explorer.Queries.Extrinsics.Paged.{position, IsPlaced, read-items, read-more}
use allfeat_explorer.Queries.Extrinsics.Walk.{bounded-page}
use allfeat_explorer.Indexed.{Tables, IndexedProvider}
use allfeat_explorer.Indexed.Extrinsics.{
  Buffered, newest_first, scan_buffer, buffered_slice, bound_of, filled, topped_up, db_page,
  merge_page,
}

-- The extrinsics of a network's buffer, newest first.
abbrev pub buffered : Option PendingBuffer → List Extrinsic
buffered none = []
buffered (some buffer) = newest_first buffer.blocks

pub buffered_slice_lem :
    (count : ℕ) (cursor : Option ExtrinsicCursor) (filters : ExtrinsicFilters)
    (buffer : Option PendingBuffer)
    → buffered_slice count cursor filters buffer
      ≡ scan_buffer count cursor filters
          (buffered buffer)
          (record { items = []; last_buffered = none })
unfolding buffered_slice scan_buffer
buffered_slice_lem count cursor filters none = refl
buffered_slice_lem count cursor filters (some buffer) = refl

upper_of-none : (o : Option (ℕ × ℕ)) → upper_of none o ≡ o
unfolding upper_of
upper_of-none none = refl
upper_of-none (some k) = refl

module _ (codec : Codec) (self : IndexedProvider) (ctx : ChainCtx) where
  -- The rows of the database below a bound.
  abbrev pub stored : Tables → Option (ℕ × ℕ) → ExtrinsicFilters → List ExtrinsicRow
  stored tables bound filters = keep (below_upper bound) (keep (shown_to filters) tables.extrinsics)

  abbrev pub show_row : Tables → ExtrinsicRow → Extrinsic
  show_row tables = shown codec ctx.spec.ss58_prefix tables.events

  module _ (tables : Tables) (filters : ExtrinsicFilters) (placed : All IsPlaced tables.extrinsics)
      (descending : IsDescending position pair_lt tables.extrinsics)
      (phased : All IsPhased tables.events) where
    pub db_page_lem :
        (n : ℕ) (bound : Option (ℕ × ℕ))
        → 0 < n
        → (page : Page Extrinsic) × (db_page codec self ctx tables n bound filters ≡ ok page)
          × (page.items ≡ map (show_row tables) (take n (stored tables bound filters)))
          × (page.page_info.has_more ≡ ltb n (length (stored tables bound filters)))
    unfolding db_page page_of parse_cursor
    db_page_lem n bound p =
        let ys = stored tables bound filters in
        let r =
          All-keep IsPlaced (below_upper bound) (keep (shown_to filters) tables.extrinsics)
            (All-keep IsPlaced (shown_to filters) tables.extrinsics placed) in
        let d =
          IsDescending-keep position pair_lt (below_upper bound)
            (keep (shown_to filters) tables.extrinsics)
            (IsDescending-keep position pair_lt (shown_to filters) tables.extrinsics descending) in
        (
          page_of codec ctx.spec.ss58_prefix tables.events n (take (suc n) ys),
          bounded-page codec ctx.spec.ss58_prefix tables.events tables.extrinsics
                (record { count = n; cursor = none }) none bound filters p refl
              ∙ ap
                  (λ u. ok (
                    page_of codec ctx.spec.ss58_prefix tables.events n (
                      take (suc n)
                        (keep (below_upper u) (keep (shown_to filters) tables.extrinsics)))))
                  (upper_of-none bound),
          read-items codec ctx.spec.ss58_prefix tables.events phased n ys r d,
          read-more codec ctx.spec.ss58_prefix tables.events phased n ys r d,
        )

    module _ (count : ℕ) (cursor : Option ExtrinsicCursor) (found : Buffered)
        (wanted : List Extrinsic) (low : Option (ℕ × ℕ)) (some_rows : 0 < count)
        (collected : found.items ≡ take count wanted)
        (reached : length wanted ≤ count → found.last_buffered ≡ low) where
      abbrev pub rest : List Extrinsic
      rest = map (show_row tables) (stored tables (bound_of low cursor) filters)

      pub merge-filled :
          leb count (length found.items) ≡ true
          → (page : Page Extrinsic) × (merge_page codec self ctx tables count cursor filters found
              ≡ ok page)
            × (page.items ≡ take count (wanted ++ rest))
            × (page.page_info.has_more
                ≡ ltb 0 (length (stored tables (bound_of found.last_buffered cursor) filters)))
      unfolding merge_page filled
      merge-filled h =
          let (probe, served, items, more) =
            db_page_lem 1 (bound_of found.last_buffered cursor) (omega arith) in
          let long : count ≤ length wanted = omega (
            arith,
            leb→le count (length found.items) h,
            ap length collected,
            length-take count wanted,
          ) in
          (
            filled found.items probe,
            rw (h, served) refl,
            collected ∙ sym (take-within count wanted rest long),
            ap (λ zs. ltb 0 (length zs)) items
                ∙ ap (ltb 0) (
                    length-map (show_row tables)
                      (take 1 (stored tables (bound_of found.last_buffered cursor) filters))
                    ∙ length-take 1 (stored tables (bound_of found.last_buffered cursor) filters))
                ∙ ground arith,
          )

      pub merge-topped_up :
          leb count (length found.items) ≡ false
          → (page : Page Extrinsic) × (merge_page codec self ctx tables count cursor filters found
              ≡ ok page)
            × (page.items ≡ take count (wanted ++ rest))
            × (page.page_info.has_more ≡ ltb count (length (wanted ++ rest)))
      unfolding merge_page topped_up
      merge-topped_up h =
          let few : length wanted < count =
            ground (arith, ap length collected, length-take count wanted) in
          let whole : found.items ≡ wanted = collected ∙ take-all count wanted (omega arith) in
          let low_bound = ap (λ k. bound_of k cursor) (reached (omega arith)) in
          let need = count - length found.items in
          let (page, served, items, more) =
            db_page_lem need (bound_of found.last_buffered cursor)
              (omega (arith, ap length whole)) in
          (
            topped_up found.items page,
            rw (h, served) refl,
            ap₂ ◌++◌ whole (
                  items
                  ∙ ap₂ (λ n b. map (show_row tables) (take n (stored tables b filters)))
                      (ap (λ zs. count - length zs) whole) low_bound
                  ∙ sym (
                      take-map (count - length wanted) (show_row tables)
                        (stored tables (bound_of low cursor) filters)))
                ∙ sym (take-beyond count wanted rest (omega arith)),
            more
                ∙ ap₂ (λ n b. ltb n (length (stored tables b filters)))
                    (ap (λ zs. count - length zs) whole) low_bound
                ∙ ground (
                  arith,
                  few,
                  length-append wanted rest,
                  length-map (show_row tables) (stored tables (bound_of low cursor) filters),
                ),
          )
