-- ===== src/Queries/Extrinsics/Walk.antt =====
-- A client that follows `next_cursor` from page to page, over src/data/indexed/queries/extrinsics.rs.
use allfeat_explorer.Common.{
  ℕ, suc, ◌+◌, ◌<◌, ◌≡◌, refl, sym, ap, subst, ◌∙◌, Option, none, some, List, map, Bytes, arith,
  keep, take, length, All, Result, ok, ne→==,
}
use allfeat_explorer.Common.Keeping.{
  keep-map, keep-All, keep-always, length-keep, All-keep, All-each, All-both,
}
use allfeat_explorer.Common.Members.{All-In}
use allfeat_explorer.Common.Maps.{pair_lt}
use allfeat_explorer.Domain.{Extrinsic, Page, PageRequest}
use allfeat_explorer.Errors.{DataError}
use allfeat_explorer.Filters.{ExtrinsicFilters}
use allfeat_explorer.Cursor.Extrinsic.{ExtrinsicCursor, from_str, extrinsic_round_trip}
use allfeat_explorer.Cursor.Request.{parse_cursor, as_cursor}
use allfeat_explorer.Queries.Keyset.{IsDescending, IsDescending-keep, rest_below}
use allfeat_explorer.Queries.Pager.{walk, walk_all, IsPageOf, IsMet, cursor_text, window}
use allfeat_explorer.Queries.Events.{EventRow, IsPhased}
use allfeat_explorer.Queries.Extrinsics.{
  ExtrinsicRow, Codec, below_upper, upper_of, shown_to, select_page, page_of,
  list_extrinsics_page_bounded, list_extrinsics_page,
}
use allfeat_explorer.Queries.Extrinsics.Shown.{HasAddress, is_visible, shown, shown_to-is_visible}
use allfeat_explorer.Queries.Extrinsics.Paged.{
  position, position_text, InRange, IsPlaced, below_upper-lt, page-IsPageOf,
}

add-one : (n : ℕ) → n + 1 ≡ suc n
add-one n = omega arith

module _ (codec : Codec) (ss58_prefix : ℕ) (events : List EventRow)
    (table : List ExtrinsicRow) where
  -- A page that is asked for is cut from the rows below the cursor and the bound that the filters show.
  pub bounded-page :
      (req : PageRequest) (c : Option ExtrinsicCursor) (upper : Option (ℕ × ℕ))
      (filters : ExtrinsicFilters)
      → 0 < req.count
      → parse_cursor from_str req ≡ ok c
      → list_extrinsics_page_bounded codec ss58_prefix events table req upper filters
        ≡ ok (
            page_of codec ss58_prefix events req.count (
              take
                (suc req.count)
                (keep (below_upper (upper_of c upper)) (keep (shown_to filters) table))))
  unfolding list_extrinsics_page_bounded select_page
  bounded-page req c upper filters p h =
      rw (ne→== req.count 0 (λ e. omega (arith, e, p)), h)
        (ap
          (λ n. ok (
            page_of codec ss58_prefix events req.count
              (take n (keep (below_upper (upper_of c upper)) (keep (shown_to filters) table)))))
          (add-one req.count))

  module _ (count : ℕ) (filters : ExtrinsicFilters) where
    -- The endpoint, for a request with a cursor.
    unfoldable pub serve : Option Bytes → Result DataError (Page Extrinsic)
    serve cursor =
        list_extrinsics_page codec ss58_prefix events table
          (record { count = count; cursor = cursor }) filters

    abbrev pub kept : List ExtrinsicRow
    kept = keep (shown_to filters) table

    abbrev pub request : Option Bytes → PageRequest
    request cursor = record { count = count; cursor = cursor }

    reads :
        (k : ℕ × ℕ)
        → InRange k
        → parse_cursor from_str (request (some (position_text k)))
          ≡ ok (some (record { block = k.0; index = k.1 }))
    unfolding parse_cursor as_cursor
    reads k r = ap as_cursor (
        extrinsic_round_trip (record { block = k.0; index = k.1 }) (omega (arith, r.block))
          (omega (arith, r.index)))

    serves :
        0 < count
        → All IsPhased events
        → All IsPlaced table
        → IsDescending position pair_lt table
        → (c : Option (ℕ × ℕ)) → IsMet position pair_lt kept c
        → (page : Page Extrinsic) × (serve (cursor_text position_text c) ≡ ok page)
          × IsPageOf position position_text
              (shown codec ss58_prefix events)
              count
              (window position pair_lt kept c)
              page
    unfolding serve list_extrinsics_page upper_of below_upper parse_cursor
    serves p phased placed d none met = (
      page_of codec ss58_prefix events count (take (suc count) kept),
      bounded-page (request none) none none filters p refl
          ∙ ap (λ ys. ok (page_of codec ss58_prefix events count (take (suc count) ys)))
              (keep-always kept),
      page-IsPageOf codec ss58_prefix events phased count kept
          (All-keep IsPlaced (shown_to filters) table placed)
          (IsDescending-keep position pair_lt (shown_to filters) table d),
    )
    serves p phased placed d (some k) (r, held, same, behind) =
        let placed_kept = All-keep IsPlaced (shown_to filters) table placed in
        let fits : InRange k = subst InRange same (All-In IsPlaced kept r placed_kept held).range in
        (
          page_of codec ss58_prefix events count
              (take (suc count) (rest_below position pair_lt k kept)),
          bounded-page (request (some (position_text k)))
                (some (record { block = k.0; index = k.1 })) none filters p (reads k fits)
              ∙ ap (λ ys. ok (page_of codec ss58_prefix events count (take (suc count) ys)))
                  (keep-All (below_upper (some k)) (λ row. pair_lt (position row) k) kept
                    (All-each kept (λ row p. below_upper-lt k row fits p) placed_kept)),
          page-IsPageOf codec ss58_prefix events phased count (rest_below position pair_lt k kept)
              (All-keep IsPlaced (λ s. pair_lt (position s) k) kept placed_kept)
              (IsDescending-keep position pair_lt (λ s. pair_lt (position s) k) kept
                (IsDescending-keep position pair_lt (shown_to filters) table d)),
        )

    -- A client that follows `next_cursor` from the first page gets every extrinsic of the table that the
    -- filters' predicate keeps, without the hidden inherents, newest first, each exactly once and with
    -- the events of its own, in at most one page for each row and one more. The rows descend strictly in
    -- their positions, which are not negative and below `2 ^ 63` and `2 ^ 31`, their signers are account ids of 32 bytes,
    -- the events' extrinsic indices are not negative, and the page size is above zero.
    pub extrinsics_complete :
        (fuel : ℕ)
        → 0 < count
        → All IsPhased events
        → All (λ row. HasAddress row.signer) table
        → All IsPlaced table
        → IsDescending position pair_lt table
        → length table < fuel
        → walk serve fuel none
          ≡ keep (is_visible filters) (map (shown codec ss58_prefix events) table)
    extrinsics_complete fuel p phased signers placed d lt =
        walk_all position position_text (shown codec ss58_prefix events) pair_lt kept
          (λ k. ground arith) (λ j k h. ground arith) count p serve (serves p phased placed d)
          (IsDescending-keep position pair_lt (shown_to filters) table d) fuel
          (omega (arith, length-keep (shown_to filters) table))
        ∙ ap (map (shown codec ss58_prefix events)) (
            keep-All (shown_to filters)
              (λ row. is_visible filters (shown codec ss58_prefix events row)) table
              (All-both table
                (λ row h q. shown_to-is_visible codec ss58_prefix events filters row h q.index)
                signers placed))
        ∙ sym (keep-map (is_visible filters) (shown codec ss58_prefix events) table)
