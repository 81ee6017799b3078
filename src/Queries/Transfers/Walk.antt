-- ===== src/Queries/Transfers/Walk.antt =====
-- A client that follows `next_cursor` from page to page, over src/data/indexed/queries/transfers.rs.
use allfeat_explorer.Common.{
  ℕ, suc, ◌+◌, ◌<◌, ◌≡◌, refl, sym, ap, subst, ◌∙◌, Bool, ◌&&◌, Option, none, some, List, Bytes,
  codes, arith, keep, take, length, All, Result, ok, ne→==,
}
use allfeat_explorer.Common.Keeping.{
  keep-always, keep-and, length-keep, All-keep, keep-All, All-each,
}
use allfeat_explorer.Common.Maps.{pair_lt}
use allfeat_explorer.Common.Members.{All-In}
use allfeat_explorer.Domain.{Page, PageRequest, Transfer}
use allfeat_explorer.Errors.{DataError}
use allfeat_explorer.Filters.{TransferFilters}
use allfeat_explorer.Cursor.Transfer.{TransferCursor, from_str, transfer_round_trip}
use allfeat_explorer.Cursor.Request.{parse_cursor, as_cursor}
use allfeat_explorer.Queries.Keyset.{IsDescending, IsDescending-keep, rest_below}
use allfeat_explorer.Queries.Pager.{walk, walk_all, IsPageOf, IsMet, cursor_text, window}
use allfeat_explorer.Queries.Extrinsics.{Codec}
use allfeat_explorer.Queries.Extrinsics.Paged.{InRange}
use allfeat_explorer.Queries.Transfers.{
  TransferRow, position, is_negative, account_is, counterparty_is, is_sent, below_upper, upper_of,
  to_transfers, position_text, page_of, parse_filter, list_transfers_page_bounded,
  list_transfers_page,
}
use allfeat_explorer.Queries.Transfers.Probed.{
  IsPlaced, key_of, item_of, below_upper-lt, page-IsPageOf, IsReadable, read, probed-keep,
  probed-take, probed-All, probed-IsDescending, probed-items, length-probed,
}

add-one : (n : ℕ) → n + 1 ≡ suc n
add-one n = omega arith

module _ (parse_account : Bytes → Option Bytes) (quoted : Bytes → Bytes) (codec : Codec)
    (ss58_prefix : ℕ) (table : List TransferRow) (count : ℕ) (filters : TransferFilters)
    (from_bytes to_bytes : Option Bytes) where
  -- The endpoint, for a request with a cursor.
  unfoldable pub serve : Option Bytes → Result DataError (Page Transfer)
  serve cursor =
      list_transfers_page parse_account quoted codec ss58_prefix table
        (record { count = count; cursor = cursor }) filters

  -- The senders' rows, one for each transfer.
  abbrev sends : List TransferRow
  sends = keep is_negative table

  asked_for : TransferRow → Bool
  asked_for row = account_is from_bytes row && counterparty_is to_bytes row

  abbrev kept : List TransferRow
  kept = keep (is_sent from_bytes to_bytes) table

  abbrev request : Option Bytes → PageRequest
  request cursor = record { count = count; cursor = cursor }

  module _ (some_rows : 0 < count)
      (sender : parse_filter parse_account quoted filters.sender (codes "from") ≡ ok from_bytes)
      (recipient : parse_filter parse_account quoted filters.recipient (codes "to")
        ≡ ok to_bytes) where
    serve-page :
        (cursor : Option Bytes) (c : Option TransferCursor)
        → parse_cursor from_str (request cursor) ≡ ok c
        → serve cursor
          ≡ ok (
              page_of count (
                read codec ss58_prefix
                  (take (suc count) (keep (below_upper (upper_of c none)) kept))))
    unfolding serve list_transfers_page list_transfers_page_bounded
    serve-page cursor c h =
        rw (ne→== count 0 (λ e. omega (arith, e, some_rows)), h, sender, recipient)
          (ap
            (λ n. ok (
              page_of count
                (read codec ss58_prefix (take n (keep (below_upper (upper_of c none)) kept)))))
            (add-one count))

    reads :
        (k : ℕ × ℕ)
        → InRange k
        → parse_cursor from_str (request (some (position_text k)))
          ≡ ok (some (record { block = k.0; event_idx = k.1 }))
    unfolding parse_cursor as_cursor
    reads k r = ap as_cursor (
        transfer_round_trip (record { block = k.0; event_idx = k.1 }) (omega (arith, r.block))
          (omega (arith, r.index)))

    kept-sends : kept ≡ keep asked_for sends
    unfolding is_sent asked_for
    kept-sends = keep-and is_negative asked_for table

    module _ (readable : All (IsReadable codec ss58_prefix) (keep is_negative table))
        (placed : All IsPlaced (keep is_negative table))
        (descending : IsDescending position pair_lt (keep is_negative table)) where
      abbrev rows : List (Transfer × (ℕ × ℕ))
      rows = read codec ss58_prefix kept

      kept-IsReadable : All (IsReadable codec ss58_prefix) kept
      kept-IsReadable =
          subst (All (IsReadable codec ss58_prefix)) (sym kept-sends)
            (All-keep (IsReadable codec ss58_prefix) asked_for sends readable)

      kept-IsPlaced : All IsPlaced kept
      kept-IsPlaced =
          subst (All IsPlaced) (sym kept-sends) (All-keep IsPlaced asked_for sends placed)

      kept-IsDescending : IsDescending position pair_lt kept
      kept-IsDescending =
          subst (IsDescending position pair_lt) (sym kept-sends)
            (IsDescending-keep position pair_lt asked_for sends descending)

      serves :
          (c : Option (ℕ × ℕ))
          → IsMet key_of pair_lt rows c
          → (page : Page Transfer) × (serve (cursor_text position_text c) ≡ ok page)
            × IsPageOf key_of position_text item_of count (window key_of pair_lt rows c) page
      unfolding upper_of below_upper parse_cursor
      serves none met = (
        page_of count (take (suc count) rows),
        serve-page none none refl
            ∙ ap (λ zs. ok (page_of count (read codec ss58_prefix (take (suc count) zs))))
                (keep-always kept)
            ∙ ap (λ zs. ok (page_of count zs))
                (probed-take codec ss58_prefix (suc count) kept kept-IsReadable),
        page-IsPageOf count rows,
      )
      serves (some k) (r, held, same, behind) =
          let in_range =
            probed-All codec ss58_prefix InRange kept kept-IsReadable
              (All-each kept (λ row (p : IsPlaced row). p.range) kept-IsPlaced) in
          let fits : InRange k =
            subst InRange same (All-In (λ p. InRange (key_of p)) rows r in_range held) in
          let low = keep (λ row. pair_lt (position row) k) kept in
          let low_readable =
            All-keep (IsReadable codec ss58_prefix) (λ row. pair_lt (position row) k) kept
              kept-IsReadable in
          (
            page_of count (take (suc count) (rest_below key_of pair_lt k rows)),
            serve-page (some (position_text k)) (some (record { block = k.0; event_idx = k.1 }))
                  (reads k fits)
                ∙ ap (λ zs. ok (page_of count (read codec ss58_prefix (take (suc count) zs))))
                    (keep-All (below_upper (some k)) (λ row. pair_lt (position row) k) kept
                      (All-each kept (λ row. below_upper-lt k row fits) kept-IsPlaced))
                ∙ ap (λ zs. ok (page_of count zs))
                    (probed-take codec ss58_prefix (suc count) low low_readable
                      ∙ ap (take (suc count))
                          (probed-keep codec ss58_prefix k kept kept-IsReadable)),
            page-IsPageOf count (rest_below key_of pair_lt k rows),
          )

      -- A client that follows `next_cursor` from the first page gets the transfer of every sending row
      -- with the sender and the recipient that the filters ask for, newest first and each exactly once,
      -- in at most one page for each row and one more. The table holds the recipients' rows as well. The
      -- filters' addresses are read, the page size is above zero, and the sending rows each make a
      -- transfer and descend strictly in their positions, which are not negative and below `2 ^ 63` and
      -- `2 ^ 31`.
      pub transfers_complete :
          (fuel : ℕ)
          → length table < fuel
          → walk serve fuel none
            ≡ to_transfers codec ss58_prefix (keep (is_sent from_bytes to_bytes) table)
      transfers_complete fuel lt =
          walk_all key_of position_text item_of pair_lt rows (λ k. ground arith)
            (λ j k h. ground arith) count some_rows serve serves
            (probed-IsDescending codec ss58_prefix kept kept-IsReadable kept-IsDescending) fuel
            (omega (
              arith,
              length-probed codec ss58_prefix kept kept-IsReadable,
              length-keep (is_sent from_bytes to_bytes) table,
            ))
          ∙ probed-items codec ss58_prefix kept kept-IsReadable
