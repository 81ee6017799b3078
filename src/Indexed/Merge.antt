-- ===== src/Indexed/Merge.antt =====
-- src/data/indexed/provider.rs: what the loop over the pending buffer leaves.
use allfeat_explorer.Common.{
  ℕ, ◌+◌, ◌≤◌, ◌≡◌, refl, sym, ap, ◌∙◌, Bool, ◌&&◌, not, Option, some, List, [], ◌∷◌, ◌++◌, arith,
  keep, take, length, append_assoc, append-nil, length-append, take-all,
}
use allfeat_explorer.Common.Keeping.{take-full}
use allfeat_explorer.Domain.{Extrinsic}
use allfeat_explorer.Filters.{ExtrinsicFilters, extrinsic_matches_filters}
use allfeat_explorer.Cursor.Extrinsic.{ExtrinsicCursor}
use allfeat_explorer.Indexed.Extrinsics.{place_of, skipped, past_cursor, Buffered, scan_buffer}

-- The buffered extrinsics behind the cursor, without the unsigned ones of index 0, whatever the filters
-- are; and those of them that the filters admit.
abbrev pub is_candidate : Option ExtrinsicCursor → Extrinsic → Bool
is_candidate cursor ext = not (skipped ext) && not (past_cursor cursor ext)

abbrev pub is_wanted : Option ExtrinsicCursor → ExtrinsicFilters → Extrinsic → Bool
is_wanted cursor filters ext = is_candidate cursor ext && extrinsic_matches_filters ext filters

-- The place of the last one in the order of the list, which the loop reaches where it runs through.
abbrev pub last_candidate : Option (ℕ × ℕ) → List Extrinsic → Option (ℕ × ℕ)
last_candidate before [] = before
last_candidate before (ext ∷ rest) = last_candidate (some (place_of ext)) rest

module _ (count : ℕ) (cursor : Option ExtrinsicCursor) (filters : ExtrinsicFilters) where
  -- The loop collects the wanted extrinsics in order, up to the page's size.
  pub scan_buffer-items :
      (xs : List Extrinsic) (found : Buffered)
      → length found.items ≤ count
      → (scan_buffer count cursor filters xs found).items
        ≡ take count (found.items ++ keep (is_wanted cursor filters) xs)
  unfolding scan_buffer
  scan_buffer-items [] found h =
      sym (ap (take count) (append-nil found.items) ∙ take-all count found.items h)
  scan_buffer-items (ext ∷ rest) found h =
      let more = keep (is_wanted cursor filters) rest in
      let pushed = found.items ++ ext ∷ [] in
      let room = length-append found.items (ext ∷ []) in
      ground (
        arith,
        scan_buffer-items rest found h,
        scan_buffer-items rest (record found { last_buffered = some (place_of ext) }) h,
        scan_buffer-items rest (record { items = pushed; last_buffered = some (place_of ext) }),
        room,
        append_assoc found.items (ext ∷ []) more,
        take-full count found.items (ext ∷ more),
      )

  -- A loop that runs through reaches the last candidate.
  pub scan_buffer-last :
      (xs : List Extrinsic) (found : Buffered)
      → length found.items + length (keep (is_wanted cursor filters) xs) ≤ count
      → (scan_buffer count cursor filters xs found).last_buffered
        ≡ last_candidate found.last_buffered (keep (is_candidate cursor) xs)
  unfolding scan_buffer
  scan_buffer-last [] found h = refl
  scan_buffer-last (ext ∷ rest) found h = ground (
    arith,
    scan_buffer-last rest found,
    scan_buffer-last rest (record found { last_buffered = some (place_of ext) }),
    scan_buffer-last rest
        (record { items = found.items ++ ext ∷ []; last_buffered = some (place_of ext) }),
    length-append found.items (ext ∷ []),
  )
