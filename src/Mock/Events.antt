-- ===== src/Mock/Events.antt =====
-- src/data/mock.rs: what a page of the mock provider's events shows.
use allfeat_explorer.Common.{
  ℕ, zero, suc, ◌<◌, ◌≤◌, ◌≡◌, refl, sym, ap, ◌∙◌, Bool, true, false, Option, none, List, [], ◌∷◌,
  ◌++◌, arith, ltb, leb, keep, take, length, reverse, Bool-cases, inl, inr, append_assoc,
  append-nil, length-append, length-take, take-all, ok, ne→==,
}
use allfeat_explorer.Common.Keeping.{keep-append, take-full, take-within}
use allfeat_explorer.Decimal.{u32_max}
use allfeat_explorer.Domain.{BlockEvent, Page, PageRequest}
use allfeat_explorer.Filters.{EventFilters}
use allfeat_explorer.Cursor.Event.{EventCursor}
use allfeat_explorer.Cursor.Request.{parse_cursor}
use allfeat_explorer.Network.{ChainCtx}
use allfeat_explorer.Queries.Keyset.{truncate, has_more, truncate-probe, has_more-probe}
use allfeat_explorer.Mock.{
  Generators, page_of, push_wanted, wanted_event, event_text, target_of, scan_events, scan_tip,
  latest_events,
}

-- The loop collects the wanted items in order, up to the target.
push_wanted_lem :
    {A : Type 0} (wanted : A → Bool) (target : ℕ) (xs items : List A)
    → length items ≤ target
    → push_wanted wanted target xs items ≡ take target (items ++ keep wanted xs)
unfolding push_wanted
push_wanted_lem wanted target [] items h =
    sym (ap (take target) (append-nil items) ∙ take-all target items h)
push_wanted_lem wanted target (x ∷ xs) items h = ground (
  arith,
  push_wanted_lem wanted target xs items h,
  push_wanted_lem wanted target xs (items ++ x ∷ []),
  length-append items (x ∷ []),
  append_assoc items (x ∷ []) (keep wanted xs),
  take-full target items (x ∷ keep wanted xs),
)

module _ (gen : Generators) (ctx : ChainCtx) where
  -- The events of the blocks from a block down to block 0, newest first.
  unfoldable pub all_events : ℕ → List BlockEvent
  all_events zero = reverse (gen.mock_events_for_block ctx 0)
  all_events (suc block) = reverse (gen.mock_events_for_block ctx (suc block)) ++ all_events block

  module _ (cursor : Option EventCursor) (filters : EventFilters) (target block : ℕ)
      (items : List BlockEvent) where
    abbrev found_in : List BlockEvent
    found_in =
        push_wanted (wanted_event cursor filters) target
          (reverse (gen.mock_events_for_block ctx (suc block))) items

    scan-full :
        leb target (length found_in) ≡ true
        → scan_events gen ctx cursor filters target (suc block) items ≡ found_in
    unfolding scan_events
    scan-full h = ground arith

    scan-on :
        leb target (length found_in) ≡ false
        → scan_events gen ctx cursor filters target (suc block) items
          ≡ scan_events gen ctx cursor filters target block found_in
    unfolding scan_events
    scan-on h = ground arith

  scan_events_lem :
      (cursor : Option EventCursor) (filters : EventFilters) (target block : ℕ)
      (items : List BlockEvent)
      → length items ≤ target
      → scan_events gen ctx cursor filters target block items
        ≡ take target (items ++ keep (wanted_event cursor filters) (all_events block))
  unfolding scan_events all_events
  scan_events_lem cursor filters target zero items h =
      push_wanted_lem (wanted_event cursor filters) target
        (reverse (gen.mock_events_for_block ctx 0)) items h
  scan_events_lem cursor filters target (suc block) items h =
      let wanted = wanted_event cursor filters in
      let here = reverse (gen.mock_events_for_block ctx (suc block)) in
      let found = push_wanted wanted target here items in
      let collected = push_wanted_lem wanted target here items h in
      let older = keep wanted (all_events block) in
      let split : items ++ keep wanted (here ++ all_events block)
          ≡ (items ++ keep wanted here) ++ older =
        ap (λ zs. items ++ zs) (keep-append wanted here (all_events block))
        ∙ sym (append_assoc items (keep wanted here) older) in
      let size = length-take target (items ++ keep wanted here) in
      elim (Bool-cases (leb target (length found))) [
        | inl full ↦
            scan-full cursor filters target block items full
            ∙ collected
            ∙ sym (
                take-within target (items ++ keep wanted here) older
                  (ground (arith, ap length collected, size, full)))
            ∙ ap (take target) (sym split)
        | inr room ↦
            let fits : length (items ++ keep wanted here) ≤ target =
              ground (arith, ap length collected, size, room) in
            scan-on cursor filters target block items room
            ∙ scan_events_lem cursor filters target block found (ground (arith, room))
            ∙ ap (λ zs. take target (zs ++ older))
                (collected ∙ take-all target (items ++ keep wanted here) fits)
            ∙ ap (take target) (sym split)
      ]

  -- A page of events is the first `count` of the events that the filters and the cursor admit, of the
  -- blocks from the cursor's or the head down to block 0, newest first, and it goes on exactly when there
  -- are more. The cursor is read, and the page size is above zero and below the `u32` maximum.
  pub latest_events-first :
      (req : PageRequest) (filters : EventFilters) (cursor : Option EventCursor)
      → 0 < req.count
      → req.count < u32_max
      → parse_cursor allfeat_explorer.Cursor.Event.from_str req ≡ ok cursor
      → (page : Page BlockEvent) × (latest_events gen ctx req filters ≡ ok page)
        × (page.items
            ≡ take req.count
                (keep (wanted_event cursor filters) (all_events (scan_tip ctx cursor))))
        × (page.page_info.has_more
            ≡ ltb req.count
                (length (keep (wanted_event cursor filters) (all_events (scan_tip ctx cursor)))))
  unfolding latest_events page_of
  latest_events-first req filters cursor p n parsed =
      let all = keep (wanted_event cursor filters) (all_events (scan_tip ctx cursor)) in
      let probe : target_of req.count ≡ suc req.count = omega (arith, n) in
      let scanned : scan_events gen ctx cursor filters (target_of req.count) (scan_tip ctx cursor)
            []
          ≡ take (suc req.count) all =
        scan_events_lem cursor filters (target_of req.count) (scan_tip ctx cursor) [] (omega arith)
        ∙ ap (λ k. take k all) probe in
      (
        page_of event_text none req.count
            (scan_events gen ctx cursor filters (target_of req.count) (scan_tip ctx cursor) []),
        rw (ne→== req.count 0 (λ e. omega (arith, e, p)), parsed) refl,
        ap (truncate req.count) scanned ∙ truncate-probe req.count all,
        ap (has_more req.count) scanned ∙ has_more-probe req.count all,
      )
