-- ===== src/Mock.antt =====
-- src/data/mock.rs: the list endpoints of the mock provider, over the generators of src/mock/data.rs,
-- which are parameters, as is the synthesis of a block's events.
pub mod Events
use allfeat_explorer.Common.{
  ℕ, zero, suc, ◌+◌, ◌-◌, ◌*◌, ◌%◌, ◌^◌, Bool, true, false, ◌&&◌, not, Option, none, some, List, [],
  ◌∷◌, ◌++◌, Bytes, Result, ok, err, ◌>>=◌, ltb, leb, ◌==◌, if◌then◌else◌, length, keep, reverse,
  min, get_elem?,
}
use allfeat_explorer.Common.Maps.{pair_lt}
use allfeat_explorer.Decimal.{u64_max, u32_max, parse}
use allfeat_explorer.Domain.{
  Block, BlockEvent, Extrinsic, Page, PageInfo, PageRequest, Transfer, empty_page,
}
use allfeat_explorer.Errors.{DataError}
use allfeat_explorer.Filters.{
  BlockFilters, ExtrinsicFilters, TransferFilters, EventFilters, block_matches_filters,
  extrinsic_matches_filters, transfer_matches_filters, event_matches_filters,
}
use allfeat_explorer.Cursor.Block.{BlockCursor}
use allfeat_explorer.Cursor.Extrinsic.{ExtrinsicCursor}
use allfeat_explorer.Cursor.Transfer.{TransferCursor}
use allfeat_explorer.Cursor.Event.{EventCursor, from_phase}
use allfeat_explorer.Cursor.Request.{parse_cursor}
use allfeat_explorer.Network.{ChainCtx, head_block}
use allfeat_explorer.Queries.Keyset.{last, truncate, has_more}
use allfeat_explorer.Text.{split_once}

pub record Generators : Type 0 where
  pub build_block : ChainCtx → ℕ → Block
  pub get_blocks : ChainCtx → ℕ → ℕ → List Block
  pub build_extrinsics : ChainCtx → ℕ → ℕ → List Extrinsic
  pub get_latest_extrinsics : ChainCtx → ℕ → List Extrinsic
  pub get_transfers : ChainCtx → ℕ → List Transfer
  pub mock_events_for_block : ChainCtx → ℕ → List BlockEvent

-- The page of the items that a loop collected, at most one more than `count`.
unfoldable pub page_of : {A : Type 0} → (A → Bytes) → Option ℕ → ℕ → List A → Page A
page_of text total count items =
    let shown = truncate count items in
    record {
      items = shown;
      page_info = record {
        total = total;
        next_cursor =
            if has_more count items
            then elim (last shown) [ none ↦ none | some a ↦ some (text a) ]
            else none;
        has_more = has_more count items;
      };
    }

-- The loop that pushes the wanted items until it has `target` of them.
unfoldable pub push_wanted : {A : Type 0} → (A → Bool) → ℕ → List A → List A → List A
push_wanted wanted target [] items = items
push_wanted wanted target (x ∷ xs) items = elim (wanted x) [
  | false ↦ push_wanted wanted target xs items
  | true ↦ elim (leb target (length items)) [
    | true ↦ items
    | false ↦ push_wanted wanted target xs (items ++ x ∷ [])
  ]
]

-- Not `place >= cursor`, where there is a cursor.
abbrev pub behind : Option (ℕ × ℕ) → ℕ × ℕ → Bool
behind none place = true
behind (some c) place = pair_lt place c

abbrev pub event_key : Option EventCursor → Option (ℕ × ℕ)
event_key none = none
event_key (some c) = some (c.block, c.index)

abbrev pub extrinsic_key : Option ExtrinsicCursor → Option (ℕ × ℕ)
extrinsic_key none = none
extrinsic_key (some c) = some (c.block, c.index)

abbrev pub transfer_key_of : Option TransferCursor → Option (ℕ × ℕ)
transfer_key_of none = none
transfer_key_of (some c) = some (c.block, c.event_idx)

abbrev pub wanted_event : Option EventCursor → EventFilters → BlockEvent → Bool
wanted_event cursor filters ev =
    behind (event_key cursor) (ev.block_number, ev.index) && event_matches_filters ev filters

abbrev pub event_text : BlockEvent → Bytes
event_text ev =
    allfeat_explorer.Cursor.Event.to_string
      (record { block = ev.block_number; phase = from_phase ev.phase; index = ev.index })

-- `count.saturating_add(1)` on `u32`.
abbrev pub target_of : ℕ → ℕ
target_of count = min (count + 1) u32_max

unfoldable pub tip_of : ChainCtx → Option BlockCursor → ℕ
tip_of ctx none = head_block ctx
tip_of ctx (some c) = min (c.block - 1) (head_block ctx)

unfoldable pub scan_tip : ChainCtx → Option EventCursor → ℕ
scan_tip ctx none = head_block ctx
scan_tip ctx (some c) = min c.block (head_block ctx)

module _ (gen : Generators) (ctx : ChainCtx) where
  unfoldable pub block_by_number : ℕ → Option Block
  block_by_number number =
      if ltb (head_block ctx) number then none else some (gen.build_block ctx number)

  unfoldable pub extrinsics_in_block : ℕ → List Extrinsic
  extrinsics_in_block block =
      gen.build_extrinsics ctx block (gen.build_block ctx block).extrinsic_count

  -- The probe is `count + 1` as a `u32`, which wraps.
  unfoldable pub latest_blocks : PageRequest → BlockFilters → Result DataError (Page Block)
  latest_blocks req filters = if req.count == 0 then ok empty_page else (do
    cursor ← parse_cursor allfeat_explorer.Cursor.Block.from_str req
    ok (
        page_of
          (λ (b : Block). allfeat_explorer.Cursor.Block.to_string (record { block = b.number }))
          (some ((head_block ctx + 1) % 2 ^ 64)) req.count
          (keep (λ b. block_matches_filters b filters)
            (gen.get_blocks ctx ((req.count + 1) % 2 ^ 32) (tip_of ctx cursor)))))

  -- The walk back from a block to block 0.
  unfoldable pub scan_events :
      Option EventCursor → EventFilters → ℕ → ℕ → List BlockEvent → List BlockEvent
  unfolding push_wanted
  scan_events cursor filters target zero items =
      push_wanted (wanted_event cursor filters) target (reverse (gen.mock_events_for_block ctx 0))
        items
  scan_events cursor filters target (suc block) items =
      let found =
        push_wanted (wanted_event cursor filters) target
          (reverse (gen.mock_events_for_block ctx (suc block))) items in
      elim (leb target (length found)) [
        | true ↦ found
        | false ↦ scan_events cursor filters target block found
      ]

  unfoldable pub latest_events : PageRequest → EventFilters → Result DataError (Page BlockEvent)
  latest_events req filters = if req.count == 0 then ok empty_page else (do
    cursor ← parse_cursor allfeat_explorer.Cursor.Event.from_str req
    ok (
        page_of event_text none req.count
          (scan_events cursor filters (target_of req.count) (scan_tip ctx cursor) [])))

  unfoldable pub latest_extrinsics :
      PageRequest → ExtrinsicFilters → Result DataError (Page Extrinsic)
  latest_extrinsics req filters = if req.count == 0 then ok empty_page else (do
    cursor ← parse_cursor allfeat_explorer.Cursor.Extrinsic.from_str req
    ok (
        page_of
          (λ (e : Extrinsic).
            allfeat_explorer.Cursor.Extrinsic.to_string
              (record { block = e.block_number; index = e.index }))
          none req.count
          (push_wanted
            (λ (e : Extrinsic).
              behind (extrinsic_key cursor) (e.block_number, e.index)
              && extrinsic_matches_filters e filters)
            (target_of req.count) (gen.get_latest_extrinsics ctx (target_of req.count * 2)) [])))

  unfoldable pub latest_transfers : PageRequest → TransferFilters → Result DataError (Page Transfer)
  latest_transfers req filters = if req.count == 0 then ok empty_page else (do
    cursor ← parse_cursor allfeat_explorer.Cursor.Transfer.from_str req
    ok (
        page_of
          (λ (t : Transfer).
            allfeat_explorer.Cursor.Transfer.to_string
              (record { block = t.extrinsic.block_number; event_idx = t.extrinsic.index }))
          none req.count
          (push_wanted
            (λ (t : Transfer).
              behind (transfer_key_of cursor) (t.extrinsic.block_number, t.extrinsic.index)
              && transfer_matches_filters t filters)
            (target_of req.count) (gen.get_transfers ctx (target_of req.count * 2)) [])))

  -- The extrinsic at a position, within the chain and the block.
  unfoldable pub extrinsic_at : ℕ → ℕ → Option Extrinsic
  extrinsic_at block idx =
      if ltb (head_block ctx) block
      then none
      else if leb (gen.build_block ctx block).extrinsic_count idx
      then none
      else get_elem? (gen.build_extrinsics ctx block (gen.build_block ctx block).extrinsic_count)
          idx

  unfoldable pub extrinsic_by_id : Bytes → Option Extrinsic
  extrinsic_by_id id = elim (split_once b'-' id) [
    | none ↦ none
    | some (block_str, idx_str) ↦ elim (parse u64_max block_str) [
      | none ↦ none
      | some block ↦ elim (parse u32_max idx_str) [
        | none ↦ none
        | some idx ↦ extrinsic_at block idx
      ]
    ]
  ]
