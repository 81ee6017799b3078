-- ===== src/Backfill/Chunks/Gaps.antt =====
-- The chunks of all gaps, in front of each present block and behind the last.
use allfeat_explorer.Common.{
  ℕ, suc, ◌-◌, ◌≤◌, ◌<◌, ◌≡◌, ◌||◌, some, List, [], ◌∷◌, ◌++◌, arith, append_assoc, append-nil, ltb,
  leb, if◌then◌else◌,
}
use allfeat_explorer.Decimal.{u64_max}
use allfeat_explorer.Backfill.Chunks.{Chunk, saturating_add, push_gap, gap_loop}
use allfeat_explorer.Backfill.Chunks.Tiles.{tiles, push_chunked-tiles}

unfoldable pub range : ℕ → ℕ → ℕ → List Chunk
range f to size = tiles (suc (to - f)) f to size

unfoldable pub gap : ℕ → ℕ → ℕ → List Chunk
gap cursor present size = if ltb cursor present then range cursor (present - 1) size else []

-- The chunks that the loop appends from `cursor` on.
unfoldable pub gaps : ℕ → ℕ → List ℕ → ℕ → List Chunk
gaps head size [] cursor = if leb cursor head then range cursor head size else []
gaps head size (present ∷ existing) cursor =
    let skipped = gaps head size existing cursor in
    let rest = gap cursor present size ++ gaps head size existing (saturating_add present 1) in
    if ltb head present || ltb present cursor then skipped else rest

push_gap-gap :
    (out : List Chunk) (cursor present size : ℕ)
    → present ≤ u64_max
    → 0 < size
    → push_gap out cursor present size ≡ some (out ++ gap cursor present size)
unfolding push_gap gap range
push_gap-gap out cursor present size m p =
    ground (arith, push_chunked-tiles out cursor (present - 1) size, append-nil out)

pub gap_loop-gaps :
    (head size : ℕ) (existing : List ℕ) (cursor : ℕ) (out : List Chunk)
    → head ≤ u64_max
    → 0 < size
    → gap_loop head size existing cursor out ≡ some (out ++ gaps head size existing cursor)
unfolding gap_loop gaps range
gap_loop-gaps head size [] cursor out m p =
    ground (arith, push_chunked-tiles out cursor head size, append-nil out)
gap_loop-gaps head size (present ∷ existing) cursor out m p =
    let next = saturating_add present 1 in
    ground (
      arith,
      push_gap-gap out cursor present size,
      gap_loop-gaps head size existing cursor out m p,
      gap_loop-gaps head size existing next (out ++ gap cursor present size) m p,
      append_assoc out (gap cursor present size) (gaps head size existing next),
    )
