-- ===== src/Examples/Chunks.antt =====
-- The theorems on the plan of a backfill and on stored error texts, at concrete inputs.
use allfeat_explorer.Common.{
  ℕ, zero, suc, ◌≤◌, ◌<◌, ◌≡◌, ◌↔◌, ◌⊎◌, List, [], ◌∷◌, ◌++◌, some, true, arith, length, take,
  Bytes,
}
use allfeat_explorer.Backfill.Chunks.{Chunk, split_gaps_into_chunks}
use allfeat_explorer.Backfill.Chunks.Tiles.{Covers, Ordered}
use allfeat_explorer.Backfill.Chunks.Coverage.{IsMissing, split_gaps_Ordered, split_gaps_exact}
use allfeat_explorer.Backfill.ErrorText.{
  last_error_cap, is_char_boundary, truncate_error, ellipsis, truncate_error_cut,
}

abbrev existing : List ℕ
existing = 2 ∷ 3 ∷ 9 ∷ []

split_gaps_Ordered_example :
    (chunks : List Chunk) × (split_gaps_into_chunks 12 existing 4 ≡ some chunks)
    × Ordered 4 0 12 chunks
split_gaps_Ordered_example = split_gaps_Ordered 12 existing 4 (omega arith) (omega arith)

split_gaps_exact_example :
    (chunks : List Chunk) × (split_gaps_into_chunks 12 existing 4 ≡ some chunks)
    × (Covers 3 chunks ↔ ((3 ≤ 12) × IsMissing 3 existing))
split_gaps_exact_example =
    split_gaps_exact 12 existing 4 3 (omega arith) (omega arith)
      ((omega arith, (omega arith, tt)), ((omega arith, tt), (tt, tt)))

abbrev CutAtBoundary : Bytes → Type 0
CutAtBoundary s =
    ((length s ≤ last_error_cap) × (truncate_error s ≡ s))
    ⊎ ((end : ℕ) × (last_error_cap < length s)
        × (end ≤ last_error_cap)
        × (is_char_boundary s end ≡ true)
        × ((i : ℕ) → i ≤ last_error_cap → is_char_boundary s i ≡ true → i ≤ end)
        × (truncate_error s ≡ take end s ++ ellipsis)
        × (length (truncate_error s) ≤ 2051))

-- A text of `n` times the byte `b`.
abbrev repeat : ℕ → ℕ → Bytes
repeat zero b = []
repeat (suc n) b = b ∷ repeat n b

truncate_error_cut_example : CutAtBoundary (repeat 2100 b'x')
truncate_error_cut_example = truncate_error_cut (repeat 2100 b'x')
