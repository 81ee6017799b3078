-- ===== src/Backfill/Chunks.antt =====
-- src/indexer/backfill.rs: `split_gaps_into_chunks` and `push_chunked`. Blocks are `u64`; `none` is
-- the failed assertion, or a loop that the fuel did not suffice for.
pub mod Tiles
pub mod Gaps
pub mod Ranges
pub mod Coverage
use allfeat_explorer.Common.{
  ℕ, zero, suc, ◌+◌, ◌-◌, Bool, true, false, ◌||◌, Option, none, some, List, [], ◌∷◌, ◌++◌, ltb,
  leb, ◌==◌, if◌then◌else◌, min,
}
use allfeat_explorer.Decimal.{u64_max}

abbrev pub Chunk : Type 0
Chunk = ℕ × ℕ

abbrev pub default_chunk_size : ℕ
default_chunk_size = 1000

abbrev pub saturating_add : ℕ → ℕ → ℕ
saturating_add a b = min (a + b) u64_max

-- The `loop`, with the count of rounds that it may take.
unfoldable pub push_loop : ℕ → List Chunk → ℕ → ℕ → ℕ → Option (List Chunk)
push_loop zero out f to size = none
push_loop (suc fuel) out f to size =
    let end = min (saturating_add f (size - 1)) to in
    let out' = out ++ (f, end) ∷ [] in
    let rest = push_loop fuel out' (end + 1) to size in if end == to then some out' else rest

-- Each round moves on by a block at least.
unfoldable pub push_chunked : List Chunk → ℕ → ℕ → ℕ → Option (List Chunk)
unfolding push_loop
push_chunked out from to size = push_loop (suc (to - from)) out from to size

-- The gap in front of a block that is present.
unfoldable pub push_gap : List Chunk → ℕ → ℕ → ℕ → Option (List Chunk)
push_gap out cursor present size =
    if ltb cursor present then push_chunked out cursor (present - 1) size else some out

-- The `for` loop over the present blocks, and the gap behind the last of them.
unfoldable pub gap_loop : ℕ → ℕ → List ℕ → ℕ → List Chunk → Option (List Chunk)
gap_loop head size [] cursor out =
    if leb cursor head then push_chunked out cursor head size else some out
gap_loop head size (present ∷ existing) cursor out = elim (ltb head present || ltb present cursor) [
  | true ↦ gap_loop head size existing cursor out
  | false ↦ elim (push_gap out cursor present size) [
    | none ↦ none
    | some out' ↦ gap_loop head size existing (saturating_add present 1) out'
  ]
]

unfoldable pub split_gaps_into_chunks : ℕ → List ℕ → ℕ → Option (List Chunk)
split_gaps_into_chunks head existing size =
    if ltb 0 size then gap_loop head size existing 0 [] else none
