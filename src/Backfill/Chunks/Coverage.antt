-- ===== src/Backfill/Chunks/Coverage.antt =====
-- The seeded chunks cover the missing blocks, no others, and each once.
use native.Mathlib.Decide.{dec_lt}
use allfeat_explorer.Common.{
  ℕ, ◌-◌, ◌≤◌, ◌<◌, ◌≡◌, ◌≢◌, ◌↔◌, inl, inr, ◌||◌, some, List, [], ◌∷◌, ◌++◌, arith, All, ltb, leb,
  if_elim,
}
use allfeat_explorer.Decimal.{u64_max}
use allfeat_explorer.Backfill.Chunks.{Chunk, saturating_add, split_gaps_into_chunks}
use allfeat_explorer.Backfill.Chunks.Tiles.{Covers, Ordered, Ordered-lower}
use allfeat_explorer.Backfill.Chunks.Gaps.{range, gap, gaps, gap_loop-gaps}
use allfeat_explorer.Backfill.Chunks.Ranges.{
  Ordered-append, Covers-left, Covers-right, Covers-cases, Covers-bounds, range-Ordered,
  range-Covers,
}

-- Block `n` is not among the present ones.
abbrev pub IsMissing : ℕ → List ℕ → Type 0
IsMissing n = All (λ p. p ≢ n)

-- The present blocks do not descend.
abbrev pub IsAscending : List ℕ → Type 0
IsAscending [] = Unit {0}
IsAscending (p ∷ ps) = All (λ q. p ≤ q) ps × IsAscending ps

module _ (head size : ℕ) (m : head ≤ u64_max) (p : 0 < size) where
  -- Every missing block from the cursor on is covered; the present blocks may be in any order.
  gaps-Covers :
      (existing : List ℕ) (cursor n : ℕ)
      → cursor ≤ n
      → n ≤ head
      → IsMissing n existing
      → Covers n (gaps head size existing cursor)
  unfolding gaps gap
  gaps-Covers [] cursor n l u h =
      if_elim (Covers n) (leb cursor head)
        (λ _. range-Covers cursor head size n (omega arith) m p l u) (λ past. absurd (ground arith))
  gaps-Covers (q ∷ existing) cursor n l u (ne, h) =
      let next = saturating_add q 1 in
      if_elim (Covers n) (ltb head q || ltb q cursor) (λ _. gaps-Covers existing cursor n l u h)
        (λ kept. elim (dec_lt n q) [
          | yes before ↦ Covers-left n (gap cursor q size) (gaps head size existing next) (
              if_elim (Covers n) (ltb cursor q)
                (λ _.
                  range-Covers cursor (q - 1) size n (omega arith) (ground arith) p l (omega arith))
                (λ none. absurd (ground arith)))
          | no after ↦
              Covers-right n (gap cursor q size) (gaps head size existing next)
                (gaps-Covers existing next n (omega arith) u h)
        ])

  gaps-Ordered :
      (existing : List ℕ) (cursor : ℕ) → Ordered size cursor head (gaps head size existing cursor)
  unfolding gaps gap
  gaps-Ordered [] cursor =
      if_elim (Ordered size cursor head) (leb cursor head)
        (λ within. range-Ordered cursor head size (ground arith) m p) (λ _. tt)
  gaps-Ordered (q ∷ existing) cursor =
      let next = saturating_add q 1 in
      if_elim (Ordered size cursor head) (ltb head q || ltb q cursor)
        (λ _. gaps-Ordered existing cursor)
        (λ kept.
          if_elim (λ cs. Ordered size cursor head (cs ++ gaps head size existing next))
            (ltb cursor q)
            (λ before.
              Ordered-append size cursor (q - 1) next head (range cursor (q - 1) size)
                (gaps head size existing next) (ground arith) (ground arith) (ground arith)
                (range-Ordered cursor (q - 1) size (ground arith) (ground arith) p)
                (gaps-Ordered existing next))
            (λ at.
              Ordered-lower size next cursor head (gaps head size existing next) (ground arith)
                (gaps-Ordered existing next)))

IsMissing-below :
    (q n : ℕ) (existing : List ℕ) → n < q → All (λ r. q ≤ r) existing → IsMissing n existing
IsMissing-below q n [] h a = tt
IsMissing-below q n (r ∷ existing) h (hr, a) =
    ((λ e. omega arith), IsMissing-below q n existing h a)

gap-bounds : (size cursor q n : ℕ) → q ≤ u64_max → 0 < size → Covers n (gap cursor q size) → n < q
unfolding gap
gap-bounds size cursor q n m p =
    if_elim (λ cs. Covers n cs → n < q) (ltb cursor q)
      (λ before c.
        let bounds =
          Covers-bounds size cursor (q - 1) n (range cursor (q - 1) size)
            (range-Ordered cursor (q - 1) size (ground arith) (omega arith) p) c in
        let lt : cursor < q = ground arith in omega arith)
      (λ _ c. absurd c)

module _ (head size : ℕ) (m : head < u64_max) (p : 0 < size) where
  gaps_bounds :
      (existing : List ℕ) (cursor n : ℕ)
      → Covers n (gaps head size existing cursor)
      → (cursor ≤ n) × (n ≤ head)
  gaps_bounds existing cursor n =
      Covers-bounds size cursor head n (gaps head size existing cursor)
        (gaps-Ordered head size (omega arith) p existing cursor)

  -- No present block is covered if the present blocks ascend.
  gaps-IsMissing :
      (existing : List ℕ) (cursor n : ℕ)
      → IsAscending existing
      → Covers n (gaps head size existing cursor)
      → IsMissing n existing
  unfolding gaps
  gaps-IsMissing [] cursor n s = λ c. tt
  gaps-IsMissing (q ∷ existing) cursor n (above, s) =
      let next = saturating_add q 1 in
      if_elim (λ cs. Covers n cs → IsMissing n (q ∷ existing)) (ltb head q || ltb q cursor)
        (λ skipped c.
          let bounds = gaps_bounds existing cursor n c in
          ((λ e. ground arith), gaps-IsMissing existing cursor n s c))
        (λ kept c. elim (Covers-cases n (gap cursor q size) (gaps head size existing next) c) [
          | inl l ↦
              let lt = gap-bounds size cursor q n (ground arith) p l in
              ((λ e. omega arith), IsMissing-below q n existing lt above)
          | inr r ↦
              let bounds = gaps_bounds existing next n r in
              let fits : q < u64_max = ground arith in
              ((λ e. omega arith), gaps-IsMissing existing next n s r)
        ])

split_gaps-gaps :
    (head : ℕ) (existing : List ℕ) (size : ℕ)
    → head ≤ u64_max
    → 0 < size
    → split_gaps_into_chunks head existing size ≡ some (gaps head size existing 0)
unfolding split_gaps_into_chunks
split_gaps-gaps head existing size m p = ground (arith, gap_loop-gaps head size existing 0 [] m p)

-- With a chunk size above zero the call returns chunks that ascend without overlap, hold one block to
-- `size` blocks each and end by `head`, whatever the present blocks are.
pub split_gaps_Ordered :
    (head : ℕ) (existing : List ℕ) (size : ℕ)
    → head ≤ u64_max
    → 0 < size
    → (chunks : List Chunk) × (split_gaps_into_chunks head existing size ≡ some chunks)
      × Ordered size 0 head chunks
split_gaps_Ordered head existing size m p = (
  gaps head size existing 0,
  split_gaps-gaps head existing size m p,
  gaps-Ordered head size m p existing 0,
)

-- A block up to `head` that is not present is in a chunk, also if the present blocks come in disorder
-- or lie above `head`.
pub split_gaps_complete :
    (head : ℕ) (existing : List ℕ) (size n : ℕ)
    → head ≤ u64_max
    → 0 < size
    → n ≤ head
    → IsMissing n existing
    → (chunks : List Chunk) × (split_gaps_into_chunks head existing size ≡ some chunks)
      × Covers n chunks
split_gaps_complete head existing size n m p u h = (
  gaps head size existing 0,
  split_gaps-gaps head existing size m p,
  gaps-Covers head size m p existing 0 n (omega arith) u h,
)

-- If the present blocks ascend, `head` is below the `u64` maximum and the chunk size is above zero,
-- the call returns chunks of which block `n` is in one exactly when it is at most `head` and not
-- present.
pub split_gaps_exact :
    (head : ℕ) (existing : List ℕ) (size n : ℕ)
    → head < u64_max
    → 0 < size
    → IsAscending existing
    → (chunks : List Chunk) × (split_gaps_into_chunks head existing size ≡ some chunks)
      × (Covers n chunks ↔ ((n ≤ head) × IsMissing n existing))
split_gaps_exact head existing size n m p s = (
  gaps head size existing 0,
  split_gaps-gaps head existing size (omega arith) p,
  (
    (λ c. (
      (gaps_bounds head size m p existing 0 n c).1,
      gaps-IsMissing head size m p existing 0 n s c,
    )),
    (λ h. gaps-Covers head size (omega arith) p existing 0 n (omega arith) h.0 h.1),
  ),
)
