-- ===== src/Backfill/Chunks/Tiles.antt =====
-- What `push_chunked` appends: consecutive slices of a range.
use allfeat_explorer.Common.{
  ℕ, zero, suc, ◌+◌, ◌-◌, ◌≤◌, ◌<◌, ◌≡◌, ◌⊎◌, inl, inr, refl, some, List, [], ◌∷◌, ◌++◌, arith,
  append_assoc, Bool, true, false, ◌==◌, if◌then◌else◌, min,
}
use allfeat_explorer.Decimal.{u64_max}
use allfeat_explorer.Backfill.Chunks.{Chunk, saturating_add, push_loop, push_chunked}
use native.Mathlib.Decide.{dec_lt}
use native.Mathlib.Nat.{le_refl}

-- Block `n` lies in a chunk of the list.
abbrev pub Covers : ℕ → List Chunk → Type 0
Covers n [] = ⊥
Covers n ((a, b) ∷ cs) = ((a ≤ n) × (n ≤ b)) ⊎ Covers n cs

-- The chunks ascend from `lo` without overlap, hold a block at least and `size` blocks at most, and
-- end by `hi`.
abbrev pub Ordered : ℕ → ℕ → ℕ → List Chunk → Type 0
Ordered size lo hi [] = Unit {0}
Ordered size lo hi ((a, b) ∷ cs) =
    (lo ≤ a) × (a ≤ b) × (b < a + size) × (b ≤ hi) × Ordered size (suc b) hi cs

slice_end : ℕ → ℕ → ℕ → ℕ
slice_end f to size = min (saturating_add f (size - 1)) to

-- The slices that the loop appends.
pub tiles : ℕ → ℕ → ℕ → ℕ → List Chunk
unfolding slice_end
tiles zero f to size = []
tiles (suc k) f to size =
    let end = slice_end f to size in
    let rest = tiles k (end + 1) to size in (f, end) ∷ (if end == to then [] else rest)

slice_end_bounds :
    (f to size : ℕ)
    → f ≤ to
    → to ≤ u64_max
    → 0 < size
    → (f ≤ slice_end f to size) × (slice_end f to size ≤ to) × (slice_end f to size < f + size)
unfolding slice_end
slice_end_bounds f to size h m p = omega arith

push_loop-tiles :
    (fuel : ℕ) (out : List Chunk) (f to size : ℕ)
    → f ≤ to
    → to ≤ u64_max
    → 0 < size
    → to - f < fuel
    → push_loop fuel out f to size ≡ some (out ++ tiles fuel f to size)
unfolding push_loop tiles
push_loop-tiles zero out f to size h m p e = absurd (omega arith)
push_loop-tiles (suc fuel) out f to size h m p e =
    let end = slice_end f to size in
    ground (
      arith,
      push_loop-tiles fuel (out ++ (f, end) ∷ []) (end + 1) to size,
      append_assoc out ((f, end) ∷ []) (tiles fuel (end + 1) to size),
      slice_end_bounds f to size h m p,
    )

pub Ordered-lower :
    (size lo lo' hi : ℕ) (cs : List Chunk)
    → lo' ≤ lo
    → Ordered size lo hi cs
    → Ordered size lo' hi cs
Ordered-lower size lo lo' hi [] h o = tt
Ordered-lower size lo lo' hi ((a, b) ∷ cs) h o = (omega arith, o.1, o.2, o.3, o.4)

Ordered-last :
    (b : Bool) (size lo hi : ℕ) (cs : List Chunk)
    → (b ≡ false → Ordered size lo hi cs)
    → Ordered size lo hi (if b then [] else cs)
Ordered-last true size lo hi cs h = tt
Ordered-last false size lo hi cs h = h refl

pub tiles-Ordered :
    (k f to size : ℕ) → f ≤ to → to ≤ u64_max → 0 < size → Ordered size f to (tiles k f to size)
unfolding tiles
tiles-Ordered zero f to size h m p = tt
tiles-Ordered (suc k) f to size h m p =
    let end = slice_end f to size in
    let bounds = slice_end_bounds f to size h m p in
    (
      le_refl f,
      bounds.0,
      bounds.2,
      bounds.1,
      Ordered-last (end == to) size (suc end) to (tiles k (end + 1) to size) λ more.
          Ordered-lower size (end + 1) (suc end) to (tiles k (end + 1) to size) (omega arith)
            (tiles-Ordered k (end + 1) to size (ground arith) m p),
    )

Covers-last :
    (b : Bool) (n : ℕ) (cs : List Chunk) → b ≡ false → Covers n cs → Covers n (if b then [] else cs)
Covers-last true n cs e h = cc
Covers-last false n cs e h = h

pub tiles-Covers :
    (k f to size n : ℕ)
    → f ≤ to
    → to ≤ u64_max
    → 0 < size
    → to - f < k
    → f ≤ n
    → n ≤ to
    → Covers n (tiles k f to size)
unfolding tiles
tiles-Covers zero f to size n h m p e l u = absurd (omega arith)
tiles-Covers (suc k) f to size n h m p e l u =
    let end = slice_end f to size in
    let bounds = slice_end_bounds f to size h m p in
    elim (dec_lt end n) [
      | yes after ↦ inr (
          Covers-last (end == to) n (tiles k (end + 1) to size) (ground arith)
            (tiles-Covers k (end + 1) to size n (omega arith) m p (omega arith) (omega arith) u))
      | no within ↦ inl (l, omega arith)
    ]

-- A range in ascending bounds is cut into slices, whatever was there before.
pub push_chunked-tiles :
    (out : List Chunk) (f to size : ℕ)
    → f ≤ to
    → to ≤ u64_max
    → 0 < size
    → push_chunked out f to size ≡ some (out ++ tiles (suc (to - f)) f to size)
unfolding push_chunked
push_chunked-tiles out f to size h m p =
    push_loop-tiles (suc (to - f)) out f to size h m p (omega arith)
