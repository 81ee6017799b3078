-- ===== src/Backfill/Chunks/Ranges.antt =====
-- Chunks joined and taken apart, and the chunks of one gap.
use allfeat_explorer.Common.{ℕ, suc, ◌-◌, ◌≤◌, ◌<◌, ◌⊎◌, inl, inr, List, [], ◌∷◌, ◌++◌, arith}
use allfeat_explorer.Decimal.{u64_max}
use allfeat_explorer.Backfill.Chunks.{Chunk}
use allfeat_explorer.Backfill.Chunks.Tiles.{
  Covers, Ordered, Ordered-lower, tiles-Ordered, tiles-Covers,
}
use allfeat_explorer.Backfill.Chunks.Gaps.{range}

pub Ordered-append :
    (size lo e mid hi : ℕ) (xs ys : List Chunk)
    → lo ≤ mid
    → e < mid
    → e ≤ hi
    → Ordered size lo e xs
    → Ordered size mid hi ys
    → Ordered size lo hi (xs ++ ys)
Ordered-append size lo e mid hi [] ys h k l o r = Ordered-lower size mid lo hi ys h r
Ordered-append size lo e mid hi ((a, b) ∷ xs) ys h k l o r =
    (o.0, o.1, o.2, omega arith, Ordered-append size (suc b) e mid hi xs ys (omega arith) k l o.4 r)

pub Covers-left : (n : ℕ) (xs ys : List Chunk) → Covers n xs → Covers n (xs ++ ys)
Covers-left n [] ys c = absurd c
Covers-left n ((a, b) ∷ xs) ys (inl h) = inl h
Covers-left n ((a, b) ∷ xs) ys (inr h) = inr (Covers-left n xs ys h)

pub Covers-right : (n : ℕ) (xs ys : List Chunk) → Covers n ys → Covers n (xs ++ ys)
Covers-right n [] ys c = c
Covers-right n ((a, b) ∷ xs) ys c = inr (Covers-right n xs ys c)

pub Covers-cases : (n : ℕ) (xs ys : List Chunk) → Covers n (xs ++ ys) → Covers n xs ⊎ Covers n ys
Covers-cases n [] ys c = inr c
Covers-cases n ((a, b) ∷ xs) ys (inl h) = inl (inl h)
Covers-cases n ((a, b) ∷ xs) ys (inr h) = elim (Covers-cases n xs ys h) [
  | inl l ↦ inl (inr l)
  | inr r ↦ inr r
]

-- A covered block is within the bounds of the chunks.
pub Covers-bounds :
    (size lo hi n : ℕ) (cs : List Chunk) → Ordered size lo hi cs → Covers n cs → (lo ≤ n) × (n ≤ hi)
Covers-bounds size lo hi n [] o c = absurd c
Covers-bounds size lo hi n ((a, b) ∷ cs) o (inl c) = omega arith
Covers-bounds size lo hi n ((a, b) ∷ cs) o (inr c) =
    omega (arith, Covers-bounds size (suc b) hi n cs o.4 c)

pub range-Ordered :
    (f to size : ℕ) → f ≤ to → to ≤ u64_max → 0 < size → Ordered size f to (range f to size)
unfolding range
range-Ordered f to size h m p = tiles-Ordered (suc (to - f)) f to size h m p

pub range-Covers :
    (f to size n : ℕ)
    → f ≤ to
    → to ≤ u64_max
    → 0 < size
    → f ≤ n
    → n ≤ to
    → Covers n (range f to size)
unfolding range
range-Covers f to size n h m p = tiles-Covers (suc (to - f)) f to size n h m p (omega arith)
