-- ===== src/Queries/Blocks/Head.antt =====
-- src/data/indexed/queries/blocks.rs: the indexed head against the rows.
use allfeat_explorer.Common.{
  ℕ, ◌≤◌, ◌≡◌, refl, sym, subst, none, some, List, [], ◌∷◌, arith, max, All, Option-cases, inl, inr,
}
use allfeat_explorer.Common.Keeping.{All-each}
use allfeat_explorer.Queries.Blocks.{BlockRow, indexed_head}

indexed_head-some :
    (row : BlockRow) (rows : List BlockRow) (n : ℕ)
    → indexed_head rows ≡ some n
    → indexed_head (row ∷ rows) ≡ some (max row.num n)
unfolding indexed_head
indexed_head-some row rows n e = rw (e) refl

indexed_head-none :
    (row : BlockRow) (rows : List BlockRow)
    → indexed_head rows ≡ none
    → indexed_head (row ∷ rows) ≡ some row.num
unfolding indexed_head
indexed_head-none row rows e = rw (e) refl

-- Only an empty table has no head.
pub no_head : (rs : List BlockRow) → indexed_head rs ≡ none → rs ≡ []
no_head [] h = refl
no_head (r ∷ rs) h = elim (Option-cases (indexed_head rs)) [
  | inl e ↦ ground (arith, indexed_head-none r rs e)
  | inr (k, e) ↦ ground (arith, indexed_head-some r rs k e)
]

-- No row is above the indexed head.
pub indexed_head-All :
    (rows : List BlockRow) (n : ℕ) → indexed_head rows ≡ some n → All (λ row. row.num ≤ n) rows
unfolding indexed_head
indexed_head-All [] n e = tt
indexed_head-All (row ∷ rows) n e = elim (Option-cases (indexed_head rows)) [
  | inl h ↦
      let last_one : rows ≡ [] = no_head rows h in
      (
        ground (arith, indexed_head-none row rows h),
        subst (All (λ row. row.num ≤ n)) (sym last_one) tt,
      )
  | inr (m, h) ↦
      let same : max row.num m ≡ n = ground (arith, indexed_head-some row rows m h) in
      (
        omega (arith, same),
        All-each rows (λ r low. omega (arith, same, low)) (indexed_head-All rows m h),
      )
]
