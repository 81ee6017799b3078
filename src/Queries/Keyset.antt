-- ===== src/Queries/Keyset.antt =====
-- Pages that are cut from rows in strictly descending order, each behind the last row of the page
-- before it.
use allfeat_explorer.Common.{
  ℕ, zero, suc, ◌<◌, ◌≡◌, refl, sym, ap, subst, Bool, true, false, Option, none, some, List, [],
  ◌∷◌, ◌++◌, map, arith, All, keep, take, drop, length, ltb, if◌then◌else◌, Bool-cases, inl, inr,
  length-take, take-all,
}
use allfeat_explorer.Common.Keeping.{keep-true, keep-false, All-keep, All-take, All-each}
use allfeat_explorer.Common.Members.{DistinctBy}

module _ {A : Type 0} where
  -- `items.last()`
  abbrev pub last : List A → Option A
  last [] = none
  last (x ∷ []) = some x
  last (x ∷ y ∷ xs) = last (y ∷ xs)

  -- `truncate(count)` of up to `count + 1` rows, and whether one more was there.
  unfoldable pub truncate : ℕ → List A → List A
  truncate count rows = if ltb count (length rows) then take count rows else rows

  unfoldable pub has_more : ℕ → List A → Bool
  has_more count rows = ltb count (length rows)

  take-take : (n : ℕ) (xs : List A) → take n (take (suc n) xs) ≡ take n xs
  take-take zero xs = refl
  take-take (suc n) [] = refl
  take-take (suc n) (x ∷ xs) = ap (◌∷◌ x) (take-take n xs)

  length-take-suc : (n : ℕ) (xs : List A) → ltb n (length (take (suc n) xs)) ≡ ltb n (length xs)
  length-take-suc n xs = ground (arith, length-take (suc n) xs)

  -- The probe for one row more does not show in the page.
  pub truncate-probe : (n : ℕ) (xs : List A) → truncate n (take (suc n) xs) ≡ take n xs
  unfolding truncate
  truncate-probe n xs =
      ground (arith, length-take-suc n xs, take-take n xs, take-all n xs, take-all (suc n) xs)

  pub has_more-probe : (n : ℕ) (xs : List A) → has_more n (take (suc n) xs) ≡ ltb n (length xs)
  unfolding has_more
  has_more-probe n xs = length-take-suc n xs

  -- The last row of a full page splits the rows.
  pub last-take :
      (n : ℕ) (xs : List A)
      → n < length xs
      → 0 < n
      → (pre : List A) × (r : A) × (last (take n xs) ≡ some r)
        × (take n xs ≡ pre ++ r ∷ [])
        × (xs ≡ pre ++ r ∷ drop n xs)
  last-take zero xs h p = absurd (omega arith)
  last-take (suc n) [] h p = absurd (omega arith)
  last-take (suc zero) (x ∷ xs) h p = ([], x, refl, refl, refl)
  last-take (suc (suc n)) (x ∷ []) h p = absurd (omega arith)
  last-take (suc (suc n)) (x ∷ y ∷ xs) h p =
      let (pre, r, l, t, s) = last-take (suc n) (y ∷ xs) (omega arith) (omega arith) in
      (x ∷ pre, r, l, ap (◌∷◌ x) t, ap (◌∷◌ x) s)

module _ {A : Type 0} {K : Type 0} (key : A → K) (before : K → K → Bool) where
  -- Each row is strictly before the rows in front of it.
  abbrev pub IsDescending : List A → Type 0
  IsDescending [] = Unit {0}
  IsDescending (r ∷ rows) = All (λ s. before (key s) (key r) ≡ true) rows × IsDescending rows

  abbrev pub rest_below : K → List A → List A
  rest_below c = keep (λ s. before (key s) c)

  keep-everything :
      (c : K) (xs : List A) → All (λ s. before (key s) c ≡ true) xs → rest_below c xs ≡ xs
  keep-everything c [] h = refl
  keep-everything c (x ∷ xs) (p, h) = ground (arith, keep-everything c xs h)

  All-tail : (P : A → Type 0) (pre : List A) (r : A) (ys : List A) → All P (pre ++ r ∷ ys) → P r
  All-tail P [] r ys h = h.0
  All-tail P (x ∷ pre) r ys h = All-tail P pre r ys h.1

  -- What is below a row are the rows behind it.
  pub below-row :
      ((a b : K) → before a b ≡ true → before b a ≡ false)
      → (pre : List A) (r : A) (ys : List A) → before (key r) (key r) ≡ false
      → IsDescending (pre ++ r ∷ ys)
      → rest_below (key r) (pre ++ r ∷ ys) ≡ ys
  below-row asym [] r ys irr (h, d) = ground (arith, keep-everything (key r) ys h)
  below-row asym (x ∷ pre) r ys irr (h, d) =
      let older = All-tail (λ s. before (key s) (key x) ≡ true) pre r ys h in
      ground (arith, asym (key r) (key x) older, below-row asym pre r ys irr d)

  pub IsDescending-keep :
      (p : A → Bool) (rows : List A) → IsDescending rows → IsDescending (keep p rows)
  IsDescending-keep p [] d = tt
  IsDescending-keep p (r ∷ rows) (h, d) = elim (Bool-cases (p r)) [
    | inl e ↦
        subst IsDescending (sym (keep-true p r rows e))
          (All-keep (λ s. before (key s) (key r) ≡ true) p rows h, IsDescending-keep p rows d)
    | inr e ↦ subst IsDescending (sym (keep-false p r rows e)) (IsDescending-keep p rows d)
  ]

  -- A row with rows behind it is not the lowest.
  pub row-behind :
      (pre : List A) (r : A) (ys : List A)
      → IsDescending (pre ++ r ∷ ys)
      → 0 < length ys
      → (s : A) × (before (key s) (key r) ≡ true)
  row-behind [] r [] d h = absurd (omega arith)
  row-behind [] r (s ∷ ys) ((p, _), _) h = (s, p)
  row-behind (x ∷ pre) r ys (_, d) h = row-behind pre r ys d h

  pub IsDescending-take : (n : ℕ) (rows : List A) → IsDescending rows → IsDescending (take n rows)
  IsDescending-take zero rows d = tt
  IsDescending-take (suc n) [] d = tt
  IsDescending-take (suc n) (r ∷ rows) (h, d) =
      (All-take (λ s. before (key s) (key r) ≡ true) n rows h, IsDescending-take n rows d)

  -- Rows in a strict order have distinct keys.
  pub IsDescending-DistinctBy :
      ((k : K) → before k k ≡ false) → (rows : List A) → IsDescending rows → DistinctBy key rows
  IsDescending-DistinctBy irr [] d = tt
  IsDescending-DistinctBy irr (r ∷ rows) (h, d) = (
    All-each rows
        (λ s e q.
          let both : before (key r) (key r) ≡ true = subst (λ k. before k (key r) ≡ true) q e in
          ground (arith, irr (key r)))
        h,
    IsDescending-DistinctBy irr rows d,
  )

pub last-map :
    {A B : Type 0} (f : A → B) (xs : List A) {r : A}
    → last xs ≡ some r
    → last (map f xs) ≡ some (f r)
last-map f [] h = cc
last-map f (x ∷ []) h = cc
last-map f (x ∷ y ∷ xs) h = last-map f (y ∷ xs) h

module _ {A B : Type 0} {K : Type 0} (key : B → K) (before : K → K → Bool) (f : A → B) where
  All-mapped :
      (r : A) (rows : List A)
      → All (λ s. before (key (f s)) (key (f r)) ≡ true) rows
      → All (λ b. before (key b) (key (f r)) ≡ true) (map f rows)
  All-mapped r [] h = tt
  All-mapped r (s ∷ rows) (p, h) = (p, All-mapped r rows h)

  pub IsDescending-map :
      (rows : List A)
      → IsDescending (λ r. key (f r)) before rows
      → IsDescending key before (map f rows)
  IsDescending-map [] d = tt
  IsDescending-map (r ∷ rows) (h, d) = (All-mapped r rows h, IsDescending-map rows d)
