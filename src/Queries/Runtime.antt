-- ===== src/Queries/Runtime.antt =====
-- src/data/indexed/queries/runtime.rs: the upgrades of the runtime, from the versions of the blocks.
use allfeat_explorer.Common.{
  ℕ, ◌≡◌, ◌≢◌, inl, inr, refl, sym, ap, ◌∙◌, Bool, true, false, ◌||◌, Option, none, some, List, [],
  ◌∷◌, map, arith, ltb, if◌then◌else◌, All, In, Bool-cases, ◌≤◌,
}
use allfeat_explorer.Common.Integers.{ℤ, pos, eq_int, at_least_zero}
use allfeat_explorer.Common.Members.{DistinctBy, All-In}
use allfeat_explorer.Queries.Keyset.{IsDescending}
use allfeat_explorer.Queries.Blocks.{BlockRow}

pub record RuntimeUpgrade : Type 0 where
  pub spec_version : ℕ
  pub first_block : Option ℕ
  pub first_block_timestamp_ms : Option ℕ
  pub is_current : Bool

unfoldable pub has_version : ℤ → List BlockRow → Bool
has_version v [] = false
has_version v (row ∷ rows) = eq_int row.spec_version v || has_version v rows

-- `DISTINCT ON (spec_version)` in the order of `num`: of rows newest first, those that no older row
-- shares the version of.
unfoldable pub first_rows : List BlockRow → List BlockRow
unfolding has_version
first_rows [] = []
first_rows (row ∷ older) =
    let rest = first_rows older in if has_version row.spec_version older then rest else row ∷ rest

unfoldable pub upgrade_of : BlockRow → RuntimeUpgrade
upgrade_of row = record {
  spec_version = at_least_zero row.spec_version;
  first_block = some row.num;
  first_block_timestamp_ms = if ltb 0 row.timestamp_ms then some row.timestamp_ms else none;
  is_current = false;
}

unfoldable pub runtime_upgrades : List BlockRow → List RuntimeUpgrade
unfolding first_rows upgrade_of
runtime_upgrades table = map upgrade_of (first_rows table)

-- A version that is not negative.
abbrev pub IsVersioned : BlockRow → Type 0
IsVersioned row = (v : ℕ) × (row.spec_version ≡ pos v)

abbrev pub version_of : BlockRow → ℕ
version_of row = at_least_zero row.spec_version

same-version :
    (row other : BlockRow)
    → IsVersioned row
    → IsVersioned other
    → version_of row ≡ version_of other
    → eq_int row.spec_version other.spec_version ≡ true
unfolding eq_int at_least_zero
same-version row other (v, e) (w, f) h =
    let g : v ≡ w = sym (ap at_least_zero e) ∙ h ∙ ap at_least_zero f in rw (e, f) (ground arith)

eq_int-version :
    (row other : BlockRow)
    → eq_int row.spec_version other.spec_version ≡ true
    → version_of row ≡ version_of other
unfolding eq_int at_least_zero
eq_int-version row other h = ground arith

-- The versions of the rows behind a first row are others.
absent-All :
    (row : BlockRow) (rows : List BlockRow)
    → IsVersioned row
    → All IsVersioned rows
    → has_version row.spec_version rows ≡ false
    → All (λ other. version_of other ≢ version_of row) rows
unfolding has_version
absent-All row [] v vs h = tt
absent-All row (other ∷ rows) v (w, vs) h = (
  λ same. let hit = same-version other row w v same in ground arith,
  absent-All row rows v vs (ground arith),
)

first_rows-All :
    (P : BlockRow → Type 0) (rows : List BlockRow) → All P rows → All P (first_rows rows)
unfolding first_rows
first_rows-All P [] h = tt
first_rows-All P (row ∷ rows) (p, h) = elim (Bool-cases (has_version row.spec_version rows)) [
  | inl e ↦ rw (e) (first_rows-All P rows h)
  | inr e ↦ rw (e) (p, first_rows-All P rows h)
]

-- Each version has one row.
pub first_rows-DistinctBy :
    (rows : List BlockRow) → All IsVersioned rows → DistinctBy version_of (first_rows rows)
unfolding first_rows
first_rows-DistinctBy [] h = tt
first_rows-DistinctBy (row ∷ rows) (v, h) = elim (Bool-cases (has_version row.spec_version rows)) [
  | inl e ↦ rw (e) (first_rows-DistinctBy rows h)
  | inr e ↦ rw (e) (
    first_rows-All (λ other. version_of other ≢ version_of row) rows (absent-All row rows v h e),
    first_rows-DistinctBy rows h,
  )
]

has_version-some :
    (row : BlockRow) (rows : List BlockRow)
    → has_version row.spec_version rows ≡ true
    → (other : BlockRow) × In other rows × (version_of other ≡ version_of row)
unfolding has_version
has_version-some row [] h = cc
has_version-some row (other ∷ rows) h =
    elim (Bool-cases (eq_int other.spec_version row.spec_version)) [
      | inl e ↦ (other, inl refl, eq_int-version other row e)
      | inr e ↦
          let (older, i, same) = has_version-some row rows (ground arith) in (older, inr i, same)
    ]

-- Each row's version has a row at its block or an older one.
oldest_row :
    (rows : List BlockRow) (row : BlockRow)
    → IsDescending (λ (r : BlockRow). r.num) ltb rows
    → In row rows
    → (first : BlockRow) × In first (first_rows rows)
      × (version_of first ≡ version_of row)
      × (first.num ≤ row.num)
unfolding first_rows
oldest_row [] row d i = absurd i
oldest_row (r ∷ rows) row (h, d) (inr i) = elim (Bool-cases (has_version r.spec_version rows)) [
  | inl e ↦ rw (e) (oldest_row rows row d i)
  | inr e ↦ let (first, j, same, low) = oldest_row rows row d i in rw (e) (first, inr j, same, low)
]
oldest_row (r ∷ rows) row (h, d) (inl q) = elim (Bool-cases (has_version r.spec_version rows)) [
  | inr e ↦ rw (e) (row, inl q, refl, omega arith)
  | inl e ↦
      let (other, i, same) = has_version-some r rows e in
      let (first, j, agree, low) = oldest_row rows other d i in
      let older : ltb other.num r.num ≡ true =
        All-In (λ s. ltb s.num r.num ≡ true) rows other h i in
      rw (e) (
        first,
        j,
        agree ∙ same ∙ ap version_of (sym q),
        ground (arith, older, low, ap (λ (b : BlockRow). b.num) q),
      )
]

kept_row :
    (row : BlockRow) (rows : List BlockRow) (first : BlockRow)
    → (In first (first_rows rows) → In first rows)
    → In first (row ∷ first_rows rows)
    → In first (row ∷ rows)
kept_row row rows first h (inl e) = inl e
kept_row row rows first h (inr i) = inr (h i)

held_row : (rows : List BlockRow) (first : BlockRow) → In first (first_rows rows) → In first rows
unfolding first_rows
held_row [] first i = absurd i
held_row (row ∷ rows) first i = elim (Bool-cases (has_version row.spec_version rows)) [
  | inl e ↦ inr (held_row rows first (rw (e) at i))
  | inr e ↦ kept_row row rows first (held_row rows first) (rw (e) at i)
]

-- The timeline holds rows of the table, one for each version that the table has, and the row of a
-- version is at no later block than any row of the table of that version. The rows descend strictly in
-- their numbers and no version is negative.
pub first_rows-oldest :
    (rows : List BlockRow)
    → IsDescending (λ (r : BlockRow). r.num) ltb rows
    → All IsVersioned rows
    → DistinctBy version_of (first_rows rows)
      × ((first : BlockRow) → In first (first_rows rows) → In first rows)
      × ((row : BlockRow)
          → In row rows
          → (first : BlockRow) × In first (first_rows rows)
            × (version_of first ≡ version_of row)
            × (first.num ≤ row.num))
first_rows-oldest rows d vs =
    (first_rows-DistinctBy rows vs, held_row rows, λ row i. oldest_row rows row d i)
