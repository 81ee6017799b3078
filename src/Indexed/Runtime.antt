-- ===== src/Indexed/Runtime.antt =====
-- src/data/indexed/provider.rs: `runtime_upgrades`, which marks the version that the chain runs.
use allfeat_explorer.Common.{
  ℕ, ◌≡◌, ◌≢◌, refl, ap, subst, Bool, true, false, ◌||◌, not, Option, none, some, List, [], ◌∷◌,
  map, arith, ◌==◌, if◌then◌else◌, Result, ok, ◌>>=◌, keep, All, Bool-cases, inl, inr,
}
use allfeat_explorer.Common.Members.{DistinctBy, DistinctBy-under}
use allfeat_explorer.Errors.{DataError}
use allfeat_explorer.Network.{ChainCtx}
use allfeat_explorer.Queries.Blocks.{BlockRow}
use allfeat_explorer.Queries.Runtime.{
  RuntimeUpgrade, IsVersioned, version_of, upgrade_of, first_rows, first_rows-DistinctBy,
}
use allfeat_explorer.Indexed.{Tables, IndexedProvider, is_indexed, tables_of}
use allfeat_explorer.Indexed.Blocks.{ok_value}

-- The loop that marks the rows of the current version.
unfoldable pub mark_current : ℕ → List RuntimeUpgrade → List RuntimeUpgrade
mark_current current [] = []
mark_current current (u ∷ us) =
    (if u.spec_version == current then record u { is_current = true } else u)
    ∷ mark_current current us

unfoldable pub has_current : ℕ → List RuntimeUpgrade → Bool
has_current current [] = false
has_current current (u ∷ us) = (u.spec_version == current) || has_current current us

-- The row that stands for a version which no stored block has yet.
abbrev pub synthetic : ℕ → RuntimeUpgrade
synthetic current = record {
  spec_version = current;
  first_block = none;
  first_block_timestamp_ms = none;
  is_current = true;
}

unfoldable pub reconcile : Option ℕ → List RuntimeUpgrade → List RuntimeUpgrade
unfolding mark_current has_current
reconcile none us = us
reconcile (some current) us =
    let marked = mark_current current us in
    if not (has_current current marked) then synthetic current ∷ marked else marked

unfoldable pub runtime_upgrades :
    IndexedProvider → ChainCtx → Result DataError (List RuntimeUpgrade)
runtime_upgrades self ctx = if not (is_indexed self ctx) then self.rpc.runtime_upgrades else (do
  tables ← tables_of self ctx
  ok (
      reconcile (ok_value self.rpc.spec_version)
        (allfeat_explorer.Queries.Runtime.runtime_upgrades tables.blocks)))

abbrev pub current_ones : List RuntimeUpgrade → List RuntimeUpgrade
current_ones = keep (λ u. u.is_current)

abbrev IsHistory : List RuntimeUpgrade → Type 0
IsHistory = All (λ u. u.is_current ≡ false)

module _ (current : ℕ) where
  has_current-marked :
      (us : List RuntimeUpgrade)
      → has_current current (mark_current current us) ≡ has_current current us
  unfolding has_current mark_current
  has_current-marked [] = refl
  has_current-marked (u ∷ us) = ground (arith, has_current-marked us)

  marked-none :
      (us : List RuntimeUpgrade)
      → IsHistory us
      → All (λ u. u.spec_version ≢ current) us
      → current_ones (mark_current current us) ≡ []
  unfolding mark_current
  marked-none [] h n = refl
  marked-none (u ∷ us) (f, h) (ne, n) = ground (arith, marked-none us h n)

  has_current-none :
      (us : List RuntimeUpgrade)
      → has_current current us ≡ false
      → All (λ u. u.spec_version ≢ current) us
  unfolding has_current
  has_current-none [] h = tt
  has_current-none (u ∷ us) h = (λ e. ground arith, has_current-none us (ground arith))

  marked-one :
      (us : List RuntimeUpgrade)
      → IsHistory us
      → DistinctBy (λ (u : RuntimeUpgrade). u.spec_version) us
      → has_current current us ≡ true
      → (u : RuntimeUpgrade) × (current_ones (mark_current current us) ≡ u ∷ [])
        × (u.spec_version ≡ current)
  unfolding mark_current has_current
  marked-one [] h d e = cc
  marked-one (u ∷ us) (f, h) (ne, d) e = elim (Bool-cases (u.spec_version == current)) [
    | inl hit ↦
        let same : u.spec_version ≡ current = ground arith in
        let others = marked-none us h (subst (λ v. All (λ w. w.spec_version ≢ v) us) same ne) in
        (record u { is_current = true }, ground arith, same)
    | inr miss ↦ let (v, one, same) = marked-one us h d (ground arith) in (v, ground arith, same)
  ]

  reconcile-one :
      (us : List RuntimeUpgrade)
      → IsHistory us
      → DistinctBy (λ (u : RuntimeUpgrade). u.spec_version) us
      → (u : RuntimeUpgrade) × (current_ones (reconcile (some current) us) ≡ u ∷ [])
        × (u.spec_version ≡ current)
  unfolding reconcile
  reconcile-one us h d = elim (Bool-cases (has_current current us)) [
    | inl e ↦
        let (u, one, same) = marked-one us h d e in (u, rw (has_current-marked us, e) one, same)
    | inr e ↦ (
      synthetic current,
      rw (has_current-marked us, e)
          (ap (◌∷◌ (synthetic current)) (marked-none us h (has_current-none us e))),
      refl,
    )
  ]

-- While the chain's version is known, the timeline of an indexed network marks exactly one upgrade as
-- current, the one of that version, stored or not: for stored versions that are not negative.
pub runtime_upgrades-current :
    (self : IndexedProvider) (ctx : ChainCtx) (tables : Tables) (current : ℕ)
    → is_indexed self ctx ≡ true
    → tables_of self ctx ≡ ok tables
    → self.rpc.spec_version ≡ ok current
    → All IsVersioned tables.blocks
    → (us : List RuntimeUpgrade) × (u : RuntimeUpgrade) × (runtime_upgrades self ctx ≡ ok us)
      × (current_ones us ≡ u ∷ [])
      × (u.spec_version ≡ current)
unfolding runtime_upgrades allfeat_explorer.Queries.Runtime.runtime_upgrades upgrade_of
runtime_upgrades-current self ctx tables current indexed opened known versions =
    let history = map upgrade_of (first_rows tables.blocks) in
    let (u, one, same) = reconcile-one current history (none_current (first_rows tables.blocks)) (
      DistinctBy-under upgrade_of (λ (v : RuntimeUpgrade). v.spec_version)
        (first_rows tables.blocks) (first_rows-DistinctBy tables.blocks versions)) in
    (reconcile (some current) history, u, rw (indexed, opened, known) refl, one, same)
  where
    none_current : (rows : List BlockRow) → IsHistory (map upgrade_of rows)
    none_current [] = tt
    none_current (row ∷ rows) = (refl, none_current rows)
