-- ===== src/Projections/Versions.antt =====
-- src/indexer/projections/ats.rs: the versions of a block against the counts of the registry.
use allfeat_explorer.Common.{
  ℕ, ◌+◌, ◌≡◌, ◌⊎◌, inl, inr, refl, List, [], ◌∷◌, All, In, All-append, min,
}
use allfeat_explorer.Common.Keeping.{All-each}
use allfeat_explorer.Common.Members.{In-left, In-right}
use allfeat_explorer.Decimal.{u32_max}
use allfeat_explorer.Projections.Ats.{
  AtsRegistryRow, AtsVersionRow, AtsVersionCountBump, AtsOps, no_ops, DecodedAtsEvent, created,
  updated, revoked, version_row, project_event, project_events, project,
}

-- The registry's count for the row's ATS is raised above the row's version: by the creation for version
-- 0, by a bump for any.
abbrev pub Counted : AtsOps → AtsVersionRow → Type 0
Counted ops v =
    ((r : AtsRegistryRow) × In r ops.registry_inserts
      × (r.id ≡ v.ats_id)
      × (r.version_count ≡ 1)
      × (v.version ≡ 0))
    ⊎ ((b : AtsVersionCountBump) × In b ops.version_count_bumps
        × (b.ats_id ≡ v.ats_id)
        × (b.version_count ≡ min (v.version + 1) u32_max))

-- Operations that another list of operations extends.
record Extends (new old : AtsOps) : Type 0 where
  registry : (r : AtsRegistryRow) → In r old.registry_inserts → In r new.registry_inserts
  bumps : (b : AtsVersionCountBump) → In b old.version_count_bumps → In b new.version_count_bumps

keeps : (new old : AtsOps) → Extends new old → (v : AtsVersionRow) → Counted old v → Counted new v
keeps new old x v (inl (r, i, a, c, z)) = inl (r, x.registry r i, a, c, z)
keeps new old x v (inr (b, i, a, c)) = inr (b, x.bumps b i, a, c)

event-Extends :
    (block_num ext_idx : ℕ) (evt : DecodedAtsEvent) (ops : AtsOps)
    → Extends (project_event block_num ext_idx evt ops) ops
unfolding project_event
event-Extends block_num ext_idx (created a o c p) ops = record {
  registry = λ r i.
      In-left r ops.registry_inserts
        (record {
          id = a;
          owner = o;
          created_block = block_num;
          created_ext_idx = ext_idx;
          version_count = 1;
        }
          ∷ [])
        i;
  bumps = λ b i. i;
}
event-Extends block_num ext_idx (updated a w c p) ops = record {
  registry = λ r i. i;
  bumps = λ b i.
      In-left b ops.version_count_bumps
        (record { ats_id = a; version_count = min (w + 1) u32_max } ∷ []) i;
}
event-Extends block_num ext_idx (revoked a) ops = record { registry = λ r i. i; bumps = λ b i. i }

event-Counted :
    (block_num ext_idx : ℕ) (evt : DecodedAtsEvent) (ops : AtsOps)
    → All (Counted ops) ops.version_inserts
    → All
        (Counted (project_event block_num ext_idx evt ops))
        (project_event block_num ext_idx evt ops).version_inserts
unfolding project_event version_row
event-Counted block_num ext_idx (created a o c p) ops h =
    let new = project_event block_num ext_idx (created a o c p) ops in
    let row : AtsRegistryRow = record {
      id = a;
      owner = o;
      created_block = block_num;
      created_ext_idx = ext_idx;
      version_count = 1;
    } in
    All-append (Counted new) ops.version_inserts (version_row block_num ext_idx a 0 c p ∷ [])
      (All-each ops.version_inserts
        (keeps new ops (event-Extends block_num ext_idx (created a o c p) ops)) h)
      (inl (row, In-right row ops.registry_inserts (row ∷ []) (inl refl), refl, refl, refl), tt)
event-Counted block_num ext_idx (updated a w c p) ops h =
    let new = project_event block_num ext_idx (updated a w c p) ops in
    let bump : AtsVersionCountBump = record { ats_id = a; version_count = min (w + 1) u32_max } in
    All-append (Counted new) ops.version_inserts (version_row block_num ext_idx a w c p ∷ [])
      (All-each ops.version_inserts
        (keeps new ops (event-Extends block_num ext_idx (updated a w c p) ops)) h)
      (inr (bump, In-right bump ops.version_count_bumps (bump ∷ []) (inl refl), refl, refl), tt)
event-Counted block_num ext_idx (revoked a) ops h =
    All-each ops.version_inserts
      (keeps (project_event block_num ext_idx (revoked a) ops) ops
        (event-Extends block_num ext_idx (revoked a) ops))
      h

events-Counted :
    (decoded : List (ℕ × DecodedAtsEvent)) (block_num : ℕ) (ops : AtsOps)
    → All (Counted ops) ops.version_inserts
    → All
        (Counted (project_events decoded block_num ops))
        (project_events decoded block_num ops).version_inserts
unfolding project_events
events-Counted [] block_num ops h = h
events-Counted ((ext_idx, evt) ∷ decoded) block_num ops h =
    events-Counted decoded block_num (project_event block_num ext_idx evt ops)
      (event-Counted block_num ext_idx evt ops h)

-- Every version row that a block writes comes with the operation that raises the count of its ATS above
-- the version, up to the greatest `u32`.
pub project-Counted :
    (decoded : List (ℕ × DecodedAtsEvent)) (block_num : ℕ)
    → All (Counted (project decoded block_num)) (project decoded block_num).version_inserts
unfolding project
project-Counted decoded block_num = events-Counted decoded block_num no_ops tt
