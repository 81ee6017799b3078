-- ===== src/Queries/Events.antt =====
-- src/data/indexed/queries/events.rs: the events of extrinsics. The table is the list of one network's
-- rows with `phase_kind = 0`, in the order of `(block_num DESC, idx ASC)`, which is what the queries
-- order by. `decode_event_fields` of src/data/metadata.rs is a parameter.
pub mod Groups
pub mod Joined
pub mod Hydrate
use allfeat_explorer.Common.{
  ℕ, Bool, true, false, ◌&&◌, Option, none, some, List, [], ◌∷◌, ◌++◌, map, Bytes, ◌==◌,
  if◌then◌else◌, keep, All,
}
use allfeat_explorer.Common.Integers.{ℤ, pos, negsuc, as_i32, as_i64, eq_int, at_least_zero}
use allfeat_explorer.Common.Maps.{Eq, HashMap, empty, insert, remove, nat_eq, pair_eq}
use allfeat_explorer.Domain.{EventField, EventRef, Extrinsic}

-- The columns that the queries read; `phase_idx` may be NULL.
pub record EventRow : Type 0 where
  pub block_num : ℤ
  pub phase_idx : Option ℤ
  pub pallet : Bytes
  pub variant : Bytes
  pub data_scale : Bytes

-- `e.block_num = $b AND e.phase_idx = $i`; a NULL equals nothing.
abbrev pub phase_is : ℕ → Option ℤ → Bool
phase_is i none = false
phase_is i (some n) = eq_int n (as_i32 i)

abbrev pub block_is : ℕ → EventRow → Bool
block_is b row = eq_int row.block_num (as_i64 b)

unfoldable pub belongs : ℕ × ℕ → EventRow → Bool
belongs pair row = block_is pair.0 row && phase_is pair.1 row.phase_idx

-- `i.max(0) as u32`; the join gives no row without an index.
abbrev pub phase_key : Option ℤ → ℕ
phase_key none = 0
phase_key (some i) = at_least_zero i

-- The key of a joined row: `(b.max(0) as u64, i.max(0) as u32)`.
abbrev pub row_key : EventRow → ℕ × ℕ
row_key row = (at_least_zero row.block_num, phase_key row.phase_idx)

-- `out.entry(key).or_default().push(event)`
unfoldable pub push_entry :
    {K : Type 0} ⦃e : Eq K⦄ → K → EventRef → HashMap K (List EventRef) → HashMap K (List EventRef)
push_entry key event m =
    insert key (elim (m key) [ none ↦ event ∷ [] | some events ↦ events ++ event ∷ [] ]) m

-- The loop that sorts the events of the rows into the map.
unfoldable pub group :
    {K : Type 0} ⦃e : Eq K⦄
    → List (K × EventRef)
    → HashMap K (List EventRef)
    → HashMap K (List EventRef)
unfolding push_entry
group [] m = m
group ((key, event) ∷ rows) m = group rows (push_entry key event m)

-- An index that is not negative, or none.
abbrev pub IsIndex : Option ℤ → Type 0
IsIndex none = Unit
IsIndex (some (pos n)) = Unit
IsIndex (some (negsuc n)) = ⊥

abbrev pub IsPhased : EventRow → Type 0
IsPhased row = IsIndex row.phase_idx

module _ (decode_event_fields : Bytes → Bytes → Bytes → List EventField) where
  unfoldable pub event_ref : EventRow → EventRef
  event_ref row = record {
    pallet = row.pallet;
    name = row.variant;
    fields = decode_event_fields row.pallet row.variant row.data_scale;
  }

  unfoldable pub events_for_extrinsic : List EventRow → ℕ → ℕ → List EventRef
  events_for_extrinsic table block_num ext_idx =
      map event_ref (keep (belongs (block_num, ext_idx)) table)

  -- The rows of a block with a `phase_idx`, keyed by `phase_idx.max(0) as u32`.
  unfoldable pub keyed_by_idx : List EventRow → List (ℕ × EventRef)
  keyed_by_idx [] = []
  keyed_by_idx (row ∷ rows) = elim row.phase_idx [
    | none ↦ keyed_by_idx rows
    | some i ↦ (at_least_zero i, event_ref row) ∷ keyed_by_idx rows
  ]

  unfoldable pub events_by_ext_idx_in_block : List EventRow → ℕ → HashMap ℕ (List EventRef)
  events_by_ext_idx_in_block table block_num =
      group (keyed_by_idx (keep (block_is block_num) table)) empty

  -- The rows that the join with the pairs gives: a row once for each pair that it belongs to.
  unfoldable pub joined_with : EventRow → List (ℕ × ℕ) → List ((ℕ × ℕ) × EventRef)
  unfolding belongs
  joined_with row [] = []
  joined_with row (pair ∷ pairs) =
      let rest = joined_with row pairs in
      if belongs pair row then (row_key row, event_ref row) ∷ rest else rest

  unfoldable pub join : List EventRow → List (ℕ × ℕ) → List ((ℕ × ℕ) × EventRef)
  unfolding joined_with
  join [] pairs = []
  join (row ∷ rows) pairs = joined_with row pairs ++ join rows pairs

  unfoldable pub events_for_pairs : List EventRow → List (ℕ × ℕ) → HashMap (ℕ × ℕ) (List EventRef)
  events_for_pairs table [] = empty
  events_for_pairs table (pair ∷ pairs) = group (join table (pair ∷ pairs)) empty
