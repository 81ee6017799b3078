-- ===== src/Queries/Events/Hydrate.antt =====
-- src/data/indexed/queries/extrinsics.rs: `hydrate_events`, which fills in the events of a page by one
-- more query, of one shape or the other.
use allfeat_explorer.Common.{
  ℕ, ◌^◌, ◌<◌, ◌≡◌, ◌⊎◌, refl, sym, ap, ◌∙◌, Bool, true, false, ◌&&◌, Option, none, some, List, [],
  ◌∷◌, map, Bytes, arith, ◌==◌, if◌then◌else◌, keep, All, In, Bool-cases, inl, inr,
}
use allfeat_explorer.Common.Integers.{ℤ, pos, negsuc, as_i32-pos, eq_int, at_least_zero}
use allfeat_explorer.Common.Maps.{HashMap, empty, remove, nat_eq, pair_eq}
use allfeat_explorer.Common.Members.{DistinctBy, DistinctBy-map, In-map, All-In, All-of-In}
use allfeat_explorer.Common.Keeping.{map-All, All-map, All-each, All-both}
use allfeat_explorer.Queries.Events.Joined.{Fits, pair-differs, pick-join}
use allfeat_explorer.Domain.{EventField, EventRef, Extrinsic}
use allfeat_explorer.Queries.Events.{
  EventRow, IsIndex, IsPhased, block_is, belongs, event_ref, events_for_extrinsic, keyed_by_idx,
  events_by_ext_idx_in_block, join, events_for_pairs,
}
use allfeat_explorer.Queries.Events.Groups.{pick, collected, group-pick}

abbrev pub pair_of : Extrinsic → ℕ × ℕ
pair_of x = (x.block_number, x.index)

abbrev pub with_events : Extrinsic → Option (List EventRef) → Extrinsic
with_events x none = x
with_events x (some events) = record x { events = events }

-- `xts.iter().all(|e| e.block_number == first_block)`
abbrev pub same_block : ℕ → List Extrinsic → Bool
same_block b [] = true
same_block b (x ∷ xs) = (x.block_number == b) && same_block b xs

-- The loop over the pairs' map, out of which each entry is taken.
unfoldable pub fill_pairs : List Extrinsic → HashMap (ℕ × ℕ) (List EventRef) → List Extrinsic
fill_pairs [] by_pair = []
fill_pairs (x ∷ xs) by_pair =
    with_events x (by_pair (pair_of x)) ∷ fill_pairs xs (remove (pair_of x) by_pair)

-- An extrinsic as a list query reads it, with its numbers in the range of the casts.
pub record IsBare (x : Extrinsic) : Type 0 where
  pub no_events : x.events ≡ []
  pub block_fits : x.block_number < 2 ^ 63
  pub index_fits : x.index < 2 ^ 31

index-cases : (o : Option ℤ) → IsIndex o → (o ≡ none) ⊎ ((n : ℕ) × (o ≡ some (pos n)))
index-cases none h = inl refl
index-cases (some (pos n)) h = inr (n, refl)
index-cases (some (negsuc n)) h = absurd h

module _ (decode_event_fields : Bytes → Bytes → Bytes → List EventField) where
  unfoldable pub hydrate_events : List EventRow → List Extrinsic → List Extrinsic
  unfolding fill_pairs
  hydrate_events table [] = []
  hydrate_events table (x ∷ xs) =
      if same_block x.block_number (x ∷ xs)
      then map
          (λ (y : Extrinsic).
            with_events y
              (events_by_ext_idx_in_block decode_event_fields table x.block_number y.index))
          (x ∷ xs)
      else fill_pairs (x ∷ xs) (events_for_pairs decode_event_fields table (map pair_of (x ∷ xs)))

  -- What a single extrinsic's page shows.
  abbrev pub with_own_events : List EventRow → Extrinsic → Extrinsic
  with_own_events table x = record x {
    events = events_for_extrinsic decode_event_fields table x.block_number x.index;
  }

  with_events-collected :
      (x : Extrinsic) (events : List EventRef)
      → x.events ≡ []
      → with_events x (collected none events) ≡ record x { events = events }
  with_events-collected x [] h = ap (λ es. record x { events = es }) h
  with_events-collected x (e ∷ es) h = refl

  -- The events under an index, of the rows of a block.
  pick-keyed :
      (rows : List EventRow) (b i : ℕ)
      → All IsPhased rows
      → i < 2 ^ 31
      → pick i (keyed_by_idx decode_event_fields (keep (block_is b) rows))
        ≡ map (event_ref decode_event_fields) (keep (belongs (b, i)) rows)
  unfolding pick keyed_by_idx belongs eq_int at_least_zero
  pick-keyed [] b i p h = refl
  pick-keyed (row ∷ rows) b i (p, ps) h = elim (index-cases row.phase_idx p) [
    | inl e ↦ ground (arith, pick-keyed rows b i ps h, as_i32-pos i h)
    | inr (n, e) ↦ ground (arith, pick-keyed rows b i ps h, as_i32-pos i h)
  ]

  hydrate-same :
      (table : List EventRow) (x : Extrinsic) (xs : List Extrinsic)
      → same_block x.block_number (x ∷ xs) ≡ true
      → hydrate_events table (x ∷ xs)
        ≡ map
            (λ (y : Extrinsic).
              with_events y
                (events_by_ext_idx_in_block decode_event_fields table x.block_number y.index))
            (x ∷ xs)
  unfolding hydrate_events
  hydrate-same table x xs h = rw (h) refl

  hydrate-mixed :
      (table : List EventRow) (x : Extrinsic) (xs : List Extrinsic)
      → same_block x.block_number (x ∷ xs) ≡ false
      → hydrate_events table (x ∷ xs)
        ≡ fill_pairs (x ∷ xs) (events_for_pairs decode_event_fields table (map pair_of (x ∷ xs)))
  unfolding hydrate_events
  hydrate-mixed table x xs h = rw (h) refl

  -- In the loop over the map each extrinsic finds what the map had under its pair.
  fill_pairs_lem :
      (xs : List Extrinsic) (m : HashMap (ℕ × ℕ) (List EventRef))
      → DistinctBy pair_of xs
      → fill_pairs xs m ≡ map (λ x. with_events x (m (pair_of x))) xs
  unfolding fill_pairs
  fill_pairs_lem [] m d = refl
  fill_pairs_lem (x ∷ xs) m (ne, d) = ap (◌∷◌ (with_events x (m (pair_of x)))) (
      fill_pairs_lem xs (remove (pair_of x) m) d
      ∙ map-All (λ y. with_events y (remove (pair_of x) m (pair_of y)))
          (λ y. with_events y (m (pair_of y))) xs
          (All-each xs
            (λ y n.
              ap (λ b. with_events y (if b then none else m (pair_of y)))
                (pair-differs (pair_of x) (pair_of y) (λ q. n (sym q))))
            ne))

  pair_of-Fits : (x : Extrinsic) → IsBare x → Fits (pair_of x)
  pair_of-Fits x bare = record { block = bare.block_fits; index = bare.index_fits }

  by_block :
      (table : List EventRow) (b : ℕ) (y : Extrinsic)
      → All IsPhased table
      → IsBare y
      → y.block_number ≡ b
      → with_events y (events_by_ext_idx_in_block decode_event_fields table b y.index)
        ≡ with_own_events table y
  unfolding events_by_ext_idx_in_block events_for_extrinsic
  by_block table b y phased bare same =
      ap (with_events y) (
        group-pick (keyed_by_idx decode_event_fields (keep (block_is b) table)) empty y.index
        ∙ ap (collected none) (pick-keyed table b y.index phased bare.index_fits))
      ∙ with_events-collected y
          (map (event_ref decode_event_fields) (keep (belongs (b, y.index)) table)) bare.no_events
      ∙ ap
          (λ n. record y {
            events = map (event_ref decode_event_fields) (keep (belongs (n, y.index)) table);
          })
          (sym same)

  by_pairs :
      (table : List EventRow) (xs : List Extrinsic) (y : Extrinsic)
      → All IsBare xs
      → DistinctBy pair_of xs
      → In y xs
      → with_events y (events_for_pairs decode_event_fields table (map pair_of xs) (pair_of y))
        ≡ with_own_events table y
  unfolding events_for_pairs events_for_extrinsic
  by_pairs table [] y bare d i = absurd i
  by_pairs table (x ∷ xs) y bare d i =
      let bare_y = All-In IsBare (x ∷ xs) y bare i in
      ap (with_events y) (
        group-pick (join decode_event_fields table (map pair_of (x ∷ xs))) empty (pair_of y)
        ∙ ap (collected none) (
            pick-join decode_event_fields table (pair_of y) (map pair_of (x ∷ xs))
              (All-map Fits pair_of (x ∷ xs) (All-each (x ∷ xs) pair_of-Fits bare))
              (DistinctBy-map pair_of (x ∷ xs) d) (In-map pair_of (x ∷ xs) y i)))
      ∙ with_events-collected y
          (map (event_ref decode_event_fields) (keep (belongs (pair_of y)) table)) bare_y.no_events

  same_block-All :
      (b : ℕ) (xs : List Extrinsic) → same_block b xs ≡ true → All (λ x. x.block_number ≡ b) xs
  same_block-All b [] h = tt
  same_block-All b (x ∷ xs) h = (ground arith, same_block-All b xs (ground arith))

  -- Filling a page in by one query, of either shape, gives each of its extrinsics the events that the
  -- query for that extrinsic alone gives, in the same order: of extrinsics without events, with distinct
  -- positions below `2 ^ 63` and `2 ^ 31`, where the rows' extrinsic indices are not negative.
  pub hydrate_events-own :
      (table : List EventRow) (xs : List Extrinsic)
      → All IsPhased table
      → All IsBare xs
      → DistinctBy pair_of xs
      → hydrate_events table xs ≡ map (with_own_events table) xs
  unfolding hydrate_events
  hydrate_events-own table [] phased bare d = refl
  hydrate_events-own table (x ∷ xs) phased bare d =
      elim (Bool-cases (same_block x.block_number (x ∷ xs))) [
        | inl e ↦
            hydrate-same table x xs e
            ∙ map-All
                (λ y.
                  with_events y
                    (events_by_ext_idx_in_block decode_event_fields table x.block_number y.index))
                (with_own_events table) (x ∷ xs)
                (All-both (x ∷ xs) (λ y b s. by_block table x.block_number y phased b s) bare
                  (same_block-All x.block_number (x ∷ xs) e))
        | inr e ↦
            hydrate-mixed table x xs e
            ∙ fill_pairs_lem (x ∷ xs)
                (events_for_pairs decode_event_fields table (map pair_of (x ∷ xs))) d
            ∙ map-All
                (λ y.
                  with_events y
                    (events_for_pairs decode_event_fields table (map pair_of (x ∷ xs)) (pair_of y)))
                (with_own_events table) (x ∷ xs)
                (All-of-In (x ∷ xs) (λ y i. by_pairs table (x ∷ xs) y bare d i))
      ]
