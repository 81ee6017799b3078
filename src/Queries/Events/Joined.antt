-- ===== src/Queries/Events/Joined.antt =====
-- src/data/indexed/queries/events.rs: what the join with pairs leaves for one of them.
use allfeat_explorer.Common.{
  ℕ, ◌^◌, ◌<◌, ◌≡◌, ◌≢◌, refl, sym, ap, ap₂, subst, ◌∙◌, true, false, Option, none, some, List, [],
  ◌∷◌, map, Bytes, arith, if◌then◌else◌, keep, All, In, Bool-cases, inl, inr, &&-eq-true,
}
use allfeat_explorer.Common.Integers.{ℤ, as_i32-pos, as_i64-pos, eq_int, eq_int-key}
use allfeat_explorer.Common.Maps.{pair_eq, pair_beq, pair_beq_sound, pair_beq_refl}
use allfeat_explorer.Common.Members.{DistinctBy, All-In}
use allfeat_explorer.Domain.{EventField, EventRef}
use allfeat_explorer.Queries.Events.{
  EventRow, block_is, phase_is, phase_key, belongs, event_ref, row_key, joined_with, join,
}
use allfeat_explorer.Queries.Events.Groups.{pick, pick-same, pick-other, pick-append}

-- A pair in the range of the casts.
pub record Fits (pair : ℕ × ℕ) : Type 0 where
  pub block : pair.0 < 2 ^ 63
  pub index : pair.1 < 2 ^ 31

pub pair-differs : (p q : ℕ × ℕ) → p ≢ q → pair_beq p q ≡ false
pair-differs p q ne = elim (Bool-cases (pair_beq p q)) [
  | inl e ↦ absurd (ne (pair_beq_sound p q e))
  | inr e ↦ e
]

phase-key : (o : Option ℤ) (i : ℕ) → i < 2 ^ 31 → phase_is i o ≡ true → phase_key o ≡ i
phase-key none i f h = cc
phase-key (some z) i f h = eq_int-key z i (subst (λ y. eq_int z y ≡ true) (as_i32-pos i f) h)

belongs-row_key :
    (pair : ℕ × ℕ) (row : EventRow) → Fits pair → belongs pair row ≡ true → row_key row ≡ pair
unfolding belongs
belongs-row_key pair row fits h =
    let (at_block, at_index) = &&-eq-true (block_is pair.0 row) (phase_is pair.1 row.phase_idx) h in
    ap₂ (λ b i. (b, i))
      (eq_int-key row.block_num pair.0
        (subst (λ z. eq_int row.block_num z ≡ true) (as_i64-pos pair.0 fits.block) at_block))
      (phase-key row.phase_idx pair.1 fits.index at_index)

module _ (decode_event_fields : Bytes → Bytes → Bytes → List EventField) (row : EventRow) where
  joined_with-true :
      (p : ℕ × ℕ) (ps : List (ℕ × ℕ))
      → belongs p row ≡ true
      → joined_with decode_event_fields row (p ∷ ps)
        ≡ (row_key row, event_ref decode_event_fields row) ∷ joined_with decode_event_fields row ps
  unfolding joined_with
  joined_with-true p ps h = ground arith

  joined_with-false :
      (p : ℕ × ℕ) (ps : List (ℕ × ℕ))
      → belongs p row ≡ false
      → joined_with decode_event_fields row (p ∷ ps) ≡ joined_with decode_event_fields row ps
  unfolding joined_with
  joined_with-false p ps h = ground arith

  -- A pair that is not the key gives nothing under it.
  joined_with-other :
      (key p : ℕ × ℕ) (ps : List (ℕ × ℕ))
      → Fits p
      → p ≢ key
      → pick key (joined_with decode_event_fields row (p ∷ ps))
        ≡ pick key (joined_with decode_event_fields row ps)
  joined_with-other key p ps fits ne = elim (Bool-cases (belongs p row)) [
    | inl e ↦
        ap (pick key) (joined_with-true p ps e)
        ∙ pick-other (row_key row) key (event_ref decode_event_fields row)
            (joined_with decode_event_fields row ps)
            (pair-differs (row_key row) key (λ q. ne (sym (belongs-row_key p row fits e) ∙ q)))
    | inr e ↦ ap (pick key) (joined_with-false p ps e)
  ]

  joined_with-absent :
      (key : ℕ × ℕ) (ps : List (ℕ × ℕ))
      → All Fits ps
      → All (λ p. p ≢ key) ps
      → pick key (joined_with decode_event_fields row ps) ≡ []
  unfolding joined_with pick
  joined_with-absent key [] fits ne = refl
  joined_with-absent key (p ∷ ps) (f, fits) (n, ne) =
      joined_with-other key p ps f n ∙ joined_with-absent key ps fits ne

  -- The row's events under a key.
  abbrev own : ℕ × ℕ → List EventRef
  own key = if belongs key row then event_ref decode_event_fields row ∷ [] else []

  joined_with-key :
      (key : ℕ × ℕ) (ps : List (ℕ × ℕ))
      → Fits key
      → pick key (joined_with decode_event_fields row ps) ≡ []
      → pick key (joined_with decode_event_fields row (key ∷ ps)) ≡ own key
  joined_with-key key ps fits rest = elim (Bool-cases (belongs key row)) [
    | inl e ↦
        ap (pick key) (joined_with-true key ps e)
        ∙ pick-same (row_key row) key (event_ref decode_event_fields row)
            (joined_with decode_event_fields row ps)
            (ap (λ k. pair_beq k key) (belongs-row_key key row fits e) ∙ pair_beq_refl key)
        ∙ ap (◌∷◌ (event_ref decode_event_fields row)) rest
        ∙ sym (ap (λ b. if b then event_ref decode_event_fields row ∷ [] else []) e)
    | inr e ↦
        ap (pick key) (joined_with-false key ps e)
        ∙ rest
        ∙ sym (ap (λ b. if b then event_ref decode_event_fields row ∷ [] else []) e)
  ]

  joined_with-own :
      (key : ℕ × ℕ) (ps : List (ℕ × ℕ))
      → All Fits ps
      → DistinctBy (λ p. p) ps
      → In key ps
      → pick key (joined_with decode_event_fields row ps) ≡ own key
  joined_with-own key [] fits d i = absurd i
  joined_with-own key (p ∷ ps) (f, fits) (ne, d) (inl e) =
      subst (λ k. pick k (joined_with decode_event_fields row (p ∷ ps)) ≡ own k) (sym e)
        (joined_with-key p ps f (joined_with-absent p ps fits ne))
  joined_with-own key (p ∷ ps) (f, fits) (ne, d) (inr i) =
      joined_with-other key p ps f (λ q. All-In (λ y. y ≢ p) ps key ne i (sym q))
      ∙ joined_with-own key ps fits d i

module _ (decode_event_fields : Bytes → Bytes → Bytes → List EventField) where
  -- Under one of distinct pairs the join leaves the events of the pair's extrinsic, in order.
  pub pick-join :
      (table : List EventRow) (key : ℕ × ℕ) (ps : List (ℕ × ℕ))
      → All Fits ps
      → DistinctBy (λ p. p) ps
      → In key ps
      → pick key (join decode_event_fields table ps)
        ≡ map (event_ref decode_event_fields) (keep (belongs key) table)
  unfolding join pick
  pick-join [] key ps fits d i = refl
  pick-join (row ∷ rows) key ps fits d i =
      pick-append key (joined_with decode_event_fields row ps) (join decode_event_fields rows ps)
      ∙ ground (
        arith,
        joined_with-own decode_event_fields row key ps fits d i,
        pick-join rows key ps fits d i,
      )
