-- ===== src/Queries/Events/Groups.antt =====
-- What the grouping loop leaves under a key.
use allfeat_explorer.Common.{
  ◌≡◌, refl, sym, ap, ap₂, ◌∙◌, append-nil, true, false, Option, none, some, List, [], ◌∷◌, ◌++◌,
  arith, if◌then◌else◌, append_assoc, Bool-cases, inl, inr,
}
use allfeat_explorer.Common.Maps.{Eq, HashMap}
use allfeat_explorer.Domain.{EventRef}
use allfeat_explorer.Queries.Events.{push_entry, group}

abbrev pub collected : Option (List EventRef) → List EventRef → Option (List EventRef)
collected none [] = none
collected none (event ∷ events) = some (event ∷ events)
collected (some before) events = some (before ++ events)

collected-push :
    (o : Option (List EventRef)) (event : EventRef) (events : List EventRef)
    → collected (some (elim o [ none ↦ event ∷ [] | some before ↦ before ++ event ∷ [] ])) events
      ≡ collected o (event ∷ events)
collected-push none event events = refl
collected-push (some before) event events = ap some (append_assoc before (event ∷ []) events)

collected-nil : (o : Option (List EventRef)) → collected o [] ≡ o
collected-nil none = refl
collected-nil (some before) = ap some (append-nil before)

abbrev with_event : EventRef → Option (List EventRef) → List EventRef
with_event event o = elim o [ none ↦ event ∷ [] | some before ↦ before ++ event ∷ [] ]

module _ {K : Type 0} ⦃e : Eq K⦄ where
  -- The events under a key, in order.
  unfoldable pub pick : K → List (K × EventRef) → List EventRef
  pick key [] = []
  pick key ((k, event) ∷ rows) =
      let rest = pick key rows in if e.beq k key then event ∷ rest else rest

  push_entry-same :
      (k key : K) (event : EventRef) (m : HashMap K (List EventRef))
      → e.beq k key ≡ true
      → push_entry k event m key ≡ some (with_event event (m key))
  unfolding push_entry
  push_entry-same k key event m h =
      ap (λ b. if b then some (with_event event (m k)) else m key) h
      ∙ ap (λ j. some (with_event event (m j))) (e.beq_sound k key h)

  push_entry-other :
      (k key : K) (event : EventRef) (m : HashMap K (List EventRef))
      → e.beq k key ≡ false
      → push_entry k event m key ≡ m key
  unfolding push_entry
  push_entry-other k key event m h = ap (λ b. if b then some (with_event event (m k)) else m key) h

  pub pick-same :
      (k key : K) (event : EventRef) (rows : List (K × EventRef))
      → e.beq k key ≡ true
      → pick key ((k, event) ∷ rows) ≡ event ∷ pick key rows
  unfolding pick
  pick-same k key event rows h = ground arith

  pub pick-other :
      (k key : K) (event : EventRef) (rows : List (K × EventRef))
      → e.beq k key ≡ false
      → pick key ((k, event) ∷ rows) ≡ pick key rows
  unfolding pick
  pick-other k key event rows h = ground arith

  pub group-pick :
      (rows : List (K × EventRef)) (m : HashMap K (List EventRef)) (key : K)
      → group rows m key ≡ collected (m key) (pick key rows)
  unfolding group pick
  group-pick [] m key = sym (collected-nil (m key))
  group-pick ((k, event) ∷ rows) m key = elim (Bool-cases (e.beq k key)) [
    | inl same ↦
        group-pick rows (push_entry k event m) key
        ∙ ap (λ o. collected o (pick key rows)) (push_entry-same k key event m same)
        ∙ collected-push (m key) event (pick key rows)
        ∙ ap (collected (m key)) (sym (pick-same k key event rows same))
    | inr other ↦
        group-pick rows (push_entry k event m) key
        ∙ ap₂ collected (push_entry-other k key event m other)
            (sym (pick-other k key event rows other))
  ]

  pub pick-append :
      (key : K) (xs ys : List (K × EventRef)) → pick key (xs ++ ys) ≡ pick key xs ++ pick key ys
  unfolding pick
  pick-append key [] ys = refl
  pick-append key ((k, event) ∷ xs) ys = ground (arith, pick-append key xs ys)
