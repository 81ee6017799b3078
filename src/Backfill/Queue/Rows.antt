-- ===== src/Backfill/Queue/Rows.antt =====
-- What the queue's statements do to the rows: selection, update by id, insertion.
use allfeat_explorer.Common.{
  ℕ, ◌≤◌, ◌≡◌, ◌≢◌, refl, sym, subst, Bool, true, Option, none, some, List, [], ◌∷◌, arith, All,
  leb, ◌==◌, if_elim,
}
use allfeat_explorer.Backfill.Queue.{Row, earlier, lowest, select, update}

pub some_inj {ℓ} : {A : Type ℓ} {a b : A} → some a ≡ some b → a ≡ b
some_inj h = cc

pub All-mono {κ ι} :
    (P : Row → Type κ) (Q : Row → Type ι) (rows : List Row)
    → ((r : Row) → P r → Q r)
    → All P rows
    → All Q rows
All-mono P Q [] h a = tt
All-mono P Q (r ∷ rows) h (p, a) = (h r p, All-mono P Q rows h a)

earlier-P {κ} :
    (P : Row → Type κ) (x : Row) (o : Option Row)
    → P x
    → ((s : Row) → o ≡ some s → P s)
    → P (earlier x o)
unfolding earlier
earlier-P P x none p h = p
earlier-P P x (some s) p h = if_elim P (leb x.id s.id) (λ _. p) (λ _. h s refl)

pub lowest-All {κ} :
    (P : Row → Type κ) (rows : List Row) (r : Row) → All P rows → lowest rows ≡ some r → P r
unfolding lowest
lowest-All P [] r a e = cc
lowest-All P (x ∷ rows) r (p, a) e =
    subst P (some_inj e) (earlier-P P x (lowest rows) p (λ s found. lowest-All P rows s a found))

pub lowest-none : (rows : List Row) → lowest rows ≡ none → rows ≡ []
unfolding lowest
lowest-none [] e = refl
lowest-none (r ∷ rows) e = cc

earlier-le_first : (x : Row) (o : Option Row) → (earlier x o).id ≤ x.id
unfolding earlier
earlier-le_first x none = omega arith
earlier-le_first x (some s) = ground arith

earlier-le_second : (x s : Row) → (earlier x (some s)).id ≤ s.id
unfolding earlier
earlier-le_second x s = ground arith

below-earlier :
    (x : Row) (rows : List Row) (o : Option Row)
    → lowest rows ≡ o
    → ((s : Row) → o ≡ some s → All (λ t. s.id ≤ t.id) rows)
    → All (λ s. (earlier x o).id ≤ s.id) rows
below-earlier x rows none n ih =
    subst (All (λ s. (earlier x none).id ≤ s.id)) (sym (lowest-none rows n)) tt
below-earlier x rows (some s) n ih =
    All-mono (λ t. s.id ≤ t.id) (λ t. (earlier x (some s)).id ≤ t.id) rows
      (λ t h. omega (arith, earlier-le_second x s)) (ih s refl)

-- The lowest row has no row in front of it.
pub lowest-le : (rows : List Row) (r : Row) → lowest rows ≡ some r → All (λ s. r.id ≤ s.id) rows
unfolding lowest
lowest-le [] r e = tt
lowest-le (x ∷ rows) r e =
    subst (λ t. All (λ s. t.id ≤ s.id) (x ∷ rows)) (some_inj e)
      (
        earlier-le_first x (lowest rows),
        below-earlier x rows (lowest rows) refl (λ s found. lowest-le rows s found),
      )

pub select-All {κ} :
    (P : Row → Type κ) (p : Row → Bool) (rows : List Row)
    → All P rows
    → All (λ r. (p r ≡ true) × P r) (select p rows)
unfolding select
select-All P p [] a = tt
select-All P p (r ∷ rows) (h, a) =
    if_elim (All (λ s. (p s ≡ true) × P s)) (p r) (λ e. ((e, h), select-All P p rows a))
      (λ _. select-All P p rows a)

pub update-All {κ ι} :
    (P : Row → Type κ) (Q : Row → Type ι) (id : ℕ) (f : Row → Row) (rows : List Row)
    → ((r : Row) → r.id ≡ id → P r → Q (f r))
    → ((r : Row) → r.id ≢ id → P r → Q r)
    → All P rows
    → All Q (update id f rows)
unfolding update
update-All P Q id f [] hit miss a = tt
update-All P Q id f (r ∷ rows) hit miss (p, a) = (
  if_elim Q (r.id == id) (λ e. hit r (ground arith) p) (λ e. miss r (ground arith) p),
  update-All P Q id f rows hit miss a,
)
