-- ===== src/Backfill/Queue/Inserts.antt =====
-- What the inserts of a seeding keep of the rows and of the next id.
use allfeat_explorer.Common.{
  ℕ, ◌+◌, ◌≤◌, ◌≡◌, inl, inr, refl, List, [], ◌∷◌, arith, All, All-append, if_elim, Option-cases,
}
use allfeat_explorer.Backfill.Chunks.{Chunk, split_gaps_into_chunks}
use allfeat_explorer.Backfill.Queue.Leases.{Op, claims, finishes, fails, seeds, apply, after_seed}
use allfeat_explorer.Backfill.Queue.{
  Row, Table, pending, lowest, select, claim_chunk, is_claimable, mark_chunk_done,
  mark_chunk_failed, has_key, insert_pending, insert_all, seed_chunks, new_row,
}

pub All-trivial : (rows : List Row) → All (λ r. Unit {0}) rows
All-trivial [] = tt
All-trivial (r ∷ rows) = (tt, All-trivial rows)

-- What holds of the rows that stand, and of new rows, holds after an insert.
module _ {κ} (P : Row → Type κ) where
  pub insert_pending-All :
      (sid now : ℕ) (c : Chunk) (t : Table)
      → ((r : Row) → r.id ≡ t.next_id → r.status ≡ pending → P r)
      → All P t.rows
      → All P (insert_pending sid now c t).0.rows
        × (t.next_id ≤ (insert_pending sid now c t).0.next_id)
  unfolding insert_pending new_row
  insert_pending-All sid now (from, to) t new a =
      if_elim (λ (p : Table × ℕ). All P p.0.rows × (t.next_id ≤ p.0.next_id))
        (has_key sid (from, to) t.rows) (λ _. (a, omega arith))
        (λ _. (All-append P t.rows _ a (new _ refl refl, tt), omega arith))

  pub insert_all-All :
      (sid now : ℕ) (cs : List Chunk) (t : Table) (n : ℕ)
      → ((r : Row) → t.next_id ≤ r.id → r.status ≡ pending → P r)
      → All P t.rows
      → All P (insert_all sid now cs t n).0.rows
  unfolding insert_all
  insert_all-All sid now [] t n new a = a
  insert_all-All sid now (c ∷ cs) t n new a =
      let step = insert_pending-All sid now c t (λ r e s. new r (omega arith) s) a in
      insert_all-All sid now cs (insert_pending sid now c t).0 (n + (insert_pending sid now c t).1)
        (λ r e s. new r (omega (arith, step.1)) s) step.0

  pub seed-All :
      (sid now head size : ℕ) (existing : List ℕ) (t : Table)
      → ((r : Row) → t.next_id ≤ r.id → r.status ≡ pending → P r)
      → All P t.rows
      → All P (after_seed t (seed_chunks sid now head size existing t)).rows
  unfolding seed_chunks
  seed-All sid now head size existing t new a =
      elim (Option-cases (split_gaps_into_chunks head existing size)) [
        | inl e ↦ rw (e, seed_chunks) a
        | inr (cs, e) ↦ rw (e, seed_chunks) (insert_all-All sid now cs t 0 new a)
      ]

pub insert_all-next_id :
    (sid now : ℕ) (cs : List Chunk) (t : Table) (n : ℕ)
    → t.next_id ≤ (insert_all sid now cs t n).0.next_id
unfolding insert_all
insert_all-next_id sid now [] t n = omega arith
insert_all-next_id sid now (c ∷ cs) t n = omega (
  arith,
  (insert_pending-All (λ r. Unit {0}) sid now c t (λ r e s. tt) (All-trivial t.rows)).1,
  insert_all-next_id sid now cs (insert_pending sid now c t).0 (n + (insert_pending sid now c t).1),
)

pub seed-next_id :
    (sid now head size : ℕ) (existing : List ℕ) (t : Table)
    → t.next_id ≤ (after_seed t (seed_chunks sid now head size existing t)).next_id
unfolding seed_chunks
seed-next_id sid now head size existing t =
    elim (Option-cases (split_gaps_into_chunks head existing size)) [
      | inl e ↦ rw (e, seed_chunks) (omega arith)
      | inr (cs, e) ↦ rw (e, seed_chunks) (insert_all-next_id sid now cs t 0)
    ]

pub apply-next_id : (op : Op) (t : Table) → t.next_id ≤ (apply op t).next_id
unfolding apply claim_chunk mark_chunk_done mark_chunk_failed
apply-next_id (claims sid now) t =
    elim (Option-cases (lowest (select (is_claimable sid now) t.rows))) [
      | inl e ↦ rw (e, apply, claim_chunk) (omega arith)
      | inr (r, e) ↦ rw (e, apply, claim_chunk) (omega arith)
    ]
apply-next_id (finishes j now) t = omega arith
apply-next_id (fails j error now) t = omega arith
apply-next_id (seeds sid now head size existing) t = seed-next_id sid now head size existing t
