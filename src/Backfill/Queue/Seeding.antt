-- ===== src/Backfill/Queue/Seeding.antt =====
-- What a seeding leaves in the queue: every chunk of the plan, once.
use allfeat_explorer.Common.{
  ℕ, ◌+◌, ◌≤◌, ◌<◌, ◌≡◌, ◌⊎◌, inl, inr, refl, sym, subst, ◌∙◌, true, some, List, [], ◌∷◌, ◌++◌,
  arith, All, if_elim, Option-cases, ||-eq-true,
}
use allfeat_explorer.Decimal.{u64_max}
use allfeat_explorer.Backfill.Chunks.{Chunk, split_gaps_into_chunks}
use allfeat_explorer.Backfill.Chunks.Tiles.{Covers}
use allfeat_explorer.Backfill.Chunks.Coverage.{IsMissing, split_gaps_complete}
use allfeat_explorer.Backfill.Queue.{
  Row, Table, same_key, has_key, new_row, insert_pending, insert_all, seed_chunks,
}
use allfeat_explorer.Backfill.Queue.Rows.{some_inj}

-- A row of the network holds the block in its range.
abbrev pub Holds : ℕ → ℕ → List Row → Type 0
Holds sid n [] = ⊥
Holds sid n (r ∷ rows) =
    ((r.network_sid ≡ sid) × (r.from_block ≤ n) × (n ≤ r.to_block)) ⊎ Holds sid n rows

abbrev HasKey : ℕ → List Row → Chunk → Type 0
HasKey sid rows c = has_key sid c rows ≡ true

has_key-append :
    (sid : ℕ) (c : Chunk) (xs ys : List Row)
    → has_key sid c xs ≡ true
    → has_key sid c (xs ++ ys) ≡ true
unfolding has_key
has_key-append sid c [] ys h = cc
has_key-append sid c (r ∷ xs) ys h = ground (arith, has_key-append sid c xs ys)

has_key-last :
    (sid : ℕ) (c : Chunk) (xs : List Row) (r : Row)
    → same_key sid c r ≡ true
    → has_key sid c (xs ++ r ∷ []) ≡ true
unfolding has_key
has_key-last sid c [] r h = ground arith
has_key-last sid c (x ∷ xs) r h = ground (arith, has_key-last sid c xs r h)

same_key-new_row : (id sid now : ℕ) (c : Chunk) → same_key sid c (new_row id sid now c) ≡ true
unfolding same_key new_row
same_key-new_row id sid now (from, to) = ground arith

same_key_range :
    (sid from to n : ℕ) (r : Row)
    → same_key sid (from, to) r ≡ true
    → from ≤ n
    → n ≤ to
    → (r.network_sid ≡ sid) × (r.from_block ≤ n) × (n ≤ r.to_block)
unfolding same_key
same_key_range sid from to n r h l u = ground arith

Holds-of-key :
    (sid from to n : ℕ) (rows : List Row)
    → has_key sid (from, to) rows ≡ true
    → from ≤ n
    → n ≤ to
    → Holds sid n rows
unfolding has_key
Holds-of-key sid from to n [] h l u = cc
Holds-of-key sid from to n (r ∷ rows) h l u =
    elim (||-eq-true (same_key sid (from, to) r) (has_key sid (from, to) rows) h) [
      | inl here ↦ inl (same_key_range sid from to n r here l u)
      | inr later ↦ inr (Holds-of-key sid from to n rows later l u)
    ]

insert_pending-HasKey :
    (sid now : ℕ) (c : Chunk) (t : Table) → HasKey sid (insert_pending sid now c t).0.rows c
unfolding insert_pending
insert_pending-HasKey sid now c t =
    if_elim (λ (p : Table × ℕ). HasKey sid p.0.rows c) (has_key sid c t.rows) (λ e. e)
      (λ _. has_key-last sid c t.rows _ (same_key-new_row t.next_id sid now c))

insert_pending-keeps :
    (sid now : ℕ) (c d : Chunk) (t : Table)
    → HasKey sid t.rows d
    → HasKey sid (insert_pending sid now c t).0.rows d
unfolding insert_pending
insert_pending-keeps sid now c d t h =
    if_elim (λ (p : Table × ℕ). HasKey sid p.0.rows d) (has_key sid c t.rows) (λ _. h)
      (λ _. has_key-append sid d t.rows _ h)

insert_all-keeps :
    (sid now : ℕ) (cs : List Chunk) (d : Chunk) (t : Table) (k : ℕ)
    → HasKey sid t.rows d
    → HasKey sid (insert_all sid now cs t k).0.rows d
unfolding insert_all
insert_all-keeps sid now [] d t k h = h
insert_all-keeps sid now (c ∷ cs) d t k h =
    insert_all-keeps sid now cs d (insert_pending sid now c t).0
      (k + (insert_pending sid now c t).1) (insert_pending-keeps sid now c d t h)

insert_all-HasKey :
    (sid now : ℕ) (cs : List Chunk) (t : Table) (k : ℕ)
    → All (HasKey sid (insert_all sid now cs t k).0.rows) cs
unfolding insert_all
insert_all-HasKey sid now [] t k = tt
insert_all-HasKey sid now (c ∷ cs) t k =
    let step = insert_pending sid now c t in
    (
      insert_all-keeps sid now cs c step.0 (k + step.1) (insert_pending-HasKey sid now c t),
      insert_all-HasKey sid now cs step.0 (k + step.1),
    )

Holds-of-Covers :
    (sid n : ℕ) (rows : List Row) (cs : List Chunk)
    → All (HasKey sid rows) cs
    → Covers n cs
    → Holds sid n rows
Holds-of-Covers sid n rows [] a c = absurd c
Holds-of-Covers sid n rows ((from, to) ∷ cs) (h, a) (inl (l, u)) =
    Holds-of-key sid from to n rows h l u
Holds-of-Covers sid n rows (c ∷ cs) (h, a) (inr later) = Holds-of-Covers sid n rows cs a later

-- After a seeding with a chunk size above zero, every block up to the head that is not indexed yet is
-- in the range of a row of the network, whatever rows the queue held before.
pub seed_chunks_complete :
    (sid now head size n : ℕ) (existing : List ℕ) (t : Table)
    → head ≤ u64_max
    → 0 < size
    → n ≤ head
    → IsMissing n existing
    → (t' : Table) × (k : ℕ) × (seed_chunks sid now head size existing t ≡ some (t', k))
      × Holds sid n t'.rows
unfolding seed_chunks
seed_chunks_complete sid now head size n existing t m p u h =
    let (cs, planned, covered) = split_gaps_complete head existing size n m p u h in
    (
      (insert_all sid now cs t 0).0,
      (insert_all sid now cs t 0).1,
      rw (planned, seed_chunks),
      Holds-of-Covers sid n _ cs (insert_all-HasKey sid now cs t 0) covered,
    )

-- Inserting chunks that all have a row changes no row and counts none.
insert_all_again :
    (sid now : ℕ) (cs : List Chunk) (t : Table) (k : ℕ)
    → All (HasKey sid t.rows) cs
    → ((insert_all sid now cs t k).0.rows ≡ t.rows) × ((insert_all sid now cs t k).1 ≡ k)
unfolding insert_all insert_pending
insert_all_again sid now [] t k a = (refl, refl)
insert_all_again sid now (c ∷ cs) t k (h, a) =
    rw (insert_all, insert_pending, h)
      (let again = insert_all_again sid now cs (record t { next_id = t.next_id + 1 }) (k + 0) a in
        (again.0, again.1 ∙ omega arith))

seed_chunks-plan :
    (sid now head size : ℕ) (existing : List ℕ) (cs : List Chunk) (t : Table)
    → split_gaps_into_chunks head existing size ≡ some cs
    → seed_chunks sid now head size existing t ≡ some (insert_all sid now cs t 0)
unfolding seed_chunks
seed_chunks-plan sid now head size existing cs t e = rw (e, seed_chunks)

-- A second seeding from the same blocks inserts nothing and leaves every row as it was, whatever the
-- first one found in the queue.
pub seed_chunks_idempotent :
    (sid now later head size : ℕ) (existing : List ℕ) (t t' t'' : Table) (k k' : ℕ)
    → seed_chunks sid now head size existing t ≡ some (t', k)
    → seed_chunks sid later head size existing t' ≡ some (t'', k')
    → (t''.rows ≡ t'.rows) × (k' ≡ 0)
seed_chunks_idempotent sid now later head size existing t t' t'' k k' e e' =
    elim (Option-cases (split_gaps_into_chunks head existing size)) [
      | inl n ↦ absurd (unfold seed_chunks in ground arith)
      | inr (cs, p) ↦
          let first : insert_all sid now cs t 0 ≡ (t', k) =
            some_inj (sym (seed_chunks-plan sid now head size existing cs t p) ∙ e) in
          let second : insert_all sid later cs t' 0 ≡ (t'', k') =
            some_inj (sym (seed_chunks-plan sid later head size existing cs t' p) ∙ e') in
          let keys : All (HasKey sid t'.rows) cs =
            subst (λ (q : Table × ℕ). All (HasKey sid q.0.rows) cs) first
              (insert_all-HasKey sid now cs t 0) in
          subst (λ (q : Table × ℕ). (q.0.rows ≡ t'.rows) × (q.1 ≡ 0)) second
            (insert_all_again sid later cs t' 0 keys)
    ]
