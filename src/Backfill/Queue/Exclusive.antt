-- ===== src/Backfill/Queue/Exclusive.antt =====
-- The lease theorem: no statement of another worker hands out a chunk that is leased, and a chunk
-- that is done stays so unless a worker reports a failure for it.
use allfeat_explorer.Common.{
  ℕ, ◌+◌, ◌≤◌, ◌<◌, ◌≡◌, ◌≢◌, inl, inr, refl, sym, subst, ◌∙◌, true, false, some, List, [], ◌∷◌,
  arith, All, All-append, Bytes, Option-cases,
}
use allfeat_explorer.Backfill.Queue.Rows.{lowest-All, select-All, update-All}
use allfeat_explorer.Backfill.Queue.Leases.{
  Op, claims, finishes, fails, seeds, apply, handed_out, all_handed_out, AreFresh, finished,
  Guarded, Guard, claim-ne, Guarded-update, handed_out-ne,
}
use allfeat_explorer.Backfill.Queue.{
  Row, Table, running, done, lowest, select, ClaimedChunk, claim_chunk, is_claimable, claimed,
  lease_duration, mark_chunk_done, mark_chunk_failed,
}
use allfeat_explorer.Backfill.Queue.Inserts.{All-trivial, seed-All, apply-next_id}

module _ {id : ℕ} {S : Row → Type 0} {Fits : Op → Type 0} (g : Guard id S Fits) where
  apply-Guarded :
      (op : Op) (t : Table)
      → id < t.next_id
      → Fits op
      → Guarded id S t.rows
      → Guarded id S (apply op t).rows
  unfolding apply claim_chunk mark_chunk_done mark_chunk_failed
  apply-Guarded (claims sid now) t old h held =
      elim (Option-cases (lowest (select (is_claimable sid now) t.rows))) [
        | inl e ↦ rw (e, apply, claim_chunk) held
        | inr (r, e) ↦
            rw (e, apply, claim_chunk)
              (Guarded-update g r.id (claimed now) t.rows (λ s. refl)
                (λ s same. absurd (claim-ne g sid now t r held h e same)) held)
      ]
  apply-Guarded (finishes j now) t old h held =
      Guarded-update g j (finished now) t.rows (λ s. refl)
        (λ r same. g.finishing now r (subst (λ k. Fits (finishes k now)) same h)) held
  apply-Guarded (fails j error now) t old h held =
      Guarded-update g j _ t.rows (λ s. refl)
        (λ r same. absurd (g.failing error now (subst (λ k. Fits (fails k error now)) same h))) held
  apply-Guarded (seeds sid now head size existing) t old h held =
      seed-All _ sid now head size existing t (λ r e s same. absurd (omega arith)) held

  -- As long as the statements fit, none of them hands out the guarded chunk.
  all_handed_out-ne :
      (ops : List Op) (t : Table)
      → id < t.next_id
      → All Fits ops
      → Guarded id S t.rows
      → All (λ j. j ≢ id) (all_handed_out ops t)
  unfolding all_handed_out
  all_handed_out-ne [] t old h held = tt
  all_handed_out-ne (op ∷ ops) t old (h, hs) held =
      All-append _ (handed_out op t) (all_handed_out ops (apply op t)) (handed_out-ne g op t held h)
        (all_handed_out-ne ops (apply op t) (omega (arith, apply-next_id op t)) hs
          (apply-Guarded op t old h held))

-- The row runs under a lease up to `until`.
abbrev IsLeased : ℕ → Row → Type 0
IsLeased until r = (r.status ≡ running) × (r.lease_until ≡ some until)

-- A statement that neither claims after `until` nor retires the chunk.
abbrev pub Spares : ℕ → ℕ → Op → Type 0
Spares id until (claims sid now) = now ≤ until
Spares id until (finishes j now) = j ≢ id
Spares id until (fails j error now) = j ≢ id
Spares id until (seeds sid now head size existing) = Unit {0}

lease_refuses :
    (sid now until : ℕ) (r : Row) → now ≤ until → IsLeased until r → is_claimable sid now r ≡ false
unfolding is_claimable
lease_refuses sid now until r h (s, l) = ground arith

lease_guard : (id until : ℕ) → Guard id (IsLeased until) (Spares id until)
lease_guard id until = record {
  refuses = λ sid now r h l. lease_refuses sid now until r h l;
  finishing = λ now r h. absurd (h refl);
  failing = λ error now h. h refl;
}

-- A claim puts its chunk under a lease.
claim_leases :
    (sid now : ℕ) (t : Table) (c : ClaimedChunk)
    → AreFresh t
    → (claim_chunk sid now t).1 ≡ some c
    → Guarded c.id (IsLeased (now + lease_duration)) (claim_chunk sid now t).0.rows
      × (c.id < (claim_chunk sid now t).0.next_id)
unfolding claim_chunk
claim_leases sid now t c fresh e =
    elim (Option-cases (lowest (select (is_claimable sid now) t.rows))) [
      | inl n ↦ absurd (ground arith)
      | inr (r, n) ↦
          let same : r.id ≡ c.id = ground arith in
          let old =
            lowest-All (λ s. (is_claimable sid now s ≡ true) × (s.id < t.next_id))
              (select (is_claimable sid now) t.rows) r
              (select-All (λ s. s.id < t.next_id) (is_claimable sid now) t.rows fresh) n in
          rw (n, claim_chunk)
            (
              update-All (λ s. Unit {0}) _ r.id (claimed now) t.rows (λ s at p here. (refl, refl))
                  (λ s at p here. absurd (at (here ∙ sym same))) (All-trivial t.rows),
              omega arith,
            )
    ]

-- After a claim at `now`, no statement hands the chunk out again up to the end of the lease, whatever
-- the workers and the seeding tasks run, as long as nobody retires the chunk. The ids of the rows are
-- below the next one to be given, as the id sequence keeps them.
pub claim_exclusive :
    (sid now : ℕ) (t : Table) (c : ClaimedChunk) (ops : List Op)
    → AreFresh t
    → (claim_chunk sid now t).1 ≡ some c
    → All (Spares c.id (now + lease_duration)) ops
    → All (λ j. j ≢ c.id) (all_handed_out ops (claim_chunk sid now t).0)
claim_exclusive sid now t c ops fresh e h =
    let (held, old) = claim_leases sid now t c fresh e in
    all_handed_out-ne (lease_guard c.id (now + lease_duration)) ops (claim_chunk sid now t).0 old h
      held

-- A statement that reports no failure of the chunk.
abbrev pub NoFailure : ℕ → Op → Type 0
NoFailure id (claims sid now) = Unit {0}
NoFailure id (finishes j now) = Unit {0}
NoFailure id (fails j error now) = j ≢ id
NoFailure id (seeds sid now head size existing) = Unit {0}

done_refuses : (sid now : ℕ) (r : Row) → r.status ≡ done → is_claimable sid now r ≡ false
unfolding is_claimable
done_refuses sid now r s = ground arith

done_guard : (id : ℕ) → Guard id (λ r. r.status ≡ done) (NoFailure id)
done_guard id = record {
  refuses = λ sid now r h s. done_refuses sid now r s;
  finishing = λ now r h. refl;
  failing = λ error now h. h refl;
}

-- A chunk that was marked done is never handed out again, unless a failure is reported for it. Its id
-- was given before, so that no later row takes it.
pub done_final :
    (id now : ℕ) (t : Table) (ops : List Op)
    → id < t.next_id
    → All (NoFailure id) ops
    → All (λ j. j ≢ id) (all_handed_out ops (mark_chunk_done id now t))
unfolding mark_chunk_done
done_final id now t ops old h =
    all_handed_out-ne (done_guard id) ops (mark_chunk_done id now t) old h (
      update-All (λ r. Unit {0}) _ id (finished now) t.rows (λ r e p same. refl)
        (λ r e p same. absurd (e same)) (All-trivial t.rows))

-- A report of failure makes the chunk claimable by its network again, whatever the status that it
-- had before, `done` included.
pub failure_reopens :
    (id now later : ℕ) (error : Bytes) (t : Table)
    → All
        (λ r. r.id ≡ id → is_claimable r.network_sid later r ≡ true)
        (mark_chunk_failed id error now t).rows
unfolding mark_chunk_failed is_claimable
failure_reopens id now later error t =
    update-All (λ r. Unit {0}) _ id _ t.rows (λ r e p same. ground arith)
      (λ r e p same. absurd (e same)) (All-trivial t.rows)
