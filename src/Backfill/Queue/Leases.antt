-- ===== src/Backfill/Queue/Leases.antt =====
-- A claimed chunk belongs to its worker until the lease runs out, under any interleaving of the other
-- workers' statements.
use allfeat_explorer.Common.{
  ℕ, ◌<◌, ◌≡◌, ◌≢◌, inl, inr, sym, ◌∙◌, true, false, Option, none, some, List, [], ◌∷◌, ◌++◌, arith,
  All, Bytes, Option-cases,
}
use allfeat_explorer.Backfill.Queue.Rows.{lowest-All, select-All, update-All}
use allfeat_explorer.Backfill.Queue.{
  Row, Table, done, lowest, select, update, ClaimedChunk, claim_chunk, is_claimable,
  mark_chunk_done, mark_chunk_failed, seed_chunks,
}

-- The statements that the workers and the seeding tasks run.
pub data Op : Type 0 where
  claims : ℕ → ℕ → Op
  finishes : ℕ → ℕ → Op
  fails : ℕ → Bytes → ℕ → Op
  seeds : ℕ → ℕ → ℕ → ℕ → List ℕ → Op

abbrev pub after_seed : Table → Option (Table × ℕ) → Table
after_seed t none = t
after_seed t (some (t', n)) = t'

unfoldable pub apply : Op → Table → Table
apply (claims sid now) t = (claim_chunk sid now t).0
apply (finishes id now) t = mark_chunk_done id now t
apply (fails id error now) t = mark_chunk_failed id error now t
apply (seeds sid now head size existing) t = after_seed t (seed_chunks sid now head size existing t)

abbrev pub chunk_id : Option ClaimedChunk → List ℕ
chunk_id none = []
chunk_id (some c) = c.id ∷ []

-- The id that a statement hands to a worker, if it does.
unfoldable pub handed_out : Op → Table → List ℕ
handed_out (claims sid now) t = chunk_id (claim_chunk sid now t).1
handed_out (finishes id now) t = []
handed_out (fails id error now) t = []
handed_out (seeds sid now head size existing) t = []

-- The ids handed out by a sequence of statements.
unfoldable pub all_handed_out : List Op → Table → List ℕ
all_handed_out [] t = []
all_handed_out (op ∷ ops) t = handed_out op t ++ all_handed_out ops (apply op t)

abbrev pub AreFresh : Table → Type 0
AreFresh t = All (λ r. r.id < t.next_id) t.rows

abbrev pub finished : ℕ → Row → Row
finished now r = record r { status = done; lease_until = none; last_error = none; updated_at = now }

abbrev pub Guarded : ℕ → (Row → Type 0) → List Row → Type 0
Guarded id S = All (λ r. r.id ≡ id → S r)

-- A state `S` of a row that keeps it from being claimed, by statements that satisfy `Fits`.
pub record Guard (id : ℕ) (S : Row → Type 0) (Fits : Op → Type 0) : Type 0 where
  pub refuses :
      (sid now : ℕ) (r : Row) → Fits (claims sid now) → S r → is_claimable sid now r ≡ false
  pub finishing : (now : ℕ) (r : Row) → Fits (finishes id now) → S (finished now r)
  pub failing : (error : Bytes) (now : ℕ) → ¬ Fits (fails id error now)

module _ {id : ℕ} {S : Row → Type 0} {Fits : Op → Type 0} (g : Guard id S Fits) where
  pub claim-ne :
      (sid now : ℕ) (t : Table) (r : Row)
      → Guarded id S t.rows
      → Fits (claims sid now)
      → lowest (select (is_claimable sid now) t.rows) ≡ some r
      → r.id ≢ id
  claim-ne sid now t r held fits e same =
      let p =
        lowest-All (λ s. (is_claimable sid now s ≡ true) × (s.id ≡ id → S s))
          (select (is_claimable sid now) t.rows) r (select-All _ (is_claimable sid now) t.rows held)
          e in
      let no_claim = g.refuses sid now r fits (p.1 same) in ground arith

  pub Guarded-update :
      (j : ℕ) (f : Row → Row) (rows : List Row)
      → ((r : Row) → (f r).id ≡ r.id)
      → ((r : Row) → j ≡ id → S (f r))
      → Guarded id S rows
      → Guarded id S (update j f rows)
  Guarded-update j f rows same keep =
      update-All _ _ j f rows (λ r e p here. keep r (sym e ∙ sym (same r) ∙ here)) (λ r e p. p)

  pub handed_out-ne :
      (op : Op) (t : Table) → Guarded id S t.rows → Fits op → All (λ j. j ≢ id) (handed_out op t)
  unfolding handed_out claim_chunk
  handed_out-ne (claims sid now) t held h =
      elim (Option-cases (lowest (select (is_claimable sid now) t.rows))) [
        | inl e ↦ rw (e, claim_chunk) tt
        | inr (r, e) ↦ rw (e, claim_chunk) ((claim-ne sid now t r held h e), tt)
      ]
  handed_out-ne (finishes j now) t held h = tt
  handed_out-ne (fails j error now) t held h = tt
  handed_out-ne (seeds sid now head size existing) t held h = tt
