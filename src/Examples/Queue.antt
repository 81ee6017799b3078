-- ===== src/Examples/Queue.antt =====
-- The theorems on the chunk queue, at a concrete table.
use allfeat_explorer.Common.{ℕ, ◌≡◌, ◌≢◌, refl, List, [], ◌∷◌, none, some, true, arith, codes, All}
use allfeat_explorer.Backfill.Queue.{
  Row, Table, pending, done, ClaimedChunk, claim_chunk, mark_chunk_done, mark_chunk_failed,
  is_claimable, seed_chunks, insert_all, insert_pending, has_key, same_key, new_row, lowest, select,
}
use allfeat_explorer.Backfill.Chunks.{split_gaps_into_chunks, gap_loop, push_chunked, push_loop}
use allfeat_explorer.Backfill.Queue.Leases.{Op, claims, finishes, seeds, all_handed_out}
use allfeat_explorer.Backfill.Queue.Exclusive.{claim_exclusive, done_final, failure_reopens}
use allfeat_explorer.Backfill.Queue.Seeding.{Holds, seed_chunks_complete, seed_chunks_idempotent}

abbrev first_row : Row
first_row = record {
  id = 1;
  network_sid = 1;
  from_block = 0;
  to_block = 999;
  status = done;
  lease_until = none;
  last_error = none;
  updated_at = 10;
}

abbrev second_row : Row
second_row = record first_row { id = 2; from_block = 1000; to_block = 1999; status = pending }

abbrev table : Table
table = record { rows = first_row ∷ second_row ∷ []; next_id = 3 }

abbrev second_chunk : ClaimedChunk
second_chunk = record { id = 2; from_block = 1000; to_block = 1999 }

claimed_second : (claim_chunk 1 100 table).1 ≡ some second_chunk
unfolding claim_chunk select lowest is_claimable
claimed_second = refl

abbrev later_ops : List Op
later_ops = claims 1 150 ∷ finishes 1 160 ∷ seeds 1 170 5000 1000 [] ∷ claims 1 400 ∷ []

claim_exclusive_example : All (λ j. j ≢ 2) (all_handed_out later_ops (claim_chunk 1 100 table).0)
claim_exclusive_example =
    claim_exclusive 1 100 table second_chunk later_ops (omega arith, (omega arith, tt))
      claimed_second (omega arith, (omega arith, (tt, (omega arith, tt))))

done_final_example : All (λ j. j ≢ 2) (all_handed_out later_ops (mark_chunk_done 2 140 table))
done_final_example = done_final 2 140 table later_ops (omega arith) (tt, (tt, (tt, (tt, tt))))

failure_reopens_example :
    All
      (λ r. r.id ≡ 1 → is_claimable r.network_sid 300 r ≡ true)
      (mark_chunk_failed 1 (codes "timeout") 200 table).rows
failure_reopens_example = failure_reopens 1 200 300 (codes "timeout") table

seed_chunks_complete_example :
    (t' : Table) × (k : ℕ) × (seed_chunks 1 50 2500 1000 (7 ∷ []) table ≡ some (t', k))
    × Holds 1 2200 t'.rows
seed_chunks_complete_example =
    seed_chunks_complete 1 50 2500 1000 2200 (7 ∷ []) table (omega arith) (omega arith)
      (omega arith) (omega arith, tt)

abbrev blank : Table
blank = record { rows = []; next_id = 1 }

abbrev seeded_row : Row
seeded_row = record first_row { from_block = 0; to_block = 4; status = pending; updated_at = 50 }

abbrev seeded : Table
seeded = record { rows = seeded_row ∷ []; next_id = 2 }

seeds_blank : seed_chunks 1 50 4 1000 [] blank ≡ some (seeded, 1)
unfolding seed_chunks insert_all insert_pending has_key new_row split_gaps_into_chunks gap_loop
    push_chunked push_loop
seeds_blank = refl

seeds_again : seed_chunks 1 60 4 1000 [] seeded ≡ some (record seeded { next_id = 3 }, 0)
unfolding seed_chunks insert_all insert_pending has_key same_key new_row split_gaps_into_chunks
    gap_loop push_chunked push_loop
seeds_again = refl

seed_chunks_idempotent_example : (seeded.rows ≡ seeded.rows) × (◌≡◌ {A = ℕ} 0 0)
seed_chunks_idempotent_example =
    seed_chunks_idempotent 1 50 60 4 1000 [] blank seeded (record seeded { next_id = 3 }) 1 0
      seeds_blank seeds_again
