-- ===== src/Buffer/Indexes.antt =====
-- Both indexes of the buffer stay what a rebuild from its blocks would give, the buffer stays within
-- its capacity, and the gauges tell its state.
use allfeat_explorer.Common.{
  ℕ, suc, ◌+◌, ◌≤◌, ◌≡◌, ◌⊎◌, inl, inr, refl, sym, ap, ◌∙◌, Option, none, some, List, [], ◌∷◌, ◌++◌,
  Bytes, leb, ◌==◌, length, length-append, arith, if_elim, Bool-cases, ==→eq,
}
use allfeat_explorer.Common.Maps.{HashMap, empty, insert, remove, nat_eq, bytes_eq}
use allfeat_explorer.Buffer.{
  BufferedBlock, PendingBuffer, Gauges, buffer_capacity, new, last_number, publish_metrics,
  positions, reindex_positions, pop_front, index_extrinsics, index_blocks, rebuild_xt_index,
  evict_oldest, push_block, append_block, drop_finalized, advance_finalized,
}

pub positions-append :
    (xs : List BufferedBlock) (b : BufferedBlock) (i : ℕ) (m : HashMap ℕ ℕ)
    → positions (xs ++ b ∷ []) i m ≡ insert b.number (i + length xs) (positions xs i m)
unfolding positions
positions-append [] b i m = ap (λ (k : ℕ). insert b.number k m) (omega arith)
positions-append (x ∷ xs) b i m =
    positions-append xs b (suc i) (insert x.number i m)
    ∙ ap (λ (k : ℕ). insert b.number k (positions xs (suc i) (insert x.number i m))) (omega arith)

module _ (decode_to_slice : Bytes → Option Bytes) where
  pub index_blocks-append :
      (xs : List BufferedBlock) (b : BufferedBlock) (m : HashMap Bytes (ℕ × ℕ))
      → index_blocks decode_to_slice (xs ++ b ∷ []) m
        ≡ index_extrinsics decode_to_slice b.number b.extrinsics (index_blocks decode_to_slice xs m)
  unfolding index_blocks
  index_blocks-append [] b m = refl
  index_blocks-append (x ∷ xs) b m =
      index_blocks-append xs b (index_extrinsics decode_to_slice x.number x.extrinsics m)

  -- The gauges that `publish_metrics` writes for a buffer.
  abbrev pub gauges_of : PendingBuffer → Gauges
  gauges_of b = record {
    size = length b.blocks;
    best_head = last_number b.blocks;
    finalized_head = b.finalized_head;
  }

  pub record IsIndexed (b : PendingBuffer) : Type 0 where
    pub numbers : b.by_number ≡ positions b.blocks 0 empty
    pub hashes : b.by_xt_hash ≡ index_blocks decode_to_slice b.blocks empty
    pub bounded : length b.blocks ≤ buffer_capacity
    pub published : (b.gauges ≡ none) ⊎ (b.gauges ≡ some (gauges_of b))

  new-IsIndexed : IsIndexed new
  unfolding new positions index_blocks
  new-IsIndexed = record {
    numbers = refl;
    hashes = refl;
    bounded = omega arith;
    published = inl refl;
  }

  push_block-IsIndexed :
      (b : PendingBuffer) (block : BufferedBlock)
      → b.by_number ≡ positions b.blocks 0 empty
      → b.by_xt_hash ≡ index_blocks decode_to_slice b.blocks empty
      → suc (length b.blocks) ≤ buffer_capacity
      → IsIndexed (push_block decode_to_slice b block)
  unfolding push_block publish_metrics
  push_block-IsIndexed b block n h l = record {
    numbers =
        ap (insert block.number (length b.blocks)) n
        ∙ sym (
            positions-append b.blocks block 0 empty
            ∙ ap (λ (k : ℕ). insert block.number k (positions b.blocks 0 empty)) (omega arith));
    hashes =
        ap (index_extrinsics decode_to_slice block.number block.extrinsics) h
        ∙ sym (index_blocks-append b.blocks block empty);
    bounded = omega (arith, length-append b.blocks (block ∷ []));
    published = inr refl;
  }

  -- Both indexes fit the blocks, and there is room for a block more.
  record IsReady (b : PendingBuffer) : Type 0 where
    numbers : b.by_number ≡ positions b.blocks 0 empty
    hashes : b.by_xt_hash ≡ index_blocks decode_to_slice b.blocks empty
    room : suc (length b.blocks) ≤ buffer_capacity

  full_evict :
      (b : PendingBuffer) (xs : List BufferedBlock)
      → b.blocks ≡ xs
      → length b.blocks ≡ buffer_capacity
      → IsReady (elim (pop_front b) [
        | none ↦ b
        | some (f, b') ↦ rebuild_xt_index decode_to_slice (reindex_positions b')
      ])
  unfolding rebuild_xt_index reindex_positions pop_front
  full_evict b [] e full = absurd (omega (arith, ap length e))
  full_evict b (f ∷ rest) e full =
      rw (pop_front, e)
        (record { numbers = refl; hashes = refl; room = omega (arith, ap length e) })

  evict_oldest-IsReady :
      (b : PendingBuffer) → IsIndexed b → IsReady (evict_oldest decode_to_slice b)
  unfolding evict_oldest
  evict_oldest-IsReady b v =
      if_elim IsReady (length b.blocks == buffer_capacity)
        (λ full. full_evict b b.blocks refl (==→eq _ _ full))
        (λ more. record {
          numbers = v.numbers;
          hashes = v.hashes;
          room = ground (arith, v.bounded);
        })

  append_block-IsIndexed :
      (b : PendingBuffer) (block : BufferedBlock)
      → IsIndexed b
      → IsIndexed (append_block decode_to_slice b block)
  unfolding append_block
  append_block-IsIndexed b block v =
      let r = evict_oldest-IsReady b v in
      push_block-IsIndexed (evict_oldest decode_to_slice b) block r.numbers r.hashes r.room

  drop_finalized-le :
      (up_to : ℕ) (xs : List BufferedBlock) (m : HashMap ℕ ℕ)
      → length (drop_finalized up_to xs m).0 ≤ length xs
  unfolding drop_finalized
  drop_finalized-le up_to [] m = omega arith
  drop_finalized-le up_to (x ∷ xs) m = elim (Bool-cases (leb x.number up_to)) [
    | inl gone ↦
        rw (drop_finalized, gone) (omega (arith, drop_finalized-le up_to xs (remove x.number m)))
    | inr stays ↦ rw (drop_finalized, stays) (omega arith)
  ]

  advance_finalized-IsIndexed :
      (b : PendingBuffer) (up_to : ℕ)
      → IsIndexed b
      → IsIndexed (advance_finalized decode_to_slice b up_to)
  unfolding advance_finalized publish_metrics rebuild_xt_index reindex_positions
  advance_finalized-IsIndexed b up_to v = record {
    numbers = refl;
    hashes = refl;
    bounded = omega (arith, drop_finalized-le up_to b.blocks b.by_number, v.bounded);
    published = inr refl;
  }

-- What the producer calls on the buffer.
pub data Call : Type 0 where
  appends : BufferedBlock → Call
  advances : ℕ → Call

unfoldable pub run : (Bytes → Option Bytes) → PendingBuffer → List Call → PendingBuffer
run d b [] = b
run d b (appends block ∷ calls) = run d (append_block d b block) calls
run d b (advances up_to ∷ calls) = run d (advance_finalized d b up_to) calls

run-IsIndexed :
    (d : Bytes → Option Bytes) (b : PendingBuffer) (calls : List Call)
    → IsIndexed d b
    → IsIndexed d (run d b calls)
unfolding run
run-IsIndexed d b [] v = v
run-IsIndexed d b (appends block ∷ calls) v =
    run-IsIndexed d (append_block d b block) calls (append_block-IsIndexed d b block v)
run-IsIndexed d b (advances up_to ∷ calls) v =
    run-IsIndexed d (advance_finalized d b up_to) calls (advance_finalized-IsIndexed d b up_to v)

-- After any calls on a new buffer both indexes are those that a rebuild from the blocks gives, at most
-- 64 blocks are held, and the gauges, once published, tell the size, the best and the finalized head.
pub run_new-IsIndexed :
    (d : Bytes → Option Bytes) (calls : List Call) → IsIndexed d (run d new calls)
run_new-IsIndexed d calls = run-IsIndexed d new calls (new-IsIndexed d)
