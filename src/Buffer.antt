-- ===== src/Buffer.antt =====
-- src/indexer/buffer.rs: the pending buffer of best blocks. The front of the deque is the head of the
-- list. The state keeps what was sent to the transfer channel, and the gauges that were published
-- last. `hex::decode_to_slice` is the parameter `decode_to_slice`.
pub mod Indexes
pub mod Lookup
pub mod Resolve
pub mod Forks
use allfeat_explorer.Common.{
  ℕ, zero, suc, ◌+◌, ◌≤◌, ◌≡◌, Bool, true, false, Option, none, some, List, [], ◌∷◌, ◌++◌, Bytes,
  ltb, leb, ◌==◌, if◌then◌else◌, length, get_elem?, find, max,
}
use allfeat_explorer.Common.Maps.{HashMap, empty, insert, remove, nat_eq, bytes_eq}
use allfeat_explorer.Common.Options.{◌>>=◌}
use allfeat_explorer.Domain.{Extrinsic, Transfer}
use allfeat_explorer.Ss58.{decode_hex32}

abbrev pub buffer_capacity : ℕ
buffer_capacity = 64

pub record BufferedBlock : Type 0 where
  pub number : ℕ
  pub hash : Bytes
  pub extrinsics : List Extrinsic
  pub transfers : List Transfer

-- The arguments of `record_buffer_state`.
pub record Gauges : Type 0 where
  pub size : ℕ
  pub best_head : Option ℕ
  pub finalized_head : ℕ

pub record PendingBuffer : Type 0 where
  pub blocks : List BufferedBlock
  pub by_number : HashMap ℕ ℕ
  pub by_xt_hash : HashMap Bytes (ℕ × ℕ)
  pub finalized_head : ℕ
  pub sent : List Transfer
  pub gauges : Option Gauges

unfoldable pub new : PendingBuffer
new = record {
  blocks = [];
  by_number = empty;
  by_xt_hash = empty;
  finalized_head = 0;
  sent = [];
  gauges = none;
}

abbrev pub last_number : List BufferedBlock → Option ℕ
last_number [] = none
last_number (b ∷ []) = some b.number
last_number (b ∷ c ∷ bs) = last_number (c ∷ bs)

unfoldable pub best_head : PendingBuffer → Option ℕ
best_head b = last_number b.blocks

unfoldable pub publish_metrics : PendingBuffer → PendingBuffer
publish_metrics b = record b {
  gauges = some (record {
    size = length b.blocks;
    best_head = last_number b.blocks;
    finalized_head = b.finalized_head;
  });
}

-- The loop of `reindex_positions`, from position `i` on.
unfoldable pub positions : List BufferedBlock → ℕ → HashMap ℕ ℕ → HashMap ℕ ℕ
positions [] i m = m
positions (b ∷ bs) i m = positions bs (suc i) (insert b.number i m)

unfoldable pub reindex_positions : PendingBuffer → PendingBuffer
unfolding positions
reindex_positions b = record b { by_number = positions b.blocks 0 empty }

unfoldable pub pop_front : PendingBuffer → Option (BufferedBlock × PendingBuffer)
pop_front b = elim b.blocks [
  | [] ↦ none
  | f ∷ rest ↦ some (f, record b { blocks = rest; by_number = remove f.number b.by_number })
]

-- `while let Some(front) = self.blocks.front()`, over the deque and the index.
unfoldable pub drop_finalized :
    ℕ → List BufferedBlock → HashMap ℕ ℕ → List BufferedBlock × HashMap ℕ ℕ
drop_finalized up_to [] m = ([], m)
drop_finalized up_to (f ∷ rest) m = elim (leb f.number up_to) [
  | true ↦ drop_finalized up_to rest (remove f.number m)
  | false ↦ (f ∷ rest, m)
]

-- `if let Some(hash) = … { self.by_xt_hash.insert(hash, …); }`
unfoldable pub insert_some : Option Bytes → ℕ × ℕ → HashMap Bytes (ℕ × ℕ) → HashMap Bytes (ℕ × ℕ)
insert_some none v m = m
insert_some (some h) v m = insert h v m

module _ (decode_to_slice : Bytes → Option Bytes) where
  -- The loop over a block's extrinsics.
  unfoldable pub index_extrinsics :
      ℕ → List Extrinsic → HashMap Bytes (ℕ × ℕ) → HashMap Bytes (ℕ × ℕ)
  index_extrinsics number [] m = m
  index_extrinsics number (x ∷ xs) m =
      index_extrinsics number xs
        (insert_some (decode_hex32 decode_to_slice x.hash) (number, x.index) m)

  unfoldable pub index_blocks : List BufferedBlock → HashMap Bytes (ℕ × ℕ) → HashMap Bytes (ℕ × ℕ)
  unfolding index_extrinsics
  index_blocks [] m = m
  index_blocks (b ∷ bs) m = index_blocks bs (index_extrinsics b.number b.extrinsics m)

  unfoldable pub rebuild_xt_index : PendingBuffer → PendingBuffer
  unfolding index_blocks
  rebuild_xt_index b = record b { by_xt_hash = index_blocks b.blocks empty }

  -- The eviction of the oldest block of a full buffer.
  unfoldable pub evict_oldest : PendingBuffer → PendingBuffer
  evict_oldest b =
      if length b.blocks == buffer_capacity
      then elim (pop_front b) [ none ↦ b | some (f, b') ↦ rebuild_xt_index (reindex_positions b') ]
      else b

  -- The new block is indexed and its transfers are sent, in order.
  unfoldable pub push_block : PendingBuffer → BufferedBlock → PendingBuffer
  push_block b block = publish_metrics (record b {
    by_xt_hash = index_extrinsics block.number block.extrinsics b.by_xt_hash;
    sent = b.sent ++ block.transfers;
    by_number = insert block.number (length b.blocks) b.by_number;
    blocks = b.blocks ++ block ∷ [];
  })

  unfoldable pub append_block : PendingBuffer → BufferedBlock → PendingBuffer
  append_block b block = push_block (evict_oldest b) block

  unfoldable pub advance_finalized : PendingBuffer → ℕ → PendingBuffer
  advance_finalized b up_to =
      let (blocks, by_number) = drop_finalized up_to b.blocks b.by_number in
      publish_metrics (
        rebuild_xt_index (
          reindex_positions (record b {
            finalized_head = max b.finalized_head up_to;
            blocks = blocks;
            by_number = by_number;
          })))

unfoldable pub extrinsic_by_block_idx : PendingBuffer → ℕ → ℕ → Option Extrinsic
extrinsic_by_block_idx b block_num idx = do
  pos ← b.by_number block_num
  block ← get_elem? b.blocks pos
  find (λ (x : Extrinsic). x.index == idx) block.extrinsics

unfoldable pub extrinsic_by_hash : PendingBuffer → Bytes → Option Extrinsic
extrinsic_by_hash b hash = do
  (block_num, idx) ← b.by_xt_hash hash
  extrinsic_by_block_idx b block_num idx
