-- ===== src/Buffer/Forks.antt =====
-- What a finalized head drops, and what two blocks of one number do to the lookup by hash.
use allfeat_explorer.Common.{
  ℕ, ◌≤◌, ◌<◌, ◌≡◌, ◌≢◌, refl, sym, ap, ◌∙◌, false, Option, some, List, [], ◌∷◌, Bytes, ltb, arith,
  Bool-cases, All, keep, get_elem?, inl, inr,
}
use allfeat_explorer.Common.Maps.{
  HashMap, remove, nat_eq, bytes_eq, bytes_beq, bytes_beq_refl, bytes_beq_sound,
}
use allfeat_explorer.Domain.{Extrinsic}
use allfeat_explorer.Ss58.{decode_hex32}
use allfeat_explorer.Buffer.{
  BufferedBlock, PendingBuffer, new, append_block, evict_oldest, push_block, publish_metrics,
  index_extrinsics, insert_some, drop_finalized, advance_finalized, rebuild_xt_index,
  reindex_positions, extrinsic_by_hash, extrinsic_by_block_idx,
}

-- The block numbers do not descend from front to back.
abbrev pub IsAscending : List BufferedBlock → Type 0
IsAscending [] = Unit {0}
IsAscending (k ∷ ks) = All (λ (j : BufferedBlock). k.number ≤ j.number) ks × IsAscending ks

keep-everything :
    (up_to n : ℕ) (ks : List BufferedBlock)
    → up_to < n
    → All (λ (j : BufferedBlock). n ≤ j.number) ks
    → keep (λ (j : BufferedBlock). ltb up_to j.number) ks ≡ ks
keep-everything up_to n [] h a = refl
keep-everything up_to n (k ∷ ks) h (p, a) = ground (arith, keep-everything up_to n ks h a)

drop_finalized-keep :
    (up_to : ℕ) (ks : List BufferedBlock) (m : HashMap ℕ ℕ)
    → IsAscending ks
    → (drop_finalized up_to ks m).0 ≡ keep (λ (j : BufferedBlock). ltb up_to j.number) ks
unfolding drop_finalized
drop_finalized-keep up_to [] m s = refl
drop_finalized-keep up_to (k ∷ ks) m (a, s) =
    ground
      (arith, drop_finalized-keep up_to ks (remove k.number m) s, keep-everything up_to k.number ks)

-- In a buffer whose block numbers do not descend, a finalized head drops the blocks at or below it and
-- no others, and never lowers the finalized head.
pub advance_finalized-keep :
    (d : Bytes → Option Bytes) (b : PendingBuffer) (up_to : ℕ)
    → IsAscending b.blocks
    → ((advance_finalized d b up_to).blocks
        ≡ keep (λ (j : BufferedBlock). ltb up_to j.number) b.blocks)
      × (b.finalized_head ≤ (advance_finalized d b up_to).finalized_head)
      × (up_to ≤ (advance_finalized d b up_to).finalized_head)
unfolding advance_finalized publish_metrics rebuild_xt_index reindex_positions
advance_finalized-keep d b up_to s =
    (drop_finalized-keep up_to b.blocks b.by_number s, omega arith, omega arith)

bytes_ne : (s t : Bytes) → s ≢ t → bytes_beq t s ≡ false
bytes_ne s t ne = elim (Bool-cases (bytes_beq t s)) [
  | inl e ↦ absurd (ne (sym (bytes_beq_sound t s e)))
  | inr e ↦ e
]

module _ (d : Bytes → Option Bytes) (j k : BufferedBlock) (x y : Extrinsic) (h h' : Bytes)
    (ej : j.extrinsics ≡ x ∷ []) (ek : k.extrinsics ≡ y ∷ []) where
  fork_hash :
      decode_hex32 d x.hash ≡ some h
      → decode_hex32 d y.hash ≡ some h'
      → h ≢ h'
      → (append_block d (append_block d new j) k).by_xt_hash h ≡ some (j.number, x.index)
  unfolding append_block evict_oldest push_block publish_metrics new index_extrinsics insert_some
  fork_hash dx dy ne = simp (ej, ek) (rw (dx, dy, insert_some, bytes_ne h h' ne, bytes_beq_refl h))

  fork_number : (append_block d (append_block d new j) k).by_number k.number ≡ some 1
  unfolding append_block evict_oldest push_block publish_metrics new
  fork_number = ground arith

  fork_block : get_elem? (append_block d (append_block d new j) k).blocks 1 ≡ some k
  unfolding append_block evict_oldest push_block publish_metrics new
  fork_block = refl

-- Two blocks of one number with one extrinsic each, at the same index: the hash of the first block's
-- extrinsic then resolves to the second block's, whose hash is another one.
pub fork_misresolves :
    (d : Bytes → Option Bytes) (j k : BufferedBlock) (x y : Extrinsic) (h h' : Bytes)
    → j.number ≡ k.number
    → j.extrinsics ≡ x ∷ []
    → k.extrinsics ≡ y ∷ []
    → x.index ≡ y.index
    → decode_hex32 d x.hash ≡ some h
    → decode_hex32 d y.hash ≡ some h'
    → h ≢ h'
    → extrinsic_by_hash (append_block d (append_block d new j) k) h ≡ some y
unfolding extrinsic_by_hash extrinsic_by_block_idx
fork_misresolves d j k x y h h' n ej ek i dx dy ne =
    rw
      (
        fork_hash d j k x y h h' ej ek dx dy ne ∙ ap (λ (q : ℕ). some (q, x.index)) n,
        fork_number d j k x y h h' ej ek,
        fork_block d j k x y h h' ej ek,
        ek,
      )
      (ground arith)
