-- ===== src/Examples/Buffers.antt =====
-- The theorems on the pending buffer, at concrete blocks.
use allfeat_explorer.Common.{
  ℕ, ◌≤◌, ◌≡◌, ◌≢◌, refl, true, List, [], ◌∷◌, Option, none, some, arith, codes, In, keep, ltb,
  ◌==◌, Bytes, length, inl, inr, if◌then◌else◌,
}
use allfeat_explorer.Domain.{Extrinsic, ExtrinsicArgs, success}
use allfeat_explorer.Ss58.{decode_hex32, strip_0x}
use allfeat_explorer.Hex.{read_pairs, digit_value}
use allfeat_explorer.Buffer.{
  BufferedBlock, PendingBuffer, new, append_block, advance_finalized, extrinsic_by_block_idx,
  extrinsic_by_hash, evict_oldest, push_block, publish_metrics, index_extrinsics, insert_some,
}
use allfeat_explorer.Buffer.Indexes.{Call, appends, advances, run, IsIndexed, run_new-IsIndexed}
use allfeat_explorer.Buffer.Resolve.{
  IsUnforked, Holds, extrinsic_by_hash_complete, extrinsic_by_hash_sound,
}
use allfeat_explorer.Buffer.Forks.{IsAscending, advance_finalized-keep, fork_misresolves}

-- A `decode_to_slice` into two bytes.
abbrev decode : Bytes → Option Bytes
decode s = if length s == 4 then read_pairs s else none

abbrev extrinsic : ℕ → ℕ → Bytes → Extrinsic
extrinsic number index hash = record {
  id = codes "1-0";
  block_number = number;
  index = index;
  hash = hash;
  pallet = codes "balances";
  call = codes "transfer";
  signed = true;
  signer = none;
  args = ExtrinsicArgs.raw [];
  result = success;
  nonce = none;
  tip = 0;
  fee = 0;
  timestamp_ms = 0;
  events = [];
}

abbrev tenth : BufferedBlock
tenth = record {
  number = 10;
  hash = codes "0xaa";
  extrinsics = extrinsic 10 0 (codes "0x0001") ∷ extrinsic 10 1 (codes "0x0002") ∷ [];
  transfers = [];
}

abbrev eleventh : BufferedBlock
eleventh = record {
  number = 11;
  hash = codes "0xbb";
  extrinsics = extrinsic 11 0 (codes "0x0003") ∷ [];
  transfers = [];
}

-- Another block of number 11.
abbrev other_eleventh : BufferedBlock
other_eleventh = record eleventh { extrinsics = extrinsic 11 0 (codes "0x0004") ∷ [] }

abbrev calls : List Call
calls = appends tenth ∷ appends eleventh ∷ []

run_new-IsIndexed_example :
    IsIndexed decode (run decode new (appends tenth ∷ advances 9 ∷ appends eleventh ∷ []))
run_new-IsIndexed_example =
    run_new-IsIndexed decode (appends tenth ∷ advances 9 ∷ appends eleventh ∷ [])

abbrev buffer : PendingBuffer
buffer = run decode new calls

held_blocks : buffer.blocks ≡ tenth ∷ eleventh ∷ []
unfolding run append_block push_block publish_metrics evict_oldest new
held_blocks = refl

unforked : IsUnforked buffer
unfolding run append_block push_block publish_metrics evict_oldest new
unforked = record {
  numbers = (omega arith, (tt, tt));
  indices = ((omega arith, (tt, tt)), ((tt, tt), tt));
}

tenth_held : In tenth buffer.blocks
unfolding run append_block push_block publish_metrics evict_oldest new
tenth_held = inl refl

decodes : decode_hex32 decode (codes "0x0002") ≡ some (0 ∷ 2 ∷ [])
unfolding decode_hex32 strip_0x read_pairs digit_value
decodes = refl

indexed : IsIndexed decode buffer
indexed = run_new-IsIndexed decode calls

extrinsic_by_hash_complete_example :
    (y : Extrinsic) × (extrinsic_by_hash buffer (0 ∷ 2 ∷ []) ≡ some y)
    × Holds decode buffer indexed unforked (0 ∷ 2 ∷ []) y
extrinsic_by_hash_complete_example =
    extrinsic_by_hash_complete decode buffer indexed unforked (0 ∷ 2 ∷ []) tenth
      (extrinsic 10 1 (codes "0x0002")) tenth_held (inr (inl refl)) decodes

found : extrinsic_by_hash buffer (0 ∷ 2 ∷ []) ≡ some (extrinsic 10 1 (codes "0x0002"))
unfolding run append_block push_block publish_metrics evict_oldest new extrinsic_by_hash
    extrinsic_by_block_idx decode_hex32 strip_0x read_pairs digit_value index_extrinsics insert_some
found = refl

extrinsic_by_hash_sound_example :
    Holds decode buffer indexed unforked (0 ∷ 2 ∷ []) (extrinsic 10 1 (codes "0x0002"))
extrinsic_by_hash_sound_example =
    extrinsic_by_hash_sound decode buffer indexed unforked (0 ∷ 2 ∷ [])
      (extrinsic 10 1 (codes "0x0002")) found

ascending : IsAscending buffer.blocks
unfolding run append_block push_block publish_metrics evict_oldest new
ascending = ((omega arith, tt), (tt, tt))

advance_finalized-keep_example :
    ((advance_finalized decode buffer 10).blocks
      ≡ keep (λ (j : BufferedBlock). ltb 10 j.number) buffer.blocks)
    × (buffer.finalized_head ≤ (advance_finalized decode buffer 10).finalized_head)
    × (10 ≤ (advance_finalized decode buffer 10).finalized_head)
advance_finalized-keep_example = advance_finalized-keep decode buffer 10 ascending

decodes_third : decode_hex32 decode (codes "0x0003") ≡ some (0 ∷ 3 ∷ [])
unfolding decode_hex32 strip_0x read_pairs digit_value
decodes_third = refl

decodes_fourth : decode_hex32 decode (codes "0x0004") ≡ some (0 ∷ 4 ∷ [])
unfolding decode_hex32 strip_0x read_pairs digit_value
decodes_fourth = refl

hashes_differ : ◌≢◌ {A = Bytes} (0 ∷ 3 ∷ []) (0 ∷ 4 ∷ [])
hashes_differ = λ e. cc

fork_misresolves_example :
    extrinsic_by_hash
      (append_block decode (append_block decode new eleventh) other_eleventh)
      (0 ∷ 3 ∷ [])
    ≡ some (extrinsic 11 0 (codes "0x0004"))
fork_misresolves_example =
    fork_misresolves decode eleventh other_eleventh (extrinsic 11 0 (codes "0x0003"))
      (extrinsic 11 0 (codes "0x0004")) (0 ∷ 3 ∷ []) (0 ∷ 4 ∷ []) refl refl refl refl decodes_third
      decodes_fourth hashes_differ
