-- ===== src/Network.antt =====
-- src/network.rs: the networks, and the quantities of a chain that follow from the wall clock. A time
-- is a natural number of milliseconds; a time before 1970 counts as 0, as `max(0)` would have it.
use allfeat_explorer.Common.{
  ℕ, ◌+◌, ◌-◌, ◌*◌, ◌/◌, ◌%◌, ◌^◌, ◌≤◌, ◌<◌, ◌≡◌, ap, ◌∙◌, Bool, true, false, Option, none, some,
  List, [], ◌∷◌, Bytes, codes, arith, max, find,
}
use allfeat_explorer.Common.Integers.{ℤ, pos, as_i64, as_i64-pos}
use allfeat_explorer.Common.Maps.{bytes_beq}
use native.Mathlib.Nat.{div-add-mod', mod-lt, mod-eq_of_lt}

pub data RuntimeKind : Type 0 where
  allfeat_runtime melodie_runtime : RuntimeKind

pub record NetworkSpec : Type 0 where
  pub id : Bytes
  pub name : Bytes
  pub kind : Bytes
  pub testnet : Bool
  pub token : Bytes
  pub block_time_secs : ℕ
  pub spec_version : ℕ
  pub spec_name : Bytes
  pub ss58_prefix : ℕ
  pub seed : ℕ
  pub genesis_ms : ℕ
  pub authors : List Bytes
  pub ats_blocks_per : ℕ
  pub endpoint : Bytes
  pub runtime_kind : RuntimeKind

abbrev pub allfeat : NetworkSpec
allfeat = record {
  id = codes "allfeat";
  name = codes "Allfeat";
  kind = codes "Mainnet";
  testnet = false;
  token = codes "AFT";
  block_time_secs = 6;
  spec_version = 1001004;
  spec_name = codes "allfeat";
  ss58_prefix = 440;
  seed = 0x0A1FEA70;
  genesis_ms = 1763513190000;
  authors =
      codes "Allfeat-1"
      ∷ codes "Allfeat-2"
      ∷ codes "Allfeat-3"
      ∷ codes "Allfeat-4"
      ∷ codes "Allfeat-5"
      ∷ codes "Allfeat-6"
      ∷ codes "Allfeat-7"
      ∷ codes "Allfeat-8"
      ∷ [];
  ats_blocks_per = 5;
  endpoint = codes "wss://mainnet.rpc.allfeat.org";
  runtime_kind = allfeat_runtime;
}

abbrev pub melodie : NetworkSpec
melodie = record {
  id = codes "melodie";
  name = codes "Melodie";
  kind = codes "Testnet";
  testnet = true;
  token = codes "MEL";
  block_time_secs = 3;
  spec_version = 1002011;
  spec_name = codes "melodie";
  ss58_prefix = 42;
  seed = 0xBEAAF00D;
  genesis_ms = 1774761990000;
  authors =
      codes "Melodie-1"
      ∷ codes "Melodie-2"
      ∷ codes "Melodie-3"
      ∷ codes "Melodie-4"
      ∷ codes "Melodie-5"
      ∷ codes "Melodie-6"
      ∷ codes "Melodie-7"
      ∷ codes "Melodie-8"
      ∷ [];
  ats_blocks_per = 3;
  endpoint = codes "wss://melodie-rpc.allfeat.io";
  runtime_kind = melodie_runtime;
}

abbrev pub networks : List NetworkSpec
networks = allfeat ∷ melodie ∷ []

unfoldable pub by_id : Bytes → Option NetworkSpec
by_id id = find (λ n. bytes_beq n.id id) networks

unfoldable pub by_id_or_default : Bytes → NetworkSpec
by_id_or_default id = elim (by_id id) [ none ↦ allfeat | some n ↦ n ]

pub record ChainCtx : Type 0 where
  pub spec : NetworkSpec
  pub now_ms : ℕ

unfoldable pub head_block : ChainCtx → ℕ
head_block ctx =
    let elapsed_ms = ctx.now_ms - ctx.spec.genesis_ms in
    elapsed_ms / 1000 / max ctx.spec.block_time_secs 1

-- The products wrap at 64 bits, and so does the sum.
unfoldable pub block_timestamp_ms : ChainCtx → ℕ → ℤ
block_timestamp_ms ctx num =
    as_i64 ((ctx.spec.genesis_ms + num * ctx.spec.block_time_secs * 1000) % 2 ^ 64)

unfoldable pub ats_total : ChainCtx → ℕ
ats_total ctx = (head_block ctx / max ctx.spec.ats_blocks_per 1 + 1) % 2 ^ 32

unfoldable pub ats_version_total : ChainCtx → ℕ
ats_version_total ctx = ats_total ctx * 3 / 2 % 2 ^ 32

head-between :
    (e b : ℕ) → 0 < b → (e / 1000 / b * b * 1000 ≤ e) × (e < e / 1000 / b * b * 1000 + b * 1000)
head-between e b p =
    let q = e / 1000 in
    let low : q / b * b + q % b ≡ q = div-add-mod' q b in
    let rest : q % b < b = mod-lt q p in (omega (arith, low), omega (arith, low, rest))

-- A timestamp that fits 63 bits is not wrapped.
block_timestamp_ms-pos :
    (ctx : ChainCtx) (num : ℕ)
    → ctx.spec.genesis_ms + num * ctx.spec.block_time_secs * 1000 < 2 ^ 63
    → block_timestamp_ms ctx num ≡ pos (ctx.spec.genesis_ms + num * ctx.spec.block_time_secs * 1000)
unfolding block_timestamp_ms
block_timestamp_ms-pos ctx num h =
    let t = ctx.spec.genesis_ms + num * ctx.spec.block_time_secs * 1000 in
    ap as_i64 (mod-eq_of_lt (omega (arith, h))) ∙ as_i64-pos t h

head_block_lem :
    (ctx : ChainCtx)
    → 0 < ctx.spec.block_time_secs
    → head_block ctx ≡ (ctx.now_ms - ctx.spec.genesis_ms) / 1000 / ctx.spec.block_time_secs
unfolding head_block
head_block_lem ctx p = ap (λ k. (ctx.now_ms - ctx.spec.genesis_ms) / 1000 / k) (omega (arith, p))

next-mul : (q b : ℕ) → (q + 1) * b * 1000 ≡ q * b * 1000 + b * 1000
next-mul q b = grind arith

-- The head block is the last one whose timestamp has come: its timestamp is not after now, and that of
-- the next block is. The genesis is not after now, the time one block after now fits 63 bits, and
-- blocks take some time.
pub head_block-between :
    (ctx : ChainCtx)
    → ctx.spec.genesis_ms ≤ ctx.now_ms
    → ctx.now_ms + ctx.spec.block_time_secs * 1000 < 2 ^ 63
    → 0 < ctx.spec.block_time_secs
    → (t next : ℕ) × (block_timestamp_ms ctx (head_block ctx) ≡ pos t)
      × (block_timestamp_ms ctx (head_block ctx + 1) ≡ pos next)
      × (t ≤ ctx.now_ms)
      × (ctx.now_ms < next)
head_block-between ctx g n p =
    let b = ctx.spec.block_time_secs in
    let e = ctx.now_ms - ctx.spec.genesis_ms in
    let q = e / 1000 / b in
    let (low, high) = head-between e b p in
    let step = next-mul q b in
    (
      ctx.spec.genesis_ms + q * b * 1000,
      ctx.spec.genesis_ms + (q + 1) * b * 1000,
      ap (block_timestamp_ms ctx) (head_block_lem ctx p)
          ∙ block_timestamp_ms-pos ctx q (omega (arith, low, g, n)),
      ap (λ k. block_timestamp_ms ctx (k + 1)) (head_block_lem ctx p)
          ∙ block_timestamp_ms-pos ctx (q + 1) (omega (arith, low, step, g, n)),
      omega (arith, low, g),
      omega (arith, high, step, g),
    )
