-- ===== src/Indexed.antt =====
-- src/data/indexed/provider.rs: the provider that answers from the database, the pending buffer and the
-- RPC provider. The RPC provider's answers for the chain are a parameter, and so are the tables of each
-- network number, whose read may fail.
pub mod Blocks
pub mod Extrinsics
pub mod Seam
pub mod Order
pub mod Merge
pub mod Pages
pub mod Latest
pub mod Lookup
pub mod Runtime
use allfeat_explorer.Common.{
  ℕ, Bool, true, false, Option, none, some, List, [], ◌∷◌, ◌++◌, Bytes, codes, Result, ok, err,
  ◌>>=◌, ok_or, if◌then◌else◌,
}
use allfeat_explorer.Common.Maps.{HashMap}
use allfeat_explorer.Domain.{Block, Extrinsic, Page, PageRequest}
use allfeat_explorer.Errors.{DataError, rpc}
use allfeat_explorer.Filters.{BlockFilters, ExtrinsicFilters}
use allfeat_explorer.Buffer.{PendingBuffer}
use allfeat_explorer.Network.{ChainCtx}
use allfeat_explorer.Queries.Blocks.{BlockRow, indexed_head}
use allfeat_explorer.Queries.Events.{EventRow}
use allfeat_explorer.Queries.Runtime.{RuntimeUpgrade}
use allfeat_explorer.Queries.Extrinsics.{ExtrinsicRow, Codec}

-- What the RPC provider answers for the chain of the call.
pub record RpcProvider : Type 0 where
  pub head_block : Result DataError ℕ
  pub block_by_number : ℕ → Result DataError (Option Block)
  pub latest_blocks : PageRequest → BlockFilters → Result DataError (Page Block)
  pub extrinsics_in_block : ℕ → Result DataError (List Extrinsic)
  pub latest_extrinsics : PageRequest → ExtrinsicFilters → Result DataError (Page Extrinsic)
  pub extrinsic_by_id : Bytes → Result DataError (Option Extrinsic)
  pub runtime_upgrades : Result DataError (List RuntimeUpgrade)
  -- `runtime_details(ctx, None)`, of which only `identity.spec_version` is read.
  pub spec_version : Result DataError ℕ

-- The rows of one network.
pub record Tables : Type 0 where
  pub blocks : List BlockRow
  pub extrinsics : List ExtrinsicRow
  pub events : List EventRow

pub record IndexedProvider : Type 0 where
  pub pool : ℕ → Result DataError Tables
  pub indexed : Bytes → Bool
  pub buffers : HashMap Bytes PendingBuffer
  pub rpc : RpcProvider
  pub network_lookup : Option (HashMap Bytes ℕ)

abbrev pub with_buffer : IndexedProvider → Bytes → PendingBuffer → IndexedProvider
with_buffer self network_id buffer = record self {
  buffers = λ id.
      if allfeat_explorer.Common.Maps.bytes_beq network_id id then some buffer else self.buffers id;
}

abbrev pub is_indexed : IndexedProvider → ChainCtx → Bool
is_indexed self ctx = self.indexed ctx.spec.id

abbrev pub buffer_for : IndexedProvider → ChainCtx → Option PendingBuffer
buffer_for self ctx = self.buffers ctx.spec.id

not_initialised : Bytes → DataError
not_initialised id =
    rpc (
      codes "network lookup not initialised (indexed path requires seed_lookups before use): "
      ++ id)

not_registered : Bytes → DataError
not_registered id =
    rpc
      (codes "network id " ++ (b'"' ∷ (id ++ (b'"' ∷ codes " not registered in `networks` table"))))

unfoldable pub network_sid : IndexedProvider → ChainCtx → Result DataError ℕ
unfolding not_initialised not_registered
network_sid self ctx = do
  lookup ← ok_or self.network_lookup (not_initialised ctx.spec.id)
  ok_or (lookup ctx.spec.id) (not_registered ctx.spec.id)

-- The network's number and its rows.
abbrev pub tables_of : IndexedProvider → ChainCtx → Result DataError Tables
tables_of self ctx = do sid ← network_sid self ctx; self.pool sid

-- `indexed_head(..).unwrap_or(0)`
unfoldable pub indexed_head_or_zero : Tables → ℕ
indexed_head_or_zero tables = elim (indexed_head tables.blocks) [ none ↦ 0 | some n ↦ n ]
