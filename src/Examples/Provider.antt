-- ===== src/Examples/Provider.antt =====
-- The theorems on the indexed provider, at a concrete provider.
use allfeat_explorer.Common.{
  ℕ, ◌<◌, ◌≤◌, ◌≡◌, ◌⊎◌, refl, true, false, none, some, List, [], ◌∷◌, ◌++◌, codes, arith, ok, err,
  inl, inr, take, length, ltb, ap, subst, Result, In,
}
use allfeat_explorer.Common.Integers.{pos}
use allfeat_explorer.Common.Members.{DistinctBy}
use allfeat_explorer.Domain.{Block, Extrinsic, Page, PageRequest, empty_page}
use allfeat_explorer.Errors.{DataError}
use allfeat_explorer.Buffer.{PendingBuffer, BufferedBlock, new}
use allfeat_explorer.Filters.{BlockFilters}
use allfeat_explorer.Cursor.Request.{parse_cursor}
use allfeat_explorer.Network.{ChainCtx, allfeat}
use allfeat_explorer.Queries.Blocks.{BlockRow}
use allfeat_explorer.Queries.Runtime.{RuntimeUpgrade, first_rows, first_rows-oldest, version_of}
use allfeat_explorer.Queries.Extrinsics.Shown.{shown}
use allfeat_explorer.Indexed.{RpcProvider, Tables, IndexedProvider, network_sid}
use allfeat_explorer.Indexed.Extrinsics.{
  latest_extrinsics, extrinsic_by_id, buffered_extrinsic, newest_first,
}
use allfeat_explorer.Indexed.Latest.{
  wanted, topping, latest_extrinsics-merged, latest_extrinsics-ends_early,
}
use allfeat_explorer.Indexed.Lookup.{extrinsic_by_id-shown}
use allfeat_explorer.Indexed.Blocks.{latest_blocks}
use allfeat_explorer.Indexed.Seam.{IsPage, Ordered}
use allfeat_explorer.Indexed.Order.{pending_request, latest_blocks-IsPage}
use allfeat_explorer.Indexed.Runtime.{runtime_upgrades, current_ones, runtime_upgrades-current}
use allfeat_explorer.Examples.Probes.{block}
use allfeat_explorer.Examples.Feeds.{
  codec, table, events, signed_row, signed_row-IsPlaced, table-IsPlaced, all_filters,
}

abbrev block_row : ℕ → BlockRow
block_row num = record {
  num = num;
  hash = [];
  parent_hash = [];
  state_root = [];
  extrinsics_root = [];
  author = none;
  timestamp_ms = 1000;
  spec_version = pos 100;
  extrinsic_count = pos 2;
  event_count = pos 2;
  ref_time = pos 7;
  proof_size = pos 8;
  ref_time_pct = pos 3;
  size_bytes = pos 9;
}

abbrev blocks : List BlockRow
blocks = block_row 5 ∷ block_row 4 ∷ []

abbrev tables : Tables
tables = record { blocks = blocks; extrinsics = table; events = events }

-- Tables that hold no extrinsic yet.
abbrev fresh : Tables
fresh = record { blocks = []; extrinsics = []; events = [] }

-- Two blocks above the stored ones.
abbrev pending_page : Page Block
pending_page = record {
  items = block 7 ∷ block 6 ∷ [];
  page_info = record { total = none; next_cursor = none; has_more = false };
}

abbrev items_of : Result DataError (Page Block) → List Block
items_of (ok page) = page.items
items_of (err e) = []

abbrev node : RpcProvider
node = record {
  head_block = ok 7;
  block_by_number = λ number. ok none;
  latest_blocks = λ req filters. ok pending_page;
  extrinsics_in_block = λ block. ok [];
  latest_extrinsics = λ req filters. ok empty_page;
  extrinsic_by_id = λ id. ok none;
  runtime_upgrades = ok [];
  spec_version = ok 100;
}

abbrev pending : ℕ → ℕ → Extrinsic
pending block idx = record {
  id = [];
  block_number = block;
  index = idx;
  hash = [];
  pallet = codes "Balances";
  call = codes "transfer";
  signed = true;
  signer = none;
  args = allfeat_explorer.Domain.raw [];
  result = allfeat_explorer.Domain.CallResult.success;
  nonce = none;
  tip = 0;
  fee = 0;
  timestamp_ms = 1000;
  events = [];
}

abbrev buffer : PendingBuffer
buffer = record {
  blocks =
      record { number = 7; hash = []; extrinsics = pending 7 1 ∷ pending 7 2 ∷ []; transfers = [] }
      ∷ [];
  by_number = λ n. none;
  by_xt_hash = λ h. none;
  finalized_head = 6;
  sent = [];
  gauges = none;
}

abbrev provider : Tables → IndexedProvider
provider stored = record {
  pool = λ sid. ok stored;
  indexed = λ id. true;
  buffers = λ id. some buffer;
  rpc = node;
  network_lookup = some (λ id. some 1);
}

abbrev ctx : ChainCtx
ctx = record { spec = allfeat; now_ms = 1763513202000 }

abbrev first_page : ℕ → PageRequest
first_page count = record { count = count; cursor = none }

abbrev Merged : PageRequest → Type 0
Merged req =
    (page : Page Extrinsic) × (latest_extrinsics codec (provider tables) ctx req all_filters
      ≡ ok page)
    × (page.items
        ≡ take req.count (
            wanted codec (provider tables) ctx req all_filters none tables
            ++ topping codec (provider tables) ctx req all_filters none tables))
    × (length (wanted codec (provider tables) ctx req all_filters none tables) < req.count
        → page.page_info.has_more
          ≡ ltb req.count (
              length (
                wanted codec (provider tables) ctx req all_filters none tables
                ++ topping codec (provider tables) ctx req all_filters none tables)))

latest_extrinsics-merged_example : Merged (first_page 3)
unfolding parse_cursor network_sid allfeat_explorer.Common.Integers.at_least_zero
latest_extrinsics-merged_example =
    latest_extrinsics-merged codec (provider tables) ctx (first_page 3) all_filters none tables refl
      (omega arith) refl refl table-IsPlaced ((refl, (refl, tt)), ((refl, tt), (tt, tt)))
      (tt, (tt, (tt, tt)))

abbrev EndsEarly : PageRequest → Type 0
EndsEarly req =
    (page : Page Extrinsic) × (latest_extrinsics codec (provider fresh) ctx req all_filters
      ≡ ok page)
    × (page.items ≡ take req.count (wanted codec (provider fresh) ctx req all_filters none fresh))
    × (page.page_info.has_more ≡ false)

latest_extrinsics-ends_early_example : EndsEarly (first_page 1)
unfolding parse_cursor network_sid newest_first allfeat_explorer.Filters.extrinsic_matches_filters
latest_extrinsics-ends_early_example =
    latest_extrinsics-ends_early codec (provider fresh) ctx (first_page 1) all_filters none fresh
      refl (omega arith) refl refl tt tt tt refl (omega arith)

extrinsic_by_id-shown_example :
    extrinsic_by_id codec (provider tables) ctx (shown codec 440 events (signed_row 4 1)).id
    ≡ ok (some (shown codec 440 events (signed_row 4 1)))
unfolding network_sid buffered_extrinsic allfeat_explorer.Buffer.extrinsic_by_block_idx
    allfeat_explorer.Common.Integers.at_least_zero
extrinsic_by_id-shown_example =
    extrinsic_by_id-shown codec (provider tables) ctx tables (signed_row 4 1) refl refl refl
      (signed_row-IsPlaced 4 1 (omega arith) (omega arith))
      ((refl, (refl, tt)), ((refl, tt), (tt, tt))) (inr (inr (inl refl)))

abbrev any_block : BlockFilters
any_block = record { finalized = none; min_extrinsics = none }

abbrev Seamed : PageRequest → Type 0
Seamed req =
    ((page : Page Block) × (latest_blocks codec (provider tables) ctx req any_block ≡ ok page)
      × IsPage req.count page.items)
    ⊎ ((e : DataError) × (node.latest_blocks (pending_request req none) any_block ≡ err e)
        × (latest_blocks codec (provider tables) ctx req any_block ≡ err e))

latest_blocks-IsPage_example : Seamed (first_page 2)
unfolding parse_cursor network_sid
latest_blocks-IsPage_example =
    latest_blocks-IsPage codec (provider tables) ctx tables (first_page 2) none any_block
      ((refl, tt), (tt, tt)) refl (omega arith) refl refl
      (λ page answered. subst Ordered (ap items_of answered) ((refl, tt), (tt, tt)))

abbrev CurrentOne : ℕ → Type 0
CurrentOne current =
    (us : List RuntimeUpgrade) × (u : RuntimeUpgrade) × (runtime_upgrades (provider tables) ctx
      ≡ ok us)
    × (current_ones us ≡ u ∷ [])
    × (u.spec_version ≡ current)

runtime_upgrades-current_example : CurrentOne 100
unfolding network_sid
runtime_upgrades-current_example =
    runtime_upgrades-current (provider tables) ctx tables 100 refl refl refl
      ((100, refl), ((100, refl), tt))

-- The version 100 from block 4 on, and 101 from block 5 on.
abbrev upgraded : List BlockRow
upgraded =
    record (block_row 6) { spec_version = pos 101 }
    ∷ record (block_row 5) { spec_version = pos 101 }
    ∷ block_row 4
    ∷ []

first_rows-oldest_example :
    DistinctBy version_of (first_rows upgraded)
    × ((first : BlockRow) → In first (first_rows upgraded) → In first upgraded)
    × ((row : BlockRow)
        → In row upgraded
        → (first : BlockRow) × In first (first_rows upgraded)
          × (version_of first ≡ version_of row)
          × (first.num ≤ row.num))
first_rows-oldest_example =
    first_rows-oldest upgraded ((refl, (refl, tt)), ((refl, tt), (tt, tt)))
      ((101, refl), ((101, refl), ((100, refl), tt)))
