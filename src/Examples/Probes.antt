-- ===== src/Examples/Probes.antt =====
-- The theorems on the networks, the readiness probe and the mock provider, at concrete states.
use allfeat_explorer.Common.{
  ℕ, ◌+◌, ◌*◌, ◌/◌, ◌<◌, ◌≤◌, ◌≡◌, ◌↔◌, refl, true, false, ◌&&◌, none, some, [], ◌∷◌, codes, arith,
  ok, err, keep, take, length, ltb,
}
use allfeat_explorer.Common.Integers.{pos}
use allfeat_explorer.Domain.{Block, BlockEvent, EventPhase, Page, PageRequest}
use allfeat_explorer.Errors.{DataError}
use allfeat_explorer.Filters.{EventFilters}
use allfeat_explorer.Cursor.Request.{parse_cursor}
use allfeat_explorer.Network.{ChainCtx, allfeat, head_block, block_timestamp_ms, head_block-between}
use allfeat_explorer.Health.{AppState, Reads, readyz, collect_status_from, offline}
use allfeat_explorer.Health.Status.{ReadsStale, collect_status_from-offline}
use allfeat_explorer.Health.Ready.{indexers_fresh, readyz-status}
use allfeat_explorer.Mock.{Generators, wanted_event, scan_tip, latest_events}
use allfeat_explorer.Mock.Events.{all_events, latest_events-first}

abbrev ctx : ChainCtx
ctx = record { spec = allfeat; now_ms = 1763513203000 }

head_block-between_example :
    (t next : ℕ) × (block_timestamp_ms ctx (head_block ctx) ≡ pos t)
    × (block_timestamp_ms ctx (head_block ctx + 1) ≡ pos next)
    × (t ≤ ctx.now_ms)
    × (ctx.now_ms < next)
head_block-between_example = head_block-between ctx (omega arith) (omega arith) (omega arith)

abbrev state : AppState
state = record {
  is_ready = true;
  db_pool = some (λ sid. ok (some (pos 31)));
  network_lookup = some (λ id. some 1);
  indexed_network_ids = codes "allfeat" ∷ [];
}

readyz-status_example :
    (readyz state).status
    ≡ (elim (state.is_ready
        && indexers_fresh state.db_pool state.network_lookup state.indexed_network_ids) [
          | true ↦ 200
          | false ↦ 503
        ])
readyz-status_example = readyz-status state

abbrev event : ℕ → ℕ → BlockEvent
event block index = record {
  block_number = block;
  index = index;
  phase = EventPhase.finalization;
  pallet = codes "System";
  name = codes "Remarked";
  fields = [];
  timestamp_ms = 1000;
}

abbrev pub block : ℕ → Block
block number = record {
  number = number;
  hash = [];
  parent_hash = [];
  state_root = [];
  extrinsics_root = [];
  timestamp_ms = 1000;
  finalized = true;
  extrinsic_count = 1;
  event_count = 2;
  author = [];
  author_name = [];
  ref_time = 1;
  ref_time_pct = 1;
  proof_size = 1;
  spec_version = 1;
  size_bytes = 1;
}

abbrev gen : Generators
gen = record {
  build_block = λ c number. block number;
  get_blocks = λ c count tip. [];
  build_extrinsics = λ c number count. [];
  get_latest_extrinsics = λ c count. [];
  get_transfers = λ c count. [];
  mock_events_for_block = λ c number. event number 0 ∷ event number 1 ∷ [];
}

abbrev filters : EventFilters
filters = record { pallet = none; variant = none }

abbrev First : PageRequest → Type 0
First req =
    (page : Page BlockEvent) × (latest_events gen ctx req filters ≡ ok page)
    × (page.items
        ≡ take req.count
            (keep (wanted_event none filters) (all_events gen ctx (scan_tip ctx none))))
    × (page.page_info.has_more
        ≡ ltb req.count
            (length (keep (wanted_event none filters) (all_events gen ctx (scan_tip ctx none)))))

latest_events-first_example : First (record { count = 3; cursor = none })
unfolding parse_cursor
latest_events-first_example =
    latest_events-first gen ctx (record { count = 3; cursor = none }) filters none (omega arith)
      (omega arith) refl

abbrev unreachable : Reads
unreachable = record {
  head = err (DataError.transport []);
  age = err (DataError.transport []);
  done = err (DataError.transport []);
}

collect_status_from-offline_example :
    ((collect_status_from ℕ 100
        (λ done total. done * 100 / total)
        (λ pct. ltb pct 100)
        (codes "allfeat")
        (some 500)
        (some unreachable)).state
      ≡ offline)
    ↔ ReadsStale (some unreachable)
collect_status_from-offline_example =
    collect_status_from-offline ℕ 100 (λ done total. done * 100 / total) (λ pct. ltb pct 100)
      (codes "allfeat") (some 500) (some unreachable)
