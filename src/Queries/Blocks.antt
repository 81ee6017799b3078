-- ===== src/Queries/Blocks.antt =====
-- src/data/indexed/queries/blocks.rs: the keyset pages of blocks. The table is the list of one
-- network's rows in the order of the index on the block number, newest first, which is what the
-- query's `WHERE b.network_id` and `ORDER BY b.num DESC` range over. `num` is written from a block
-- number and is a natural number; the other columns are signed, as they are in the database.
pub mod Window
pub mod Walk
pub mod Head
use allfeat_explorer.Common.{
  ℕ, ◌+◌, ◌-◌, ◌≡◌, Bool, true, false, ◌&&◌, Option, none, some, List, [], ◌∷◌, map, Bytes, codes,
  Result, ok, err, leb, ◌==◌, if◌then◌else◌, min, max, keep, take, ◌>>=◌,
}
use allfeat_explorer.Common.Integers.{ℤ, pos, as_i64, as_i32, leb_int, at_least_zero}
use allfeat_explorer.Decimal.{u32_max}
use allfeat_explorer.Domain.{Block, Page, PageInfo, PageRequest, empty_page}
use allfeat_explorer.Errors.{DataError}
use allfeat_explorer.Filters.{BlockFilters, admits, bool_eq}
use allfeat_explorer.Cursor.Block.{BlockCursor, to_string, from_str}
use allfeat_explorer.Cursor.Request.{parse_cursor}
use allfeat_explorer.Ss58.Prefix.{encode_ss58_bytes}
use allfeat_explorer.Ss58.Label.{short_label}
use allfeat_explorer.Hex.{hex_bytes}
use allfeat_explorer.Queries.Keyset.{last, truncate, has_more}

pub record BlockRow : Type 0 where
  pub num : ℕ
  pub hash : Bytes
  pub parent_hash : Bytes
  pub state_root : Bytes
  pub extrinsics_root : Bytes
  pub author : Option Bytes
  pub timestamp_ms : ℕ
  pub spec_version : ℤ
  pub extrinsic_count : ℤ
  pub event_count : ℤ
  pub ref_time : ℤ
  pub proof_size : ℤ
  pub ref_time_pct : ℤ
  pub size_bytes : ℤ

-- The single `num <=` bound for the cursor and the upper bound.
unfoldable pub num_bound : Option BlockCursor → Option ℕ → Option ℤ
num_bound (some c) (some upper) = some (as_i64 (min upper (c.block - 1)))
num_bound (some c) none = some (as_i64 (c.block - 1))
num_bound none (some upper) = some (as_i64 upper)
num_bound none none = none

-- The `WHERE` clauses that are pushed when their value is there.
unfoldable pub within_bound : Option ℤ → BlockRow → Bool
within_bound none row = true
within_bound (some bound) row = leb_int (pos row.num) bound

unfoldable pub enough_extrinsics : Option ℕ → BlockRow → Bool
enough_extrinsics none row = true
enough_extrinsics (some min_count) row = leb_int (as_i32 min_count) row.extrinsic_count

-- The query, with its `LIMIT`.
unfoldable pub fetch : Option ℤ → Option ℕ → ℕ → List BlockRow → List BlockRow
fetch bound min_extrinsics limit table =
    take limit (keep (within_bound bound) (keep (enough_extrinsics min_extrinsics) table))

unfoldable pub next_cursor : ℕ → List BlockRow → Option Bytes
next_cursor count rows =
    if has_more count rows
    then elim (last (truncate count rows)) [
      | none ↦ none
      | some row ↦ some (to_string (record { block = row.num }))
    ]
    else none

unfoldable pub is_excluded : Option Bool → Bool
is_excluded none = false
is_excluded (some finalized) = bool_eq finalized false

-- `MAX(num)`, over rows in any order.
unfoldable pub indexed_head : List BlockRow → Option ℕ
indexed_head [] = none
indexed_head (row ∷ rows) = elim (indexed_head rows) [
  | none ↦ some row.num
  | some n ↦ some (max row.num n)
]

-- The row of a block number, of the point query.
unfoldable pub row_by_number : ℕ → List BlockRow → Option BlockRow
row_by_number num [] = none
row_by_number num (row ∷ rows) =
    if leb_int (pos row.num) (as_i64 num) && leb_int (as_i64 num) (pos row.num)
    then some row
    else row_by_number num rows

module _ (blake2b512 : Bytes → Bytes) (to_base58 : Bytes → Bytes) where
  -- The author's address and label.
  unfoldable pub author_names : ℕ → Option Bytes → Bytes × Bytes
  author_names ss58_prefix none = (codes "unknown", codes "unknown")
  author_names ss58_prefix (some bytes) =
      elim (encode_ss58_bytes blake2b512 to_base58 bytes ss58_prefix) [
        | none ↦ (codes "unknown", codes "unknown")
        | some ss58 ↦ (ss58, short_label ss58)
      ]

  unfoldable pub row_to_block : ℕ → BlockRow → Block
  row_to_block ss58_prefix row =
      let (author, author_name) = author_names ss58_prefix row.author in
      record {
        number = row.num;
        hash = hex_bytes row.hash;
        parent_hash = hex_bytes row.parent_hash;
        state_root = hex_bytes row.state_root;
        extrinsics_root = hex_bytes row.extrinsics_root;
        timestamp_ms = row.timestamp_ms;
        finalized = true;
        extrinsic_count = at_least_zero row.extrinsic_count;
        event_count = at_least_zero row.event_count;
        author = author;
        author_name = author_name;
        ref_time = at_least_zero row.ref_time;
        ref_time_pct = min (at_least_zero row.ref_time_pct) 100;
        proof_size = at_least_zero row.proof_size;
        spec_version = at_least_zero row.spec_version;
        size_bytes = at_least_zero row.size_bytes;
      }

  unfoldable pub block_by_number : List BlockRow → ℕ → ℕ → Option Block
  block_by_number table num ss58_prefix = elim (row_by_number num table) [
    | none ↦ none
    | some row ↦ some (row_to_block ss58_prefix row)
  ]

  unfoldable pub latest_blocks : List BlockRow → ℕ → Option ℕ → ℕ → List Block
  latest_blocks table count from ss58_prefix =
      if count == 0
      then []
      else map (row_to_block ss58_prefix) (
          take count
            (keep (within_bound (elim from [ none ↦ none | some n ↦ some (as_i64 n) ])) table))

  unfoldable pub rows_to_page : List BlockRow → ℕ → ℕ → Page Block
  rows_to_page rows count ss58_prefix = record {
    items = map (row_to_block ss58_prefix) (truncate count rows);
    page_info = record {
      total = none;
      next_cursor = next_cursor count rows;
      has_more = has_more count rows;
    };
  }

  unfoldable pub list_blocks_page_bounded :
      List BlockRow → ℕ → Option BlockCursor → Option ℕ → BlockFilters → ℕ → Page Block
  unfolding num_bound
  list_blocks_page_bounded table count cursor upper_bound filters ss58_prefix =
      if count == 0
      then empty_page
      else if is_excluded filters.finalized
      then empty_page
      else rows_to_page
          (fetch (num_bound cursor upper_bound) filters.min_extrinsics (min (count + 1) u32_max)
            table)
          count ss58_prefix

  unfoldable pub list_blocks_page :
      List BlockRow → PageRequest → BlockFilters → ℕ → Result DataError (Page Block)
  list_blocks_page table req filters ss58_prefix = do
    cursor ← parse_cursor from_str req
    ok (list_blocks_page_bounded table req.count cursor none filters ss58_prefix)
