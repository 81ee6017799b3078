-- ===== src/Queries/Extrinsics.antt =====
-- src/data/indexed/queries/extrinsics.rs: the list pages and the point queries of extrinsics. The table
-- is the list of one network's rows in the order of `(block_num DESC, idx DESC)`, which the queries
-- order by. The decoders of src/data/metadata.rs are parameters, for the network and its SS58 prefix.
pub mod Lookup
pub mod Shown
pub mod Paged
pub mod Walk
use allfeat_explorer.Common.{
  ℕ, ◌+◌, ◌-◌, ◌^◌, ◌≡◌, Bool, true, false, ◌&&◌, not, Option, none, some, List, [], ◌∷◌, ◌++◌, map,
  Bytes, codes, Result, ok, err, ◌>>=◌, ◌==◌, if◌then◌else◌, keep, take, reverse, length, find,
}
use allfeat_explorer.Common.Integers.{ℤ, pos, as_i32, as_i64, as_u32, at_least_zero, eq_int, lt_row}
use allfeat_explorer.Common.Maps.{bytes_beq}
use allfeat_explorer.Decimal.{display, parse}
use allfeat_explorer.Domain.{
  CallResult, EventField, Extrinsic, ExtrinsicArgs, Page, PageInfo, PageRequest, empty_page,
  success, failed,
}
use allfeat_explorer.Errors.{DataError}
use allfeat_explorer.Filters.{ExtrinsicFilters, admits, bool_eq, result_eq}
use allfeat_explorer.Cursor.Extrinsic.{ExtrinsicCursor, to_string, from_str}
use allfeat_explorer.Cursor.Request.{parse_cursor}
use allfeat_explorer.Ss58.Prefix.{encode_ss58_bytes}
use allfeat_explorer.Hex.{hex_bytes}
use allfeat_explorer.Queries.Keyset.{last, truncate, has_more}
use allfeat_explorer.Queries.Events.{EventRow, events_for_extrinsic}
use allfeat_explorer.Queries.Events.Hydrate.{hydrate_events}

pub record ExtrinsicRow : Type 0 where
  pub block_num : ℤ
  pub idx : ℤ
  pub hash : Bytes
  pub pallet : Bytes
  pub call : Bytes
  pub signer : Option Bytes
  pub tip : Option Bytes
  pub fee : Bytes
  pub nonce : Option ℤ
  pub success : Bool
  pub args_scale : Bytes
  pub timestamp_ms : ℕ

-- The hash and the text form behind an address, `hex::decode_to_slice`, and the decoders of SCALE bytes.
pub record Codec : Type 0 where
  pub blake2b512 : Bytes → Bytes
  pub to_base58 : Bytes → Bytes
  pub decode_to_slice : Bytes → Option Bytes
  pub decode_call_args : Bytes → Bytes → Bytes → ExtrinsicArgs
  pub decode_event_fields : Bytes → Bytes → Bytes → List EventField

abbrev pub u128_max : ℕ
u128_max = 2 ^ 128 - 1

abbrev pub or_zero : Option ℕ → ℕ
or_zero none = 0
or_zero (some n) = n

-- `tip_text.and_then(|s| s.parse().ok()).unwrap_or(0)`
abbrev pub tip_of : Option Bytes → ℕ
tip_of none = 0
tip_of (some text) = or_zero (parse u128_max text)

abbrev pub is_some : {A : Type 0} → Option A → Bool
is_some none = false
is_some (some a) = true

abbrev pub call_result : Bool → CallResult
call_result true = success
call_result false = failed

-- The nonce of a row, cast.
abbrev pub nonce_of : Option ℤ → Option ℕ
nonce_of none = none
nonce_of (some n) = some (as_u32 n)

-- `hide_timestamp_inherent`
unfoldable pub hides_inherent : ExtrinsicFilters → Bool
hides_inherent filters =
    not (elim filters.signed [ none ↦ false | some signed ↦ bool_eq signed false ])
    && not
        (elim filters.pallet [ none ↦ false | some pallet ↦ bytes_beq pallet (codes "Timestamp") ])

-- `e.idx = 0 AND e.signer IS NULL`
unfoldable pub is_inherent : ExtrinsicRow → Bool
is_inherent row = eq_int row.idx (pos 0) && not (is_some row.signer)

-- The tighter of the cursor and the upper bound, both of which are exclusive.
abbrev pub tuple_min : ℕ × ℕ → ℕ × ℕ → ℕ × ℕ
tuple_min a b = if lt_row (pos b.0) (pos b.1) (pos a.0) (pos a.1) then b else a

unfoldable pub upper_of : Option ExtrinsicCursor → Option (ℕ × ℕ) → Option (ℕ × ℕ)
upper_of (some c) (some u) = some (tuple_min (c.block, c.index) u)
upper_of (some c) none = some (c.block, c.index)
upper_of none (some u) = some u
upper_of none none = none

unfoldable pub below_upper : Option (ℕ × ℕ) → ExtrinsicRow → Bool
below_upper none row = true
below_upper (some (block, idx)) row = lt_row row.block_num row.idx (as_i64 block) (as_i32 idx)

-- The predicates that the filters push.
unfoldable pub filtered : ExtrinsicFilters → ExtrinsicRow → Bool
filtered filters row =
    admits (bool_eq (is_some row.signer)) filters.signed
    && (admits (bytes_beq row.pallet) filters.pallet
        && (admits (bytes_beq row.call) filters.call
            && admits (λ status. bool_eq row.success (result_eq status success)) filters.status))

unfoldable pub shown_to : ExtrinsicFilters → ExtrinsicRow → Bool
shown_to filters row = not (hides_inherent filters && is_inherent row) && filtered filters row

unfoldable pub select_page :
    Option (ℕ × ℕ) → ExtrinsicFilters → ℕ → List ExtrinsicRow → List ExtrinsicRow
select_page upper filters limit table =
    take limit (keep (below_upper upper) (keep (shown_to filters) table))

-- `e.block_num = $b AND e.idx = $i`
unfoldable pub at_position : ℕ → ℕ → ExtrinsicRow → Bool
at_position block idx row = eq_int row.block_num (as_i64 block) && eq_int row.idx (as_i32 idx)

unfoldable pub in_block : ℕ → ExtrinsicRow → Bool
in_block block row = eq_int row.block_num (as_i64 block)

abbrev pub cursor_of : Extrinsic → Bytes
cursor_of e = to_string (record { block = e.block_number; index = e.index })

unfoldable pub next_cursor : Bool → List Extrinsic → Option Bytes
next_cursor more items =
    if more then elim (last items) [ none ↦ none | some e ↦ some (cursor_of e) ] else none

module _ (codec : Codec) (ss58_prefix : ℕ) where
  abbrev pub address_of : Option Bytes → Option Bytes
  address_of none = none
  address_of (some bytes) = encode_ss58_bytes codec.blake2b512 codec.to_base58 bytes ss58_prefix

  unfoldable pub row_to_extrinsic : ExtrinsicRow → Extrinsic
  row_to_extrinsic row = record {
    id = display (at_least_zero row.block_num) ++ b'-' ∷ display (at_least_zero row.idx);
    block_number = at_least_zero row.block_num;
    index = at_least_zero row.idx;
    hash = hex_bytes row.hash;
    pallet = row.pallet;
    call = row.call;
    signed = is_some (address_of row.signer);
    signer = address_of row.signer;
    args = codec.decode_call_args row.pallet row.call row.args_scale;
    result = call_result row.success;
    nonce = nonce_of row.nonce;
    tip = tip_of row.tip;
    fee = or_zero (parse u128_max row.fee);
    timestamp_ms = row.timestamp_ms;
    events = [];
  }

  module _ (events : List EventRow) where
    -- Items with their events filled in.
    abbrev pub hydrated : List Extrinsic → List Extrinsic
    hydrated items = hydrate_events codec.decode_event_fields events items

    -- The page of the rows that the query gives, at most one more than `count`.
    unfoldable pub page_of : ℕ → List ExtrinsicRow → Page Extrinsic
    page_of count rows =
        let read = map row_to_extrinsic rows in
        let items = hydrated (truncate count read) in
        record {
          items = items;
          page_info = record {
            total = none;
            next_cursor = next_cursor (has_more count read) items;
            has_more = has_more count read;
          };
        }

    -- A row found, with its events.
    unfoldable pub read_row : ExtrinsicRow → Extrinsic
    read_row row =
        let ext = row_to_extrinsic row in
        record ext {
          events = events_for_extrinsic codec.decode_event_fields events ext.block_number ext.index;
        }

    abbrev pub read_found : Option ExtrinsicRow → Option Extrinsic
    read_found none = none
    read_found (some row) = some (read_row row)

    module _ (table : List ExtrinsicRow) where
      unfoldable pub extrinsics_in_block : ℕ → List Extrinsic
      extrinsics_in_block block_num =
          hydrated (map row_to_extrinsic (reverse (keep (in_block block_num) table)))

      unfoldable pub latest_extrinsics : ℕ → List Extrinsic
      latest_extrinsics count =
          if count == 0
          then []
          else hydrated
              (map row_to_extrinsic (take count (keep (λ row. not (is_inherent row)) table)))

      unfoldable pub list_extrinsics_page_bounded :
          PageRequest → Option (ℕ × ℕ) → ExtrinsicFilters → Result DataError (Page Extrinsic)
      list_extrinsics_page_bounded req strict_upper filters =
          if req.count == 0 then ok empty_page else (do
            cursor ← parse_cursor from_str req
            ok (
                page_of req.count
                  (select_page (upper_of cursor strict_upper) filters (req.count + 1) table)))

      unfoldable pub list_extrinsics_page :
          PageRequest → ExtrinsicFilters → Result DataError (Page Extrinsic)
      list_extrinsics_page req filters = list_extrinsics_page_bounded req none filters

      unfoldable pub extrinsic_by_block_idx : ℕ → ℕ → Option Extrinsic
      extrinsic_by_block_idx block_num idx = read_found (find (at_position block_num idx) table)

      unfoldable pub extrinsic_by_hash : Bytes → Option Extrinsic
      extrinsic_by_hash hash =
          if length hash == 32
          then read_found (find (λ row. bytes_beq row.hash hash) table)
          else none
