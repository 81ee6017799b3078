-- ===== src/Queries/Transfers.antt =====
-- src/data/indexed/queries/transfers.rs: the list pages and the account history of transfers. The table
-- is the list of one network's rows of the query's join, of `kind = 0`, in the order of `(block_num
-- DESC, event_idx DESC)`; a transfer has two rows there, of one position and opposite signs. The parser of addresses and the quoted form of a text are parameters.
pub mod Probed
pub mod Walk
use allfeat_explorer.Common.{
  ℕ, zero, suc, ◌+◌, ◌-◌, ◌^◌, Bool, true, false, ◌&&◌, not, Option, none, some, List, [], ◌∷◌,
  ◌++◌, map, Bytes, codes, Result, ok, err, ◌>>=◌, ◌==◌, if◌then◌else◌, keep, take,
}
use allfeat_explorer.Common.Integers.{ℤ, pos, negsuc, as_i32, as_i64, at_least_zero, lt_row}
use allfeat_explorer.Common.Maps.{bytes_beq}
use allfeat_explorer.Decimal.{display, parse}
use allfeat_explorer.Domain.{Extrinsic, Page, PageInfo, PageRequest, Transfer, empty_page}
use allfeat_explorer.Errors.{DataError, bad_request}
use allfeat_explorer.Filters.{TransferFilters}
use allfeat_explorer.Cursor.Transfer.{TransferCursor, to_string, from_str}
use allfeat_explorer.Cursor.Request.{parse_cursor}
use allfeat_explorer.Ss58.Prefix.{encode_ss58_bytes}
use allfeat_explorer.Hex.{hex_bytes}
use allfeat_explorer.Queries.Keyset.{last, truncate, has_more}
use allfeat_explorer.Queries.Extrinsics.{
  Codec, address_of, is_some, tip_of, or_zero, call_result, nonce_of, u128_max, tuple_min,
}

-- `delta` is the text of the signed number; the other columns from `hash` on are the extrinsic's.
pub record TransferRow : Type 0 where
  pub block_num : ℤ
  pub event_idx : ℤ
  pub account : Bytes
  pub counterparty : Option Bytes
  pub delta : Bytes
  pub phase_idx : Option ℤ
  pub hash : Bytes
  pub pallet : Bytes
  pub call : Bytes
  pub signer : Option Bytes
  pub tip : Option Bytes
  pub fee : Bytes
  pub nonce : Option ℤ
  pub success : Bool
  pub args_scale : Bytes
  pub timestamp_ms : ℕ

-- The text of a negative number starts with a minus.
unfoldable pub is_negative : TransferRow → Bool
is_negative row = elim row.delta [ [] ↦ false | c ∷ s ↦ c == b'-' ]

negated : Option ℕ → Option ℤ
negated none = none
negated (some n) = some (elim n [ zero ↦ pos 0 | suc m ↦ negsuc m ])

unsigned : Option ℕ → Option ℤ
unsigned none = none
unsigned (some n) = some (pos n)

-- The digits behind a minus, where no other sign may stand.
magnitude : Bytes → Option ℕ
magnitude [] = none
magnitude (c ∷ s) = if c == b'+' then none else parse (2 ^ 127) (c ∷ s)

-- `i128::from_str`
unfoldable pub parse_i128 : Bytes → Option ℤ
unfolding negated unsigned magnitude
parse_i128 [] = none
parse_i128 (c ∷ s) =
    if c == b'-' then negated (magnitude s) else unsigned (parse (2 ^ 127 - 1) (c ∷ s))

abbrev pub unsigned_abs : ℤ → ℕ
unsigned_abs (pos n) = n
unsigned_abs (negsuc n) = suc n

abbrev pub is_below_zero : ℤ → Bool
is_below_zero (pos n) = false
is_below_zero (negsuc n) = true

unfoldable pub upper_of : Option TransferCursor → Option (ℕ × ℕ) → Option (ℕ × ℕ)
upper_of (some c) (some u) = some (tuple_min (c.block, c.event_idx) u)
upper_of (some c) none = some (c.block, c.event_idx)
upper_of none (some u) = some u
upper_of none none = none

unfoldable pub below_upper : Option (ℕ × ℕ) → TransferRow → Bool
below_upper none row = true
below_upper (some (block, event_idx)) row =
    lt_row row.block_num row.event_idx (as_i64 block) (as_i32 event_idx)

-- `m.account = $` and `m.counterparty = $`, where they are pushed; NULL equals nothing.
abbrev pub account_is : Option Bytes → TransferRow → Bool
account_is none row = true
account_is (some bytes) row = bytes_beq row.account bytes

abbrev pub counterparty_is : Option Bytes → TransferRow → Bool
counterparty_is none row = true
counterparty_is (some bytes) row = elim row.counterparty [
  | none ↦ false
  | some c ↦ bytes_beq c bytes
]

unfoldable pub is_sent : Option Bytes → Option Bytes → TransferRow → Bool
unfolding is_negative
is_sent from_bytes to_bytes row =
    is_negative row && (account_is from_bytes row && counterparty_is to_bytes row)

-- `row.0.max(0) as u64` and `row.1.max(0) as u32`
abbrev pub position : TransferRow → ℕ × ℕ
position row = (at_least_zero row.block_num, at_least_zero row.event_idx)

module _ (codec : Codec) (ss58_prefix : ℕ) where
  -- The extrinsic of a row, for its index.
  unfoldable pub row_extrinsic : TransferRow → ℕ → Extrinsic
  row_extrinsic row xt_index = record {
    id = display (at_least_zero row.block_num) ++ b'-' ∷ display xt_index;
    block_number = at_least_zero row.block_num;
    index = xt_index;
    hash = hex_bytes row.hash;
    pallet = row.pallet;
    call = row.call;
    signed = is_some (address_of codec ss58_prefix row.signer);
    signer = address_of codec ss58_prefix row.signer;
    args = codec.decode_call_args row.pallet row.call row.args_scale;
    result = call_result row.success;
    nonce = nonce_of row.nonce;
    tip = tip_of row.tip;
    fee = or_zero (parse u128_max row.fee);
    timestamp_ms = row.timestamp_ms;
    events = [];
  }

  -- The sender and the recipient by the sign of the delta.
  unfoldable pub directed : Extrinsic → Bytes → Bytes → ℤ → Transfer
  directed extrinsic account counterparty delta = record {
    extrinsic = extrinsic;
    sender = if is_below_zero delta then account else counterparty;
    recipient = if is_below_zero delta then counterparty else account;
    amount = unsigned_abs delta;
  }

  unfoldable pub row_to_transfer : TransferRow → Option Transfer
  unfolding row_extrinsic directed
  row_to_transfer row = elim row.phase_idx [
    | none ↦ none
    | some phase_idx ↦
        elim (encode_ss58_bytes codec.blake2b512 codec.to_base58 row.account ss58_prefix) [
          | none ↦ none
          | some account ↦ elim (address_of codec ss58_prefix row.counterparty) [
            | none ↦ none
            | some counterparty ↦ elim (parse_i128 row.delta) [
              | none ↦ none
              | some delta ↦ some (
                  directed (row_extrinsic row (at_least_zero phase_idx)) account counterparty delta)
            ]
          ]
        ]
  ]

  unfoldable pub to_transfers : List TransferRow → List Transfer
  to_transfers [] = []
  to_transfers (row ∷ rows) = elim (row_to_transfer row) [
    | none ↦ to_transfers rows
    | some t ↦ t ∷ to_transfers rows
  ]

  -- The transfers of a page's rows, each with its position.
  unfoldable pub probed : List TransferRow → List (Transfer × (ℕ × ℕ))
  probed [] = []
  probed (row ∷ rows) = elim (row_to_transfer row) [
    | none ↦ probed rows
    | some t ↦ (t, position row) ∷ probed rows
  ]

  unfoldable pub latest_transfers : List TransferRow → ℕ → List Transfer
  latest_transfers table count =
      if count == 0 then [] else to_transfers (take count (keep is_negative table))

  unfoldable pub account_transfer_history : List TransferRow → Bytes → ℕ → List Transfer
  account_transfer_history table account count =
      if count == 0
      then []
      else to_transfers (take count (keep (λ row. bytes_beq row.account account) table))

abbrev pub position_text : ℕ × ℕ → Bytes
position_text k = to_string (record { block = k.0; event_idx = k.1 })

unfoldable pub next_cursor : Bool → List (Transfer × (ℕ × ℕ)) → Option Bytes
next_cursor more rows =
    if more then elim (last rows) [ none ↦ none | some p ↦ some (position_text p.1) ] else none

-- The page that is cut from what the query gave, at most one more than `count`.
unfoldable pub page_of : ℕ → List (Transfer × (ℕ × ℕ)) → Page Transfer
unfolding next_cursor
page_of count rows =
    let shown = truncate count rows in
    record {
      items = map (λ (p : Transfer × (ℕ × ℕ)). p.0) shown;
      page_info = record {
        total = none;
        next_cursor = next_cursor (has_more count rows) shown;
        has_more = has_more count rows;
      };
    }

module _ (parse_account : Bytes → Option Bytes) (quoted : Bytes → Bytes) where
  unfoldable pub parse_ss58_filter : Bytes → Bytes → Result DataError Bytes
  parse_ss58_filter value field = elim (parse_account value) [
    | none ↦
        err (
          bad_request (codes "invalid SS58 address in " ++ (field ++ (codes ": " ++ quoted value))))
    | some bytes ↦ ok bytes
  ]

  unfoldable pub parse_filter : Option Bytes → Bytes → Result DataError (Option Bytes)
  parse_filter none field = ok none
  parse_filter (some s) field = do bytes ← parse_ss58_filter s field; ok (some bytes)

  module _ (codec : Codec) (ss58_prefix : ℕ) (table : List TransferRow) where
    unfoldable pub list_transfers_page_bounded :
        PageRequest → Option (ℕ × ℕ) → TransferFilters → Result DataError (Page Transfer)
    list_transfers_page_bounded req strict_upper filters =
        if req.count == 0 then ok empty_page else (do
          cursor ← parse_cursor from_str req
          from_bytes ← parse_filter filters.sender (codes "from")
          to_bytes ← parse_filter filters.recipient (codes "to")
          ok (
              page_of req.count (
                probed codec ss58_prefix (
                  take (req.count + 1) (
                    keep (below_upper (upper_of cursor strict_upper))
                      (keep (is_sent from_bytes to_bytes) table))))))

    unfoldable pub list_transfers_page :
        PageRequest → TransferFilters → Result DataError (Page Transfer)
    list_transfers_page req filters = list_transfers_page_bounded req none filters
