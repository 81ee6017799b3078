-- ===== src/Examples/Feeds.antt =====
-- The theorems on the pages of extrinsics and transfers, at concrete tables.
use allfeat_explorer.Common.{
  ℕ, ◌^◌, ◌<◌, ◌≡◌, ◌≢◌, refl, true, false, none, some, List, [], ◌∷◌, ◌++◌, map, Bytes, codes,
  arith, keep, ok, ap, All,
}
use allfeat_explorer.Domain.{Extrinsic, ExtrinsicArgs, raw}
use allfeat_explorer.Filters.{ExtrinsicFilters, TransferFilters}
use allfeat_explorer.Queries.Pager.{walk}
use allfeat_explorer.Queries.Events.{EventRow}
use allfeat_explorer.Queries.Events.Hydrate.{hydrate_events, hydrate_events-own, with_own_events}
use allfeat_explorer.Queries.Extrinsics.{ExtrinsicRow, Codec}
use allfeat_explorer.Queries.Extrinsics.Shown.{is_visible, shown}
use allfeat_explorer.Queries.Extrinsics.Paged as Placed
use allfeat_explorer.Queries.Extrinsics.Walk.{serve, extrinsics_complete}
use allfeat_explorer.Queries.Transfers.{
  TransferRow, to_transfers, is_negative, is_sent, parse_filter, parse_i128,
}
use allfeat_explorer.Queries.Transfers.Walk
use allfeat_explorer.Queries.Transfers.Probed.{IsReadable, IsPlaced, row_to_transfer-some}
use allfeat_explorer.Common.Integers.{pos, negsuc}
use allfeat_explorer.Decimal.{parse}
use allfeat_explorer.Ss58.Prefix.{encode_ss58, encode_ss58_bytes}

-- Stand-ins for the third-party functions and the decoders.
abbrev pub codec : Codec
codec = record {
  blake2b512 = λ bytes. bytes;
  to_base58 = λ bytes. bytes;
  decode_to_slice = λ text. none;
  decode_call_args = λ pallet call scale. raw scale;
  decode_event_fields = λ pallet variant scale. [];
}

abbrev eight : Bytes
eight = 1 ∷ 2 ∷ 3 ∷ 4 ∷ 5 ∷ 6 ∷ 7 ∷ 8 ∷ []

abbrev pub account : Bytes
account = eight ++ (eight ++ (eight ++ eight))

abbrev pub signed_row : ℕ → ℕ → ExtrinsicRow
signed_row block_num idx = record {
  block_num = pos block_num;
  idx = pos idx;
  hash = 7 ∷ [];
  pallet = codes "Balances";
  call = codes "transfer";
  signer = some account;
  tip = none;
  fee = codes "12";
  nonce = none;
  success = true;
  args_scale = [];
  timestamp_ms = 1000;
}

abbrev pub inherent_row : ℕ → ExtrinsicRow
inherent_row block_num = record (signed_row block_num 0) {
  pallet = codes "Timestamp";
  signer = none;
}

abbrev pub table : List ExtrinsicRow
table = signed_row 5 1 ∷ inherent_row 5 ∷ signed_row 4 1 ∷ []

abbrev event_row : ℕ → ℕ → EventRow
event_row block_num idx = record {
  block_num = pos block_num;
  phase_idx = some (pos idx);
  pallet = codes "System";
  variant = codes "ExtrinsicSuccess";
  data_scale = [];
}

abbrev pub events : List EventRow
events = event_row 5 0 ∷ event_row 5 1 ∷ event_row 4 1 ∷ []

abbrev pub all_filters : ExtrinsicFilters
all_filters = record { signed = none; pallet = none; call = none; status = none }

pub signed_row-IsPlaced :
    (block_num idx : ℕ)
    → block_num < 2 ^ 63
    → idx < 2 ^ 31
    → Placed.IsPlaced (signed_row block_num idx)
unfolding allfeat_explorer.Common.Integers.at_least_zero
signed_row-IsPlaced block_num idx h k = record {
  block = refl;
  index = refl;
  range = record { block = h; index = k };
}

inherent_row-IsPlaced :
    (block_num : ℕ) → block_num < 2 ^ 63 → Placed.IsPlaced (inherent_row block_num)
unfolding allfeat_explorer.Common.Integers.at_least_zero
inherent_row-IsPlaced block_num h = record {
  block = refl;
  index = refl;
  range = record { block = h; index = omega arith };
}

pub table-IsPlaced : All Placed.IsPlaced table
table-IsPlaced = (
  signed_row-IsPlaced 5 1 (omega arith) (omega arith),
  (
    inherent_row-IsPlaced 5 (omega arith),
    (signed_row-IsPlaced 4 1 (omega arith) (omega arith), tt),
  ),
)

extrinsics_complete_example :
    walk (serve codec 42 events table 2 all_filters) 4 none
    ≡ keep (is_visible all_filters) (map (shown codec 42 events) table)
unfolding allfeat_explorer.Common.Integers.at_least_zero
extrinsics_complete_example =
    extrinsics_complete codec 42 events table 2 all_filters 4 (omega arith) (tt, (tt, (tt, tt)))
      (refl, (tt, (refl, tt))) table-IsPlaced ((refl, (refl, tt)), ((refl, tt), (tt, tt)))
      (omega arith)

abbrev bare : ℕ → ℕ → Extrinsic
bare block idx = record {
  id = [];
  block_number = block;
  index = idx;
  hash = [];
  pallet = codes "Balances";
  call = codes "transfer";
  signed = true;
  signer = none;
  args = raw [];
  result = allfeat_explorer.Domain.CallResult.success;
  nonce = none;
  tip = 0;
  fee = 0;
  timestamp_ms = 1000;
  events = [];
}

abbrev pages_worth : List Extrinsic
pages_worth = bare 5 1 ∷ bare 4 1 ∷ []

hydrate_events-own_example :
    hydrate_events codec.decode_event_fields events pages_worth
    ≡ map (with_own_events codec.decode_event_fields events) pages_worth
hydrate_events-own_example =
    hydrate_events-own codec.decode_event_fields events pages_worth (tt, (tt, (tt, tt)))
      (
        record { no_events = refl; block_fits = omega arith; index_fits = omega arith },
        (record { no_events = refl; block_fits = omega arith; index_fits = omega arith }, tt),
      )
      (((λ e. omega (arith, ap (λ (p : ℕ × ℕ). p.0) e)), tt), (tt, tt))

abbrev transfer_row : ℕ → ℕ → TransferRow
transfer_row block_num event_idx = record {
  block_num = pos block_num;
  event_idx = pos event_idx;
  account = account;
  counterparty = some account;
  delta = codes "-250";
  phase_idx = some (pos 1);
  hash = 7 ∷ [];
  pallet = codes "Balances";
  call = codes "transfer";
  signer = some account;
  tip = none;
  fee = codes "12";
  nonce = none;
  success = true;
  args_scale = [];
  timestamp_ms = 1000;
}

-- The recipient's row of the same transfer.
abbrev received_row : ℕ → ℕ → TransferRow
received_row block_num event_idx = record (transfer_row block_num event_idx) { delta = codes "250" }

abbrev transfers : List TransferRow
transfers = transfer_row 5 3 ∷ received_row 5 3 ∷ received_row 4 9 ∷ transfer_row 4 9 ∷ []

abbrev no_filters : TransferFilters
no_filters = record { sender = none; recipient = none }

-- Stand-in for the parser of addresses.
abbrev parse_account : Bytes → allfeat_explorer.Common.Option Bytes
parse_account text = none

abbrev quoted : Bytes → Bytes
quoted text = text

readable : (block_num event_idx : ℕ) → IsReadable codec 42 (transfer_row block_num event_idx)
unfolding encode_ss58_bytes parse_i128 parse
readable block_num event_idx =
    row_to_transfer-some codec 42 (transfer_row block_num event_idx) (pos 1)
      (encode_ss58 codec.blake2b512 codec.to_base58 account 42)
      (encode_ss58 codec.blake2b512 codec.to_base58 account 42) (negsuc 249) refl refl refl refl

placed :
    (block_num event_idx : ℕ)
    → block_num < 2 ^ 63
    → event_idx < 2 ^ 31
    → IsPlaced (transfer_row block_num event_idx)
unfolding allfeat_explorer.Common.Integers.at_least_zero
placed block_num event_idx h k = record {
  block = refl;
  index = refl;
  range = record { block = h; index = k };
}

transfers_complete_example :
    walk (Walk.serve parse_account quoted codec 42 transfers 1 no_filters none none) 5 none
    ≡ to_transfers codec 42 (keep (is_sent none none) transfers)
unfolding parse_filter is_negative allfeat_explorer.Common.Integers.at_least_zero
transfers_complete_example =
    Walk.transfers_complete parse_account quoted codec 42 transfers 1 no_filters none none
      (omega arith) refl refl (readable 5 3, (readable 4 9, tt))
      (placed 5 3 (omega arith) (omega arith), (placed 4 9 (omega arith) (omega arith), tt))
      ((refl, tt), (tt, tt)) 5 (omega arith)
