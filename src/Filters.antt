-- ===== src/Filters.antt =====
-- src/data/filters.rs: the filters of the list endpoints and their in-memory predicates.
use allfeat_explorer.Common.{
  ℕ, Bool, true, false, Option, none, some, Bytes, ltb, if◌then◌else◌, not,
}
use allfeat_explorer.Common.Maps.{bytes_beq}
use allfeat_explorer.Domain.{Block, Extrinsic, Transfer, BlockEvent, CallResult, success, failed}

pub record BlockFilters : Type 0 where
  pub finalized : Option Bool
  pub min_extrinsics : Option ℕ

pub record ExtrinsicFilters : Type 0 where
  pub signed : Option Bool
  pub pallet : Option Bytes
  pub call : Option Bytes
  pub status : Option CallResult

pub record TransferFilters : Type 0 where
  pub sender : Option Bytes
  pub recipient : Option Bytes

pub record EventFilters : Type 0 where
  pub pallet : Option Bytes
  pub variant : Option Bytes

abbrev pub bool_eq : Bool → Bool → Bool
bool_eq true b = b
bool_eq false b = not b

abbrev pub result_eq : CallResult → CallResult → Bool
result_eq success success = true
result_eq success failed = false
result_eq failed success = false
result_eq failed failed = true

-- `if let Some(v) = filter { if field != v { return false; } }`
abbrev pub admits {ℓ} : {A : Type ℓ} → (A → Bool) → Option A → Bool
admits test none = true
admits test (some v) = test v

unfoldable pub block_matches_filters : Block → BlockFilters → Bool
block_matches_filters block filters =
    if not (admits (bool_eq block.finalized) filters.finalized)
    then false
    else if not (admits (λ min. not (ltb block.extrinsic_count min)) filters.min_extrinsics)
    then false
    else true

unfoldable pub extrinsic_matches_filters : Extrinsic → ExtrinsicFilters → Bool
extrinsic_matches_filters ext filters =
    if not (admits (bool_eq ext.signed) filters.signed)
    then false
    else if not (admits (bytes_beq ext.pallet) filters.pallet)
    then false
    else if not (admits (bytes_beq ext.call) filters.call)
    then false
    else if not (admits (result_eq ext.result) filters.status)
    then false
    else true

unfoldable pub transfer_matches_filters : Transfer → TransferFilters → Bool
transfer_matches_filters transfer filters =
    if not (admits (bytes_beq transfer.sender) filters.sender)
    then false
    else if not (admits (bytes_beq transfer.recipient) filters.recipient)
    then false
    else true

unfoldable pub event_matches_filters : BlockEvent → EventFilters → Bool
event_matches_filters event filters =
    if not (admits (bytes_beq event.pallet) filters.pallet)
    then false
    else if not (admits (bytes_beq event.name) filters.variant)
    then false
    else true
