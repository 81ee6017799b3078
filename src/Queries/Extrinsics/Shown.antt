-- ===== src/Queries/Extrinsics/Shown.antt =====
-- src/data/indexed/queries/extrinsics.rs and src/data/filters.rs: the rows that a page of extrinsics
-- shows, against the filters' in-memory predicate.
use allfeat_explorer.Common.{
  ℕ, ◌≡◌, refl, sym, ap, Bool, true, false, ◌&&◌, not, Option, none, some, List, Bytes, arith, ◌==◌,
  length,
}
use allfeat_explorer.Common.Integers.{ℤ, pos, eq_int, at_least_zero}
use allfeat_explorer.Domain.{CallResult, Extrinsic, success, failed}
use allfeat_explorer.Filters.{
  ExtrinsicFilters, admits, bool_eq, result_eq, extrinsic_matches_filters,
}
use allfeat_explorer.Ss58.Prefix.{encode_ss58_bytes}
use allfeat_explorer.Queries.Events.{EventRow}
use allfeat_explorer.Queries.Events.Hydrate.{with_own_events}
use allfeat_explorer.Queries.Extrinsics.{
  ExtrinsicRow, Codec, is_some, call_result, hides_inherent, is_inherent, filtered, shown_to,
  address_of, row_to_extrinsic, read_row,
}

-- A signer, when there is one, is an account id of 32 bytes.
abbrev pub HasAddress : Option Bytes → Type 0
HasAddress none = Unit {0}
HasAddress (some bytes) = length bytes ≡ 32

-- What a client asks for: the extrinsics that match the filters, without the unsigned first one of each
-- block unless the filters ask for unsigned ones or for the timestamp pallet.
abbrev pub is_visible : ExtrinsicFilters → Extrinsic → Bool
is_visible filters x =
    not (hides_inherent filters && ((x.index == 0) && not x.signed))
    && extrinsic_matches_filters x filters

first-index : (z : ℤ) → z ≡ pos (at_least_zero z) → eq_int z (pos 0) ≡ (at_least_zero z == 0)
unfolding eq_int
first-index z p = rw (ap (λ y. eq_int y (pos 0)) p) refl

call_result-eq :
    (ok : Bool) (status : CallResult)
    → bool_eq ok (result_eq status success) ≡ result_eq (call_result ok) status
call_result-eq true success = refl
call_result-eq true failed = refl
call_result-eq false success = refl
call_result-eq false failed = refl

status-admits :
    (ok : Bool) (status : Option CallResult)
    → admits (λ s. bool_eq ok (result_eq s success)) status
      ≡ admits (result_eq (call_result ok)) status
status-admits ok none = refl
status-admits ok (some s) = call_result-eq ok s

module _ (codec : Codec) (ss58_prefix : ℕ) where
  is_some-address_of :
      (signer : Option Bytes)
      → HasAddress signer
      → is_some (address_of codec ss58_prefix signer) ≡ is_some signer
  unfolding encode_ss58_bytes
  is_some-address_of none h = refl
  is_some-address_of (some bytes) h = rw (h) refl

  module _ (events : List EventRow) where
    -- A row's extrinsic, with the events of its own.
    abbrev pub shown : ExtrinsicRow → Extrinsic
    shown row =
        with_own_events codec.decode_event_fields events (row_to_extrinsic codec ss58_prefix row)

    pub read_row-shown : (row : ExtrinsicRow) → read_row codec ss58_prefix events row ≡ shown row
    unfolding read_row
    read_row-shown row = refl

    -- The query shows a row exactly when a client asks for the extrinsic that it becomes, by the filters'
    -- in-memory predicate and the rule for inherents. The row's signer, if any, has 32
    -- bytes, and its index is not negative.
    pub shown_to-is_visible :
        (filters : ExtrinsicFilters) (row : ExtrinsicRow)
        → HasAddress row.signer
        → row.idx ≡ pos (at_least_zero row.idx)
        → shown_to filters row ≡ is_visible filters (shown row)
    unfolding shown_to filtered row_to_extrinsic extrinsic_matches_filters is_inherent
    shown_to-is_visible filters row h p =
        rw
          (
            first-index row.idx p,
            is_some-address_of row.signer h,
            sym (status-admits row.success filters.status),
          )
          (ground arith)
