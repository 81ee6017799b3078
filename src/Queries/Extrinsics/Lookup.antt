-- ===== src/Queries/Extrinsics/Lookup.antt =====
-- src/data/indexed/queries/extrinsics.rs: the classification of an extrinsic's id.

use allfeat_explorer.Common.{ℕ, ◌≤◌, ◌≡◌, ap, ap₂, ◌∙◌, Option, none, some, ◌∷◌, ◌++◌, Bytes, arith}
use allfeat_explorer.Decimal.{u64_max, u32_max, parse, display}
use allfeat_explorer.Decimal.RoundTrip.{parse-display, display-IsDigit}
use allfeat_explorer.Text.{split_once, split_once-append, digits-Lacks}
use allfeat_explorer.Ss58.{decode_hex32}

pub data ExtrinsicLookup : Type 0 where
  block_idx : ℕ → ℕ → ExtrinsicLookup
  hash : Bytes → ExtrinsicLookup

-- `if let (Ok(block), Ok(idx)) = ...`
abbrev pub both_parsed : Option ℕ → Option ℕ → Option ExtrinsicLookup
both_parsed none idx = none
both_parsed (some block) none = none
both_parsed (some block) (some idx) = some (block_idx block idx)

abbrev pub as_position : Option (Bytes × Bytes) → Option ExtrinsicLookup
as_position none = none
as_position (some (b, i)) = both_parsed (parse u64_max b) (parse u32_max i)

abbrev pub as_hash : Option Bytes → Option ExtrinsicLookup
as_hash none = none
as_hash (some h) = some (hash h)

abbrev pub or_else : Option ExtrinsicLookup → Option ExtrinsicLookup → Option ExtrinsicLookup
or_else none other = other
or_else (some lookup) other = some lookup

-- `hex::decode_to_slice` is the parameter `decode_to_slice`.
module _ (decode_to_slice : Bytes → Option Bytes) where
  unfoldable pub parse_lookup : Bytes → Option ExtrinsicLookup
  parse_lookup id =
      or_else (as_position (split_once b'-' id)) (as_hash (decode_hex32 decode_to_slice id))

  -- The id that a row is shown with is read back as the row's position.
  pub parse_lookup-id :
      (block idx : ℕ)
      → block ≤ u64_max
      → idx ≤ u32_max
      → parse_lookup (display block ++ b'-' ∷ display idx) ≡ some (block_idx block idx)
  unfolding parse_lookup
  parse_lookup-id block idx h k =
      let id = display block ++ b'-' ∷ display idx in
      let other = as_hash (decode_hex32 decode_to_slice id) in
      ap (λ o. or_else (as_position o) other)
        (split_once-append b'-' (display block) (display idx)
          (digits-Lacks (display block) (display-IsDigit block)))
      ∙ ap₂ (λ b i. or_else (both_parsed b i) other) (parse-display u64_max block h h)
          (parse-display u32_max idx k (omega arith))
