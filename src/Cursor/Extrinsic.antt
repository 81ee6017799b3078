-- ===== src/Cursor/Extrinsic.antt =====
-- src/data/cursor.rs: the cursor of `/extrinsics`, `<block>-<idx>`.
use allfeat_explorer.Common.{
  ℕ, ◌≤◌, ◌≡◌, ◌↔◌, some, ◌∷◌, ◌++◌, ok, ok_or, ◌>>=◌, Bytes, arith, Option-cases, inl, inr,
}
use allfeat_explorer.Decimal.{u64_max, u32_max, parse, display}
use allfeat_explorer.Decimal.RoundTrip.{parse-display, display-IsDigit}
use allfeat_explorer.Text.{
  split_once, split_once-append, split_once_sound, Numeral-Lacks, digits-Lacks,
}
use allfeat_explorer.Cursor.Defs.{Parsed, number, error, Field, Field-of-parse, parse-of-Field}

pub record ExtrinsicCursor : Type 0 where
  pub block : ℕ
  pub index : ℕ

unfoldable pub to_string : ExtrinsicCursor → Bytes
to_string c = display c.block ++ b'-' ∷ display c.index

unfoldable pub from_str : Bytes → Parsed ExtrinsicCursor
from_str s = do
  (b, i) ← ok_or (split_once b'-' s) (error s "<block>-<idx>")
  block ← number u64_max b s "<block>-<idx> (block must be u64)"
  index ← number u32_max i s "<block>-<idx> (idx must be u32)"
  ok (record { block = block; index = index })

from_parts :
    (s b i : Bytes) (c : ExtrinsicCursor)
    → split_once b'-' s ≡ some (b, i)
    → parse u64_max b ≡ some c.block
    → parse u32_max i ≡ some c.index
    → from_str s ≡ ok c
unfolding from_str
from_parts s b i c p q r = rw (p, q, r)

-- Every cursor with a `u64` block and a `u32` index is read back from its text.
pub extrinsic_round_trip :
    (c : ExtrinsicCursor) → c.block ≤ u64_max → c.index ≤ u32_max → from_str (to_string c) ≡ ok c
unfolding to_string
extrinsic_round_trip c h k =
    from_parts (to_string c) (display c.block) (display c.index) c
      (split_once-append b'-' (display c.block) (display c.index)
        (digits-Lacks (display c.block) (display-IsDigit c.block)))
      (parse-display u64_max c.block h h) (parse-display u32_max c.index k (omega arith))

-- The texts of a cursor: two numbers in range, joined by a dash.
pub record Spells (s : Bytes) (c : ExtrinsicCursor) : Type 0 where
  pub first : Bytes
  pub second : Bytes
  pub joined : s ≡ first ++ b'-' ∷ second
  pub block : Field u64_max first c.block
  pub index : Field u32_max second c.index

extrinsic_Spells : (s : Bytes) (c : ExtrinsicCursor) → from_str s ≡ ok c → Spells s c
unfolding from_str
extrinsic_Spells s c h = elim (Option-cases (split_once b'-' s)) [
  | inl e ↦ absurd (ground arith)
  | inr ((b, i), e) ↦ record {
    first = b;
    second = i;
    joined = (split_once_sound b'-' s b i e).0;
    block = Field-of-parse u64_max b (ground arith);
    index = Field-of-parse u32_max i (ground arith);
  }
]

extrinsic_of_Spells : (s : Bytes) (c : ExtrinsicCursor) → Spells s c → from_str s ≡ ok c
extrinsic_of_Spells s c k =
    from_parts s k.first k.second c
      (rw k.joined
        (split_once-append b'-' k.first k.second (Numeral-Lacks k.first k.block.numeral)))
      (parse-of-Field u64_max k.first k.block) (parse-of-Field u32_max k.second k.index)

-- A text is read as a cursor exactly when it is a `u64` and a `u32` in decimal, joined by a dash, and
-- they are the cursor's fields.
pub extrinsic_from_str_iff : (s : Bytes) (c : ExtrinsicCursor) → (from_str s ≡ ok c) ↔ Spells s c
extrinsic_from_str_iff s c = (extrinsic_Spells s c, extrinsic_of_Spells s c)
