-- ===== src/Cursor/Transfer.antt =====
-- src/data/cursor.rs: the cursor of `/transfers`, `<block>-<event_idx>`.
use allfeat_explorer.Common.{
  ℕ, ◌≤◌, ◌≡◌, ◌↔◌, some, ◌∷◌, ◌++◌, ok, ok_or, ◌>>=◌, Bytes, arith, Option-cases, inl, inr,
}
use allfeat_explorer.Decimal.{u64_max, u32_max, parse, display}
use allfeat_explorer.Decimal.RoundTrip.{parse-display, display-IsDigit}
use allfeat_explorer.Text.{
  split_once, split_once-append, split_once_sound, Numeral-Lacks, digits-Lacks,
}
use allfeat_explorer.Cursor.Defs.{Parsed, number, error, Field, Field-of-parse, parse-of-Field}

pub record TransferCursor : Type 0 where
  pub block : ℕ
  pub event_idx : ℕ

unfoldable pub to_string : TransferCursor → Bytes
to_string c = display c.block ++ b'-' ∷ display c.event_idx

unfoldable pub from_str : Bytes → Parsed TransferCursor
from_str s = do
  (b, i) ← ok_or (split_once b'-' s) (error s "<block>-<event_idx>")
  block ← number u64_max b s "<block>-<event_idx> (block must be u64)"
  event_idx ← number u32_max i s "<block>-<event_idx> (event_idx must be u32)"
  ok (record { block = block; event_idx = event_idx })

from_parts :
    (s b i : Bytes) (c : TransferCursor)
    → split_once b'-' s ≡ some (b, i)
    → parse u64_max b ≡ some c.block
    → parse u32_max i ≡ some c.event_idx
    → from_str s ≡ ok c
unfolding from_str
from_parts s b i c p q r = rw (p, q, r)

-- Every cursor with a `u64` block and a `u32` event index is read back from its text.
pub transfer_round_trip :
    (c : TransferCursor) → c.block ≤ u64_max → c.event_idx ≤ u32_max → from_str (to_string c) ≡ ok c
unfolding to_string
transfer_round_trip c h k =
    from_parts (to_string c) (display c.block) (display c.event_idx) c
      (split_once-append b'-' (display c.block) (display c.event_idx)
        (digits-Lacks (display c.block) (display-IsDigit c.block)))
      (parse-display u64_max c.block h h) (parse-display u32_max c.event_idx k (omega arith))

-- The texts of a cursor: two numbers in range, joined by a dash.
pub record Spells (s : Bytes) (c : TransferCursor) : Type 0 where
  pub first : Bytes
  pub second : Bytes
  pub joined : s ≡ first ++ b'-' ∷ second
  pub block : Field u64_max first c.block
  pub event_idx : Field u32_max second c.event_idx

transfer_Spells : (s : Bytes) (c : TransferCursor) → from_str s ≡ ok c → Spells s c
unfolding from_str
transfer_Spells s c h = elim (Option-cases (split_once b'-' s)) [
  | inl e ↦ absurd (ground arith)
  | inr ((b, i), e) ↦ record {
    first = b;
    second = i;
    joined = (split_once_sound b'-' s b i e).0;
    block = Field-of-parse u64_max b (ground arith);
    event_idx = Field-of-parse u32_max i (ground arith);
  }
]

transfer_of_Spells : (s : Bytes) (c : TransferCursor) → Spells s c → from_str s ≡ ok c
transfer_of_Spells s c k =
    from_parts s k.first k.second c
      (rw k.joined
        (split_once-append b'-' k.first k.second (Numeral-Lacks k.first k.block.numeral)))
      (parse-of-Field u64_max k.first k.block) (parse-of-Field u32_max k.second k.event_idx)

-- A text is read as a cursor exactly when it is a `u64` and a `u32` in decimal, joined by a dash, and
-- they are the cursor's fields.
pub transfer_from_str_iff : (s : Bytes) (c : TransferCursor) → (from_str s ≡ ok c) ↔ Spells s c
transfer_from_str_iff s c = (transfer_Spells s c, transfer_of_Spells s c)
