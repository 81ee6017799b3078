-- ===== src/Cursor/Block.antt =====
-- src/data/cursor.rs: the cursor of `/blocks`, `<block_num>`.
use allfeat_explorer.Common.{ℕ, ◌≤◌, ◌≡◌, ◌↔◌, ok, Bytes, arith, ◌>>=◌}
use allfeat_explorer.Decimal.{u64_max, display}
use allfeat_explorer.Decimal.RoundTrip.{parse-display}
use allfeat_explorer.Cursor.Defs.{Parsed, number, Field, Field-of-parse, parse-of-Field}

pub record BlockCursor : Type 0 where
  pub block : ℕ

unfoldable pub to_string : BlockCursor → Bytes
to_string c = display c.block

unfoldable pub from_str : Bytes → Parsed BlockCursor
from_str s = do block ← number u64_max s s "<block_num> (u64)"; ok (record { block = block })

-- Every cursor of the `u64` range is read back from its text.
pub block_round_trip : (c : BlockCursor) → c.block ≤ u64_max → from_str (to_string c) ≡ ok c
unfolding from_str to_string
block_round_trip c h = rw (parse-display u64_max c.block h h)

-- A text is a block cursor exactly when it spells a `u64`.
pub block_from_str_iff :
    (s : Bytes) (c : BlockCursor) → (from_str s ≡ ok c) ↔ Field u64_max s c.block
unfolding from_str
block_from_str_iff s c =
    ((λ h. Field-of-parse u64_max s (ground arith)), (λ f. rw (parse-of-Field u64_max s f)))
