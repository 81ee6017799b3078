-- ===== src/Cursor/Ats.antt =====
-- src/data/cursor.rs: the cursor of `/ats` and `/accounts/{address}/ats`, `<id>`.
use allfeat_explorer.Common.{ℕ, ◌≤◌, ◌≡◌, ◌↔◌, ok, Bytes, arith, ◌>>=◌}
use allfeat_explorer.Decimal.{u32_max, display}
use allfeat_explorer.Decimal.RoundTrip.{parse-display}
use allfeat_explorer.Cursor.Defs.{Parsed, number, Field, Field-of-parse, parse-of-Field}

pub record AtsCursor : Type 0 where
  pub id : ℕ

unfoldable pub to_string : AtsCursor → Bytes
to_string c = display c.id

unfoldable pub from_str : Bytes → Parsed AtsCursor
from_str s = do id ← number u32_max s s "<id> (u32)"; ok (record { id = id })

-- Every cursor of the `u32` range is read back from its text.
pub ats_round_trip : (c : AtsCursor) → c.id ≤ u32_max → from_str (to_string c) ≡ ok c
unfolding from_str to_string
ats_round_trip c h = rw (parse-display u32_max c.id h (omega arith))

-- A text is an ATS cursor exactly when it spells a `u32`.
pub ats_from_str_iff : (s : Bytes) (c : AtsCursor) → (from_str s ≡ ok c) ↔ Field u32_max s c.id
unfolding from_str
ats_from_str_iff s c =
    ((λ h. Field-of-parse u32_max s (ground arith)), (λ f. rw (parse-of-Field u32_max s f)))
