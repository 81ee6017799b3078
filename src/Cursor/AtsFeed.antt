-- ===== src/Cursor/AtsFeed.antt =====
-- src/data/cursor.rs: the cursor of `/ats/feed`, `<block_num>-<ats_id>-<version>`.
use allfeat_explorer.Common.{
  ℕ, ◌≤◌, ◌≡◌, ◌↔◌, some, [], ◌∷◌, ◌++◌, ok, ok_or, ◌>>=◌, Bytes, String, arith, inl, inr,
}
use allfeat_explorer.Decimal.{u64_max, u32_max, parse, display}
use allfeat_explorer.Decimal.RoundTrip.{parse-display}
use allfeat_explorer.Text.{splitn, Numeral-Lacks}
use allfeat_explorer.Text.Three.{splitn_three, splitn_cases, display-Lacks}
use allfeat_explorer.Cursor.Defs.{
  Parsed, number, error, next, finish, Field, Field-of-parse, parse-of-Field,
}

pub record AtsFeedCursor : Type 0 where
  pub block_num : ℕ
  pub ats_id : ℕ
  pub version : ℕ

unfoldable pub to_string : AtsFeedCursor → Bytes
to_string c = display c.block_num ++ b'-' ∷ (display c.ats_id ++ b'-' ∷ display c.version)

abbrev expected : String
expected = "<block_num>-<ats_id>-<version>"

unfoldable pub from_str : Bytes → Parsed AtsFeedCursor
from_str s = do
  let parts = splitn 3 b'-' s
  (b, parts1) ← ok_or (next parts) (error s expected)
  (a, parts2) ← ok_or (next parts1) (error s expected)
  (v, parts3) ← ok_or (next parts2) (error s expected)
  end ← finish parts3 (error s expected)
  block_num ← number u64_max b s "<block_num>-<ats_id>-<version> (block_num must be u64)"
  ats_id ← number u32_max a s "<block_num>-<ats_id>-<version> (ats_id must be u32)"
  version ← number u32_max v s "<block_num>-<ats_id>-<version> (version must be u32)"
  ok (record { block_num = block_num; ats_id = ats_id; version = version })

-- The texts of a cursor: three numbers in range, joined by dashes.
pub record Spells (s : Bytes) (c : AtsFeedCursor) : Type 0 where
  pub first : Bytes
  pub second : Bytes
  pub third : Bytes
  pub joined : s ≡ first ++ b'-' ∷ (second ++ b'-' ∷ third)
  pub block_num : Field u64_max first c.block_num
  pub ats_id : Field u32_max second c.ats_id
  pub version : Field u32_max third c.version

from_parts :
    (s b a v : Bytes) (c : AtsFeedCursor)
    → splitn 3 b'-' s ≡ b ∷ a ∷ v ∷ []
    → parse u64_max b ≡ some c.block_num
    → parse u32_max a ≡ some c.ats_id
    → parse u32_max v ≡ some c.version
    → from_str s ≡ ok c
unfolding from_str
from_parts s b a v c cut p q r = rw (cut, p, q, r)

-- Every cursor with a `u64` block and a `u32` id and version is read back from its text.
pub feed_round_trip :
    (c : AtsFeedCursor)
    → c.block_num ≤ u64_max
    → c.ats_id ≤ u32_max
    → c.version ≤ u32_max
    → from_str (to_string c) ≡ ok c
unfolding to_string
feed_round_trip c h k l =
    from_parts (to_string c) (display c.block_num) (display c.ats_id) (display c.version) c
      (splitn_three b'-' (display c.block_num) (display c.ats_id) (display c.version)
        (display-Lacks c.block_num) (display-Lacks c.ats_id))
      (parse-display u64_max c.block_num h h) (parse-display u32_max c.ats_id k (omega arith))
      (parse-display u32_max c.version l (omega arith))

feed_Spells : (s : Bytes) (c : AtsFeedCursor) → from_str s ≡ ok c → Spells s c
unfolding from_str
feed_Spells s c h = elim (splitn_cases b'-' s) [
  | inl t ↦ record {
    first = t.first;
    second = t.second;
    third = t.third;
    joined = t.joined;
    block_num = Field-of-parse u64_max t.first (ground arith);
    ats_id = Field-of-parse u32_max t.second (ground arith);
    version = Field-of-parse u32_max t.third (ground arith);
  }
  | inr (inl e) ↦ absurd (ground arith)
  | inr (inr (a, b, e)) ↦ absurd (ground arith)
]

feed_of_Spells : (s : Bytes) (c : AtsFeedCursor) → Spells s c → from_str s ≡ ok c
feed_of_Spells s c k =
    from_parts s k.first k.second k.third c
      (rw k.joined (
        splitn_three b'-' k.first k.second k.third (Numeral-Lacks k.first k.block_num.numeral)
          (Numeral-Lacks k.second k.ats_id.numeral)))
      (parse-of-Field u64_max k.first k.block_num) (parse-of-Field u32_max k.second k.ats_id)
      (parse-of-Field u32_max k.third k.version)

-- A text is read as a cursor exactly when it is a `u64` and two `u32`s in decimal, joined by dashes,
-- and they are the cursor's fields.
pub feed_from_str_iff : (s : Bytes) (c : AtsFeedCursor) → (from_str s ≡ ok c) ↔ Spells s c
feed_from_str_iff s c = (feed_Spells s c, feed_of_Spells s c)
