-- ===== src/Cursor/Event.antt =====
-- src/data/cursor.rs: the cursor of `/events`, `<block>-<phase>-<idx>`.
use allfeat_explorer.Common.{
  ℕ, ◌≤◌, ◌≡◌, ◌↔◌, refl, subst, Option, none, some, [], ◌∷◌, ◌++◌, ok, err, ok_or, ◌>>=◌, Bytes,
  String, arith, inl, inr, ◌==◌, if◌then◌else◌,
}
use allfeat_explorer.Decimal.{u64_max, u32_max, parse, display}
use allfeat_explorer.Decimal.RoundTrip.{parse-display}
use allfeat_explorer.Text.{splitn, Lacks, Numeral-Lacks}
use allfeat_explorer.Text.Three.{splitn_three, splitn_cases, display-Lacks}
use allfeat_explorer.Domain.{EventPhase}
use allfeat_explorer.Cursor.Defs.{
  Parsed, number, error, next, finish, Field, Field-of-parse, parse-of-Field,
}

pub data EventPhaseKind : Type 0 where
  initialization apply_extrinsic finalization : EventPhaseKind

unfoldable pub letter : EventPhaseKind → ℕ
letter initialization = b'I'
letter apply_extrinsic = b'A'
letter finalization = b'F'

unfoldable pub from_letter : ℕ → Option EventPhaseKind
from_letter c =
    if c == b'I'
    then some initialization
    else if c == b'A'
    then some apply_extrinsic
    else if c == b'F'
    then some finalization
    else none

-- `impl From<EventPhase> for EventPhaseKind`: the extrinsic's index is dropped.
unfoldable pub from_phase : EventPhase → EventPhaseKind
from_phase EventPhase.initialization = initialization
from_phase (EventPhase.apply_extrinsic index) = apply_extrinsic
from_phase EventPhase.finalization = finalization

pub record EventCursor : Type 0 where
  pub block : ℕ
  pub phase : EventPhaseKind
  pub index : ℕ

unfoldable pub to_string : EventCursor → Bytes
unfolding letter
to_string c = display c.block ++ b'-' ∷ ((letter c.phase ∷ []) ++ b'-' ∷ display c.index)

abbrev expected : String
expected = "<block>-<phase>-<idx> with phase in I|A|F"

-- `match p.chars().next()`: one character of one byte, which is a phase's letter.
unfoldable pub read_phase : Bytes → Bytes → Parsed EventPhaseKind
unfolding from_letter
read_phase whole [] = err (error whole expected)
read_phase whole (c ∷ []) = ok_or (from_letter c) (error whole expected)
read_phase whole (c ∷ d ∷ p) = err (error whole expected)

unfoldable pub from_str : Bytes → Parsed EventCursor
from_str s = do
  let parts = splitn 3 b'-' s
  (b, parts1) ← ok_or (next parts) (error s expected)
  (p, parts2) ← ok_or (next parts1) (error s expected)
  (i, parts3) ← ok_or (next parts2) (error s expected)
  end ← finish parts3 (error s expected)
  block ← number u64_max b s expected
  phase ← read_phase s p
  index ← number u32_max i s expected
  ok (record { block = block; phase = phase; index = index })

from_letter-letter : (k : EventPhaseKind) → from_letter (letter k) ≡ some k
unfolding from_letter letter
from_letter-letter initialization = refl
from_letter-letter apply_extrinsic = refl
from_letter-letter finalization = refl

read_phase-letter : (s : Bytes) (k : EventPhaseKind) → read_phase s (letter k ∷ []) ≡ ok k
unfolding read_phase letter
read_phase-letter s initialization = refl
read_phase-letter s apply_extrinsic = refl
read_phase-letter s finalization = refl

letter-Lacks : (k : EventPhaseKind) → Lacks b'-' (letter k ∷ [])
unfolding letter
letter-Lacks initialization = omega arith
letter-Lacks apply_extrinsic = omega arith
letter-Lacks finalization = omega arith

read_phase_sound : (s p : Bytes) (k : EventPhaseKind) → read_phase s p ≡ ok k → p ≡ letter k ∷ []
unfolding read_phase letter
read_phase_sound s [] k h = cc
read_phase_sound s (c ∷ []) k h = ground arith
read_phase_sound s (c ∷ d ∷ p) k h = cc

from_parts :
    (s b p i : Bytes) (c : EventCursor)
    → splitn 3 b'-' s ≡ b ∷ p ∷ i ∷ []
    → parse u64_max b ≡ some c.block
    → read_phase s p ≡ ok c.phase
    → parse u32_max i ≡ some c.index
    → from_str s ≡ ok c
unfolding from_str
from_parts s b p i c cut hb hp hi = rw (cut, hb, hp, hi)

-- Every cursor with a `u64` block and a `u32` index is read back from its text, its phase included.
pub event_round_trip :
    (c : EventCursor) → c.block ≤ u64_max → c.index ≤ u32_max → from_str (to_string c) ≡ ok c
unfolding to_string
event_round_trip c h k =
    from_parts (to_string c) (display c.block) (letter c.phase ∷ []) (display c.index) c
      (splitn_three b'-' (display c.block) (letter c.phase ∷ []) (display c.index)
        (display-Lacks c.block) (letter-Lacks c.phase))
      (parse-display u64_max c.block h h) (read_phase-letter _ c.phase)
      (parse-display u32_max c.index k (omega arith))

-- The texts of a cursor: a number, the phase's letter and a number, joined by dashes.
pub record Spells (s : Bytes) (c : EventCursor) : Type 0 where
  pub first : Bytes
  pub last : Bytes
  pub joined : s ≡ first ++ b'-' ∷ ((letter c.phase ∷ []) ++ b'-' ∷ last)
  pub block : Field u64_max first c.block
  pub index : Field u32_max last c.index

event_Spells : (s : Bytes) (c : EventCursor) → from_str s ≡ ok c → Spells s c
unfolding from_str
event_Spells s c h = elim (splitn_cases b'-' s) [
  | inl t ↦
      let phase : t.second ≡ letter c.phase ∷ [] =
        read_phase_sound s t.second c.phase (ground arith) in
      record {
        first = t.first;
        last = t.third;
        joined = subst (λ p. s ≡ t.first ++ b'-' ∷ (p ++ b'-' ∷ t.third)) phase t.joined;
        block = Field-of-parse u64_max t.first (ground arith);
        index = Field-of-parse u32_max t.third (ground arith);
      }
  | inr (inl e) ↦ absurd (ground arith)
  | inr (inr (a, b, e)) ↦ absurd (ground arith)
]

event_of_Spells : (s : Bytes) (c : EventCursor) → Spells s c → from_str s ≡ ok c
event_of_Spells s c k =
    from_parts s k.first (letter c.phase ∷ []) k.last c
      (rw k.joined (
        splitn_three b'-' k.first (letter c.phase ∷ []) k.last
          (Numeral-Lacks k.first k.block.numeral) (letter-Lacks c.phase)))
      (parse-of-Field u64_max k.first k.block) (read_phase-letter s c.phase)
      (parse-of-Field u32_max k.last k.index)

-- A text is read as a cursor exactly when it is a `u64`, one of the letters I, A and F, and a `u32`,
-- joined by dashes, and they are the cursor's fields.
pub event_from_str_iff : (s : Bytes) (c : EventCursor) → (from_str s ≡ ok c) ↔ Spells s c
event_from_str_iff s c = (event_Spells s c, event_of_Spells s c)
