-- ===== src/Cursor/Defs.antt =====
-- src/data/cursor.rs: the parse error, and the steps that every cursor's `from_str` shares.
use allfeat_explorer.Common.{
  ℕ, ◌≤◌, ◌≡◌, Option, none, some, List, [], ◌∷◌, ◌++◌, String, Bytes, codes, Result, ok, err,
  ok_or,
}
use allfeat_explorer.Decimal.{parse}
use allfeat_explorer.Decimal.Parse.{Numeral, parse_sound, parse_complete}

pub record CursorParseError : Type 0 where
  pub input : Bytes
  pub expected : String

unfoldable pub parse_error_display : CursorParseError → Bytes
parse_error_display e =
    codes "invalid cursor '" ++ (e.input ++ (codes "': expected " ++ codes e.expected))

abbrev pub error : Bytes → String → CursorParseError
error input expected = record { input = input; expected = expected }

abbrev pub Parsed : Type 0 → Type 0
Parsed = Result CursorParseError

-- `s.parse::<uN>().map_err(|_| err(s, expected))`, where `whole` is the cursor's text.
abbrev pub number : ℕ → Bytes → Bytes → String → Parsed ℕ
number limit part whole expected = ok_or (parse limit part) (error whole expected)

-- `parts.next()`.
abbrev pub next : List Bytes → Option (Bytes × List Bytes)
next [] = none
next (p ∷ parts) = some (p, parts)

-- `if parts.next().is_some() { return Err(..) }`.
abbrev pub finish : List Bytes → CursorParseError → Parsed (Unit {0})
finish [] e = ok tt
finish (p ∷ parts) e = err e

-- A part of a cursor that spells a number within a field's range.
pub record Field (limit : ℕ) (part : Bytes) (n : ℕ) : Type 0 where
  pub numeral : Numeral part n
  pub within : n ≤ limit

pub Field-of-parse :
    (limit : ℕ) (part : Bytes) {n : ℕ} → parse limit part ≡ some n → Field limit part n
Field-of-parse limit part h =
    let (k, w) = parse_sound limit part h in record { numeral = k; within = w }

pub parse-of-Field :
    (limit : ℕ) (part : Bytes) {n : ℕ} → Field limit part n → parse limit part ≡ some n
parse-of-Field limit part {n} f = parse_complete limit part n f.numeral f.within
