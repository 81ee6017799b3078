-- ===== src/Decimal.antt =====
-- The decimal `Display` and `FromStr` of Rust's unsigned integers, which the cursors, the extrinsic
-- ids and the event ids are printed and read by. A text is the list of its bytes.
pub mod RoundTrip
pub mod Parse
use allfeat_explorer.Common.{
  ℕ, zero, suc, ◌+◌, ◌-◌, ◌*◌, ◌/◌, ◌%◌, ◌^◌, Option, none, some, [], ◌∷◌, ◌||◌, Bytes, ltb, leb,
  ◌==◌, if◌then◌else◌,
}

abbrev pub u64_max : ℕ
u64_max = 2 ^ 64 - 1

abbrev pub u32_max : ℕ
u32_max = 2 ^ 32 - 1

-- A `u64` has at most 20 decimal digits.
abbrev pub max_digits : ℕ
max_digits = 20

-- The digits of `n`, written in front of `out`, from the last to the first.
digits : ℕ → ℕ → Bytes → Bytes
digits zero n out = out
digits (suc k) n out =
    let rest = digits k (n / 10) ((b'0' + n % 10) ∷ out) in
    if ltb n 10 then (b'0' + n) ∷ out else rest

pub display : ℕ → Bytes
unfolding digits
display n = digits max_digits n []

-- The accumulating loop of `from_str_radix`: a byte that is no digit and a value above `limit` fail.
scan : ℕ → Bytes → ℕ → Option ℕ
scan limit [] acc = some acc
scan limit (c ∷ s) acc =
    let next = acc * 10 + (c - b'0') in
    let rest = scan limit s next in
    if ltb c b'0' || ltb b'9' c then none else if leb next limit then rest else none

-- An empty text and a lone sign fail; one leading `+` is skipped. A leading `-` is no digit.
scan_unsigned : ℕ → Bytes → Option ℕ
unfolding scan
scan_unsigned limit [] = none
scan_unsigned limit (c ∷ s) = scan limit (c ∷ s) 0

unfoldable pub parse : ℕ → Bytes → Option ℕ
unfolding scan_unsigned
parse limit [] = none
parse limit (c ∷ s) = if c == b'+' then scan_unsigned limit s else scan_unsigned limit (c ∷ s)
