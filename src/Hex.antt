-- ===== src/Hex.antt =====
-- src/data/rpc/mappers/common.rs: `hex_bytes`.
use allfeat_explorer.Common.{
  ℕ, ◌+◌, ◌*◌, ◌-◌, ◌/◌, ◌%◌, ◌^◌, ◌<◌, ◌≡◌, refl, ap, ◌∙◌, [], ◌∷◌, Bytes, All, ltb, if◌then◌else◌,
  arith, length, Option, none, some,
}

-- `HEX[n]`, the table `0123456789abcdef`.
unfoldable pub hex_digit : ℕ → ℕ
hex_digit n = if ltb n 10 then b'0' + n else 87 + n

unfoldable pub hex_body : Bytes → Bytes
unfolding hex_digit
hex_body [] = []
hex_body (b ∷ bytes) = hex_digit (b / 2 ^ 4) ∷ hex_digit (b % 2 ^ 4) ∷ hex_body bytes

unfoldable pub hex_bytes : Bytes → Bytes
unfolding hex_body
hex_bytes bytes = b'0' ∷ b'x' ∷ hex_body bytes

-- The reader of lower-case hex text, after the usual description.
unfoldable pub digit_value : ℕ → ℕ
digit_value c = if ltb c 58 then c - b'0' else c - 87

unfoldable pub read_pairs : Bytes → Option Bytes
unfolding digit_value
read_pairs [] = some []
read_pairs (x ∷ []) = none
read_pairs (x ∷ y ∷ text) = elim (read_pairs text) [
  | none ↦ none
  | some bytes ↦ some ((digit_value x * 16 + digit_value y) ∷ bytes)
]

unfoldable pub read_hex : Bytes → Option Bytes
read_hex [] = none
read_hex (z ∷ []) = none
read_hex (z ∷ x ∷ text) = read_pairs text

digit_value-hex_digit : (n : ℕ) → n < 16 → digit_value (hex_digit n) ≡ n
unfolding digit_value hex_digit
digit_value-hex_digit n h = ground arith

joined : (b : ℕ) → b / 2 ^ 4 * 16 + b % 2 ^ 4 ≡ b
joined b = omega arith

read_pairs-cons :
    (x y : ℕ) (text bytes : Bytes)
    → read_pairs text ≡ some bytes
    → read_pairs (x ∷ y ∷ text) ≡ some ((digit_value x * 16 + digit_value y) ∷ bytes)
unfolding read_pairs
read_pairs-cons x y text bytes h = rw (h) refl

read_pairs-hex_body :
    (bytes : Bytes) → All (λ b. b < 256) bytes → read_pairs (hex_body bytes) ≡ some bytes
unfolding read_pairs hex_body
read_pairs-hex_body [] h = refl
read_pairs-hex_body (b ∷ bytes) (hb, h) =
    read_pairs-cons (hex_digit (b / 2 ^ 4)) (hex_digit (b % 2 ^ 4)) (hex_body bytes) bytes
      (read_pairs-hex_body bytes h)
    ∙ ap (λ n. some (n ∷ bytes))
        (ap (λ n. n * 16 + digit_value (hex_digit (b % 2 ^ 4)))
            (digit_value-hex_digit (b / 2 ^ 4) (omega arith))
          ∙ ap (λ n. b / 2 ^ 4 * 16 + n) (digit_value-hex_digit (b % 2 ^ 4) (omega arith))
          ∙ joined b)

length-hex_body : (bytes : Bytes) → length (hex_body bytes) ≡ 2 * length bytes
unfolding hex_body
length-hex_body [] = refl
length-hex_body (b ∷ bytes) = ground (arith, length-hex_body bytes)

-- Bytes are read back from their hex text, which is `0x` and two digits for each byte.
pub read_hex-hex_bytes :
    (bytes : Bytes)
    → All (λ b. b < 256) bytes
    → (read_hex (hex_bytes bytes) ≡ some bytes) × (length (hex_bytes bytes) ≡ 2 + 2 * length bytes)
unfolding hex_bytes read_hex
read_hex-hex_bytes bytes h = (read_pairs-hex_body bytes h, omega (arith, length-hex_body bytes))
