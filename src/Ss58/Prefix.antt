-- ===== src/Ss58/Prefix.antt =====
-- src/data/ss58.rs: the prefix bytes and the encoding of an account id. The `blake2` hash and the
-- `base58` text form are the parameters `blake2b512` and `to_base58`.
use Prim.Native.Nat.{bit_and, bit_or}
use allfeat_explorer.Common.{
  ℕ, zero, suc, ◌+◌, ◌-◌, ◌*◌, ◌/◌, ◌%◌, ◌^◌, ◌<◌, ◌≡◌, refl, Bool, true, ◌&&◌, Option, none, some,
  [], ◌∷◌, ◌++◌, Bytes, codes, length, take, ltb, leb, ◌==◌, if◌then◌else◌, arith, ltb→lt,
  Bool-cases, inl, inr,
}

abbrev pub checksum_prefix : Bytes
checksum_prefix = codes "SS58PRE"

abbrev pub checksum_len : ℕ
checksum_len = 2

-- The two bytes of a prefix from 64 on; a shift by `k` is a division or a product by `2 ^ k`, and
-- `as u8` a remainder.
unfoldable pub first_byte : ℕ → ℕ
first_byte p = bit_or (bit_and p 0x00fc / 2 ^ 2 % 256) 0x40

unfoldable pub second_byte : ℕ → ℕ
second_byte p = bit_or (p / 2 ^ 8 % 256) (bit_and p 0x0003 % 256 * 2 ^ 6 % 256)

unfoldable pub encode_prefix : ℕ → Bytes
encode_prefix prefix =
    if ltb prefix 64
    then prefix % 256 ∷ []
    else let p = bit_and prefix 0x3fff in first_byte p ∷ second_byte p ∷ []

module _ (blake2b512 : Bytes → Bytes) (to_base58 : Bytes → Bytes) where
  unfoldable pub encode_ss58 : Bytes → ℕ → Bytes
  unfolding encode_prefix
  encode_ss58 account_bytes prefix =
      let buf = encode_prefix prefix ++ account_bytes in
      let checksum = blake2b512 (checksum_prefix ++ buf) in
      to_base58 (buf ++ take checksum_len checksum)

  unfoldable pub encode_ss58_bytes : Bytes → ℕ → Option Bytes
  encode_ss58_bytes account_bytes prefix =
      if length account_bytes == 32 then some (encode_ss58 account_bytes prefix) else none

-- A test passes for each number below a limit.
every : (ℕ → Bool) → ℕ → Bool
every test zero = true
every test (suc limit) = every test limit && test limit

every-lt : (test : ℕ → Bool) (limit p : ℕ) → p < limit → every test limit ≡ true → test p ≡ true
unfolding every
every-lt test zero p below passed = absurd (omega arith)
every-lt test (suc limit) p below passed = ground (arith, every-lt test limit p)

-- The two bytes are bytes, the first one carries the two-byte mark `01`, and together they carry the
-- fourteen bits.
abbrev packs : ℕ → Bool
packs p =
    (bit_and p 0x3fff == p)
    && (leb 64 (first_byte p)
        && (ltb (first_byte p) 128
            && (ltb (second_byte p) 256
                && ((first_byte p - 64) * 4 % 256 + second_byte p / 64 + second_byte p % 64 * 256
                    == p))))

packs_table : every packs (2 ^ 14) ≡ true
unfolding every first_byte second_byte
packs_table = refl

-- The reader of a prefix, after the description of the SS58 format: below 64 the prefix is one byte;
-- from 64 to 127 the byte carries six bits of a prefix of fourteen bits, in two bytes.
unfoldable pub read_prefix : Bytes → Option (ℕ × Bytes)
read_prefix [] = none
read_prefix (a ∷ []) = if ltb a 64 then some (a, []) else none
read_prefix (a ∷ b ∷ rest) =
    if ltb a 64
    then some (a, b ∷ rest)
    else if ltb a 128
    then some ((a - 64) * 4 % 256 + b / 64 + b % 64 * 256, rest)
    else none

small_prefix : (p : ℕ) (rest : Bytes) → p < 64 → read_prefix (p ∷ rest) ≡ some (p, rest)
unfolding read_prefix
small_prefix p [] h = ground arith
small_prefix p (b ∷ rest) h = ground arith

large_prefix :
    (p : ℕ) (rest : Bytes)
    → packs p ≡ true
    → read_prefix (first_byte p ∷ second_byte p ∷ rest) ≡ some (p, rest)
unfolding read_prefix
large_prefix p rest h = ground arith

masked : (p : ℕ) → packs p ≡ true → bit_and p 0x3fff ≡ p
masked p h = ground arith

-- Every prefix below `2 ^ 14` is read back from the front of an address, whatever comes behind it. So
-- no two of them give the same bytes, and none is the beginning of another.
pub read_prefix-encode_prefix :
    (p : ℕ) (rest : Bytes) → p < 2 ^ 14 → read_prefix (encode_prefix p ++ rest) ≡ some (p, rest)
unfolding encode_prefix
read_prefix-encode_prefix p rest h =
    let fits = every-lt packs (2 ^ 14) p h packs_table in
    elim (Bool-cases (ltb p 64)) [
      | inl c ↦ ground (arith, small_prefix p rest (omega (arith, ltb→lt p 64 c)))
      | inr c ↦ ground (arith, masked p fits, large_prefix p rest fits)
    ]
