-- ===== src/Backfill/ErrorText.antt =====
-- src/indexer/backfill.rs: `truncate_error`, over the bytes of the text.
use native.Mathlib.Decide.{dec_lt}
use allfeat_explorer.Common.{
  ℕ, zero, suc, ◌≤◌, ◌<◌, ◌≡◌, refl, Bool, true, false, ◌||◌, none, some, [], ◌∷◌, ◌++◌, arith,
  Bytes, length, take, get_elem?, length-append, length-take, ltb, leb, ◌==◌, if◌then◌else◌, ◌⊎◌,
  inl, inr, Bool-cases, leb→le,
}

abbrev pub last_error_cap : ℕ
last_error_cap = 2048

-- The bytes of `…`.
abbrev pub ellipsis : Bytes
ellipsis = 0xE2 ∷ 0x80 ∷ 0xA6 ∷ []

-- A byte that does not continue a character.
abbrev pub starts_char : ℕ → Bool
starts_char b = ltb b 0x80 || leb 0xC0 b

unfoldable pub is_char_boundary : Bytes → ℕ → Bool
is_char_boundary s zero = true
is_char_boundary s (suc i) = elim (get_elem? s (suc i)) [
  | none ↦ length s == suc i
  | some b ↦ starts_char b
]

-- `while !s.is_char_boundary(end) { end -= 1; }`
unfoldable pub floor_char_boundary : Bytes → ℕ → ℕ
floor_char_boundary s zero = zero
floor_char_boundary s (suc end) =
    let rest = floor_char_boundary s end in if is_char_boundary s (suc end) then suc end else rest

unfoldable pub truncate_error : Bytes → Bytes
truncate_error s =
    if leb (length s) last_error_cap
    then s
    else take (floor_char_boundary s last_error_cap) s ++ ellipsis

floor-le : (s : Bytes) (end : ℕ) → floor_char_boundary s end ≤ end
unfolding floor_char_boundary
floor-le s zero = omega arith
floor-le s (suc end) = ground (arith, floor-le s end)

floor-is_char_boundary :
    (s : Bytes) (end : ℕ) → is_char_boundary s (floor_char_boundary s end) ≡ true
unfolding floor_char_boundary
floor-is_char_boundary s zero = unfold is_char_boundary in refl
floor-is_char_boundary s (suc end) = ground (arith, floor-is_char_boundary s end)

-- No boundary at or below the end is passed over.
floor_greatest :
    (s : Bytes) (end i : ℕ) → i ≤ end → is_char_boundary s i ≡ true → i ≤ floor_char_boundary s end
unfolding floor_char_boundary
floor_greatest s zero i h b = h
floor_greatest s (suc end) i h b = elim (dec_lt end i) [
  | yes at ↦ let e : i ≡ suc end = omega arith in ground arith
  | no below ↦ ground (arith, floor_greatest s end i)
]

truncate_error_short : (s : Bytes) → leb (length s) last_error_cap ≡ true → truncate_error s ≡ s
unfolding truncate_error
truncate_error_short s h = ground arith

truncate_error_long :
    (s : Bytes)
    → leb (length s) last_error_cap ≡ false
    → truncate_error s ≡ take (floor_char_boundary s last_error_cap) s ++ ellipsis
unfolding truncate_error
truncate_error_long s h = ground arith

over_cap : (s : Bytes) → leb (length s) last_error_cap ≡ false → last_error_cap < length s
over_cap s h = ground arith

-- A text over the cap is cut at the last character boundary within the cap, with an ellipsis behind
-- it; a text up to the cap is kept. So at most 2051 bytes are stored.
pub truncate_error_cut :
    (s : Bytes)
    → ((length s ≤ last_error_cap) × (truncate_error s ≡ s))
      ⊎ ((end : ℕ) × (last_error_cap < length s)
          × (end ≤ last_error_cap)
          × (is_char_boundary s end ≡ true)
          × ((i : ℕ) → i ≤ last_error_cap → is_char_boundary s i ≡ true → i ≤ end)
          × (truncate_error s ≡ take end s ++ ellipsis)
          × (length (truncate_error s) ≤ 2051))
truncate_error_cut s = elim (Bool-cases (leb (length s) last_error_cap)) [
  | inl short ↦ inl (leb→le _ _ short, truncate_error_short s short)
  | inr long ↦
      let end = floor_char_boundary s last_error_cap in
      inr (
        end,
        over_cap s long,
        floor-le s last_error_cap,
        floor-is_char_boundary s last_error_cap,
        floor_greatest s last_error_cap,
        truncate_error_long s long,
        rw (truncate_error_long s long) (
            omega (
              arith,
              length-append (take end s) ellipsis,
              length-take end s,
              floor-le s last_error_cap,
            )),
      )
]
