-- ===== src/Decimal/Parse.antt =====
-- What `parse` accepts, and what it returns.
use native.Mathlib.Decide.{ℕ_discrete}
use allfeat_explorer.Decimal.RoundTrip.{IsDigit}
use allfeat_explorer.Common.{
  ℕ, ◌+◌, ◌-◌, ◌*◌, ◌≤◌, ◌≡◌, ◌≢◌, ◌⊎◌, inl, inr, refl, sym, ap, ◌∙◌, some, [], ◌∷◌, arith, Bytes,
  All,
}
use allfeat_explorer.Decimal.{scan, scan_unsigned, parse}

-- The number that digits spell behind `n`.
abbrev pub value : ℕ → Bytes → ℕ
value n [] = n
value n (c ∷ s) = value (n * 10 + (c - b'0')) s

-- The texts of a number: one digit or more, leading zeros allowed, behind at most one `+`.
pub record Numeral (s : Bytes) (n : ℕ) : Type 0 where
  pub body : Bytes
  pub sign : (s ≡ body) ⊎ (s ≡ b'+' ∷ body)
  pub some_digit : body ≢ []
  pub all_digits : All IsDigit body
  pub spells : value 0 body ≡ n

scan_sound :
    (limit : ℕ) (s : Bytes) (n r : ℕ)
    → n ≤ limit
    → scan limit s n ≡ some r
    → All IsDigit s × (value n s ≡ r) × (r ≤ limit)
unfolding scan
scan_sound limit [] n r fits h = ground arith
scan_sound limit (c ∷ s) n r fits h = ground (arith, scan_sound limit s (n * 10 + (c - b'0')) r)

value-ge : (n : ℕ) (digits : Bytes) → n ≤ value n digits
value-ge n [] = omega arith
value-ge n (d ∷ digits) = omega (arith, value-ge (n * 10 + (d - b'0')) digits)

scan_complete :
    (limit : ℕ) (s : Bytes) (n : ℕ)
    → All IsDigit s
    → value n s ≤ limit
    → scan limit s n ≡ some (value n s)
unfolding scan
scan_complete limit [] n d fits = refl
scan_complete limit (c ∷ s) n (dc, ds) fits =
    let m = n * 10 + (c - b'0') in ground (arith, scan_complete limit s m ds fits, value-ge m s)

scan_unsigned_sound :
    (limit : ℕ) (s : Bytes) (r : ℕ)
    → scan_unsigned limit s ≡ some r
    → (s ≢ []) × All IsDigit s × (value 0 s ≡ r) × (r ≤ limit)
unfolding scan_unsigned
scan_unsigned_sound limit [] r h = cc
scan_unsigned_sound limit (c ∷ s) r h =
    let (d, v, f) = scan_sound limit (c ∷ s) 0 r (omega arith) h in ((λ e. cc), d, v, f)

scan_unsigned_complete :
    (limit : ℕ) (s : Bytes)
    → s ≢ []
    → All IsDigit s
    → value 0 s ≤ limit
    → scan_unsigned limit s ≡ some (value 0 s)
unfolding scan_unsigned
scan_unsigned_complete limit [] h d f = absurd (h refl)
scan_unsigned_complete limit (c ∷ s) h d f = scan_complete limit (c ∷ s) 0 d f

parse_signed : (limit : ℕ) (s : Bytes) → parse limit (b'+' ∷ s) ≡ scan_unsigned limit s
unfolding parse
parse_signed limit s = refl

parse_unsigned :
    (limit c : ℕ) (s : Bytes) → c ≢ b'+' → parse limit (c ∷ s) ≡ scan_unsigned limit (c ∷ s)
unfolding parse
parse_unsigned limit c s h = ground arith

Numeral-of_scan :
    (limit n : ℕ) (s body : Bytes)
    → (s ≡ body) ⊎ (s ≡ b'+' ∷ body)
    → scan_unsigned limit body ≡ some n
    → Numeral s n × (n ≤ limit)
Numeral-of_scan limit n s body sign h =
    let (ne, d, v, f) = scan_unsigned_sound limit body n h in
    (record { body = body; sign = sign; some_digit = ne; all_digits = d; spells = v }, f)

-- An accepted text is a numeral of the result, which is within the limit.
pub parse_sound :
    (limit : ℕ) (s : Bytes) {n : ℕ} → parse limit s ≡ some n → Numeral s n × (n ≤ limit)
parse_sound limit [] h = unfold parse in cc
parse_sound limit (c ∷ s) {n} h = elim (ℕ_discrete c b'+') [
  | yes e ↦
      Numeral-of_scan limit n (c ∷ s) s (inr (ap (λ t. t ∷ s) e))
        (sym (parse_signed limit s) ∙ ap (λ t. parse limit (t ∷ s)) (sym e) ∙ h)
  | no ne ↦
      Numeral-of_scan limit n (c ∷ s) (c ∷ s) (inl refl) (sym (parse_unsigned limit c s ne) ∙ h)
]

parse_digits :
    (limit : ℕ) (s : Bytes) → s ≢ [] → All IsDigit s → parse limit s ≡ scan_unsigned limit s
parse_digits limit [] h d = absurd (h refl)
parse_digits limit (c ∷ s) h d = parse_unsigned limit c s (omega arith)

-- Every numeral of a number within the limit is accepted.
pub parse_complete :
    (limit : ℕ) (s : Bytes) (n : ℕ) → Numeral s n → n ≤ limit → parse limit s ≡ some n
parse_complete limit s n k fits =
    let run = scan_unsigned_complete limit k.body k.some_digit k.all_digits (omega arith) in
    let exact = ap (λ (m : ℕ). some m) k.spells in
    elim k.sign [
      | inl e ↦ rw e (parse_digits limit k.body k.some_digit k.all_digits ∙ run ∙ exact)
      | inr e ↦ rw e (parse_signed limit k.body ∙ run ∙ exact)
    ]
