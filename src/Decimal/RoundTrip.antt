-- ===== src/Decimal/RoundTrip.antt =====
-- What is printed is read back, and holds digits alone.
use allfeat_explorer.Common.Loops.{div-lt-pow, exponent_pos}
use allfeat_explorer.Common.{
  ℕ, zero, suc, ◌+◌, ◌/◌, ◌%◌, ◌^◌, ◌≤◌, ◌<◌, ◌≡◌, ◌≢◌, refl, some, [], ◌∷◌, arith, Bytes, All,
}
use allfeat_explorer.Decimal.{u64_max, max_digits, digits, display, scan, parse}

abbrev pub IsDigit : ℕ → Type 0
IsDigit c = (b'0' ≤ c) × (c ≤ b'9')

digits-IsDigit : (k n : ℕ) (out : Bytes) → All IsDigit out → All IsDigit (digits k n out)
unfolding digits
digits-IsDigit zero n out h = h
digits-IsDigit (suc k) n out h =
    let d : IsDigit (b'0' + n % 10) = omega arith in
    ground (arith, digits-IsDigit k (n / 10) ((b'0' + n % 10) ∷ out) (d, h))

pub display-IsDigit : (n : ℕ) → All IsDigit (display n)
unfolding display
display-IsDigit n = digits-IsDigit max_digits n [] tt

digits-ne-nil : (k n : ℕ) (out : Bytes) → out ≢ [] → digits k n out ≢ []
unfolding digits
digits-ne-nil zero n out h = h
digits-ne-nil (suc k) n out h =
    ground (arith, digits-ne-nil k (n / 10) ((b'0' + n % 10) ∷ out) (λ e. cc))

pub display-ne-nil : (n : ℕ) → display n ≢ []
unfolding display digits
display-ne-nil n = ground (arith, digits-ne-nil 19 (n / 10) ((b'0' + n % 10) ∷ []) (λ e. cc))

-- Reading the printed digits comes to the same as starting behind them with the number.
scan-digits :
    (limit k n : ℕ) (out : Bytes)
    → n < 10 ^ k
    → 0 < k
    → n ≤ limit
    → scan limit (digits k n out) 0 ≡ scan limit out n
unfolding digits scan
scan-digits limit zero n out small pos fits = absurd (omega arith)
scan-digits limit (suc k) n out small pos fits = ground (
  arith,
  scan-digits limit k (n / 10) ((b'0' + n % 10) ∷ out),
  div-lt-pow k n small,
  exponent_pos k (n / 10),
)

parse_of_digits : (limit : ℕ) (s : Bytes) → s ≢ [] → All IsDigit s → parse limit s ≡ scan limit s 0
unfolding parse
parse_of_digits limit [] h d = absurd (h refl)
parse_of_digits limit (c ∷ s) h d = ground arith

-- A number within the type's limit, which is that of `u64` at most, is read back from its print.
pub parse-display : (limit n : ℕ) → n ≤ limit → n ≤ u64_max → parse limit (display n) ≡ some n
parse-display limit n fits small =
    rw (parse_of_digits limit (display n) (display-ne-nil n) (display-IsDigit n))
      (unfold display scan in scan-digits limit max_digits n [] (omega arith) (omega arith) fits)
