-- ===== src/Text.antt =====
-- The functions of Rust's `str` that the cursors and ids are taken apart by, over bytes. Separators
-- are ASCII, so that a match on bytes is a match on characters.
pub mod Three
use allfeat_explorer.Decimal.Parse.{Numeral}
use allfeat_explorer.Decimal.RoundTrip.{IsDigit}
use allfeat_explorer.Common.{
  ℕ, zero, suc, ◌≡◌, ◌≢◌, refl, inl, inr, true, false, Option, none, some, List, [], ◌∷◌, ◌++◌,
  arith, Bytes, All, ◌==◌,
}

-- The first part in front of `sep` and all that is behind it.
pub split_once : ℕ → Bytes → Option (Bytes × Bytes)
split_once sep [] = none
split_once sep (c ∷ s) = elim (c == sep) [
  | true ↦ some ([], s)
  | false ↦ elim (split_once sep s) [ none ↦ none | some (a, b) ↦ some (c ∷ a, b) ]
]

-- At most `n` parts, the last of which holds what is left.
unfoldable pub splitn : ℕ → ℕ → Bytes → List Bytes
splitn zero sep s = []
splitn (suc zero) sep s = s ∷ []
splitn (suc (suc n)) sep s = elim (split_once sep s) [
  | none ↦ s ∷ []
  | some (a, b) ↦ a ∷ splitn (suc n) sep b
]

abbrev pub Lacks : ℕ → Bytes → Type 0
Lacks sep = All (λ c. c ≢ sep)

pub split_once-append :
    (sep : ℕ) (a b : Bytes) → Lacks sep a → split_once sep (a ++ sep ∷ b) ≡ some (a, b)
unfolding split_once
split_once-append sep [] b h = ground arith
split_once-append sep (c ∷ a) b (hc, h) = ground (arith, split_once-append sep a b h)

pub split_once_sound :
    (sep : ℕ) (s a b : Bytes) → split_once sep s ≡ some (a, b) → (s ≡ a ++ sep ∷ b) × Lacks sep a
unfolding split_once
split_once_sound sep [] a b h = cc
split_once_sound sep (c ∷ s) [] b h = ground arith
split_once_sound sep (c ∷ s) (x ∷ a) b h = ground (arith, split_once_sound sep s a b)

pub split_once-Lacks : (sep : ℕ) (s : Bytes) → Lacks sep s → split_once sep s ≡ none
unfolding split_once
split_once-Lacks sep [] h = refl
split_once-Lacks sep (c ∷ s) (hc, h) = ground (arith, split_once-Lacks sep s h)

pub digits-Lacks : (s : Bytes) → All IsDigit s → Lacks b'-' s
digits-Lacks [] h = tt
digits-Lacks (c ∷ s) (hc, h) = ((λ e. omega arith), digits-Lacks s h)

-- No numeral holds the separator of the cursors.
pub Numeral-Lacks : (s : Bytes) {n : ℕ} → Numeral s n → Lacks b'-' s
Numeral-Lacks s k = elim k.sign [
  | inl e ↦ rw e (digits-Lacks k.body k.all_digits)
  | inr e ↦ rw e ((λ d. omega arith), digits-Lacks k.body k.all_digits)
]
