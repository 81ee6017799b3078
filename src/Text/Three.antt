-- ===== src/Text/Three.antt =====
-- A text cut in at most three parts.
use allfeat_explorer.Decimal.{display}
use allfeat_explorer.Decimal.RoundTrip.{display-IsDigit}
use allfeat_explorer.Common.{ℕ, ◌≡◌, ◌⊎◌, inl, inr, [], ◌∷◌, ◌++◌, arith, Bytes, Option-cases}
use allfeat_explorer.Text.{
  splitn, split_once, split_once-append, split_once_sound, Lacks, digits-Lacks,
}

-- The last part may hold further separators.
pub splitn_three :
    (sep : ℕ) (a b c : Bytes)
    → Lacks sep a
    → Lacks sep b
    → splitn 3 sep (a ++ sep ∷ (b ++ sep ∷ c)) ≡ a ∷ b ∷ c ∷ []
unfolding splitn
splitn_three sep a b c ha hb =
    ground (arith, split_once-append sep a (b ++ sep ∷ c) ha, split_once-append sep b c hb)

pub record Three (sep : ℕ) (s : Bytes) : Type 0 where
  pub first : Bytes
  pub second : Bytes
  pub third : Bytes
  pub cut : splitn 3 sep s ≡ first ∷ second ∷ third ∷ []
  pub joined : s ≡ first ++ sep ∷ (second ++ sep ∷ third)

-- Either the text has three parts, which give it back, or fewer.
pub splitn_cases :
    (sep : ℕ) (s : Bytes)
    → Three sep s
      ⊎ (splitn 3 sep s ≡ s ∷ [])
      ⊎ ((a : Bytes) × (b : Bytes) × (splitn 3 sep s ≡ a ∷ b ∷ []))
unfolding splitn
splitn_cases sep s = elim (Option-cases (split_once sep s)) [
  | inl e ↦ inr (inl (rw (e, splitn)))
  | inr ((a, r), e) ↦ elim (Option-cases (split_once sep r)) [
    | inl e' ↦ inr (inr (a, r, rw (e, splitn, e')))
    | inr ((b, c), e') ↦ inl (record {
      first = a;
      second = b;
      third = c;
      cut = rw (e, splitn, e');
      joined = rw (← (split_once_sound sep r b c e').0) (split_once_sound sep s a r e).0;
    })
  ]
]

pub display-Lacks : (n : ℕ) → Lacks b'-' (display n)
display-Lacks n = digits-Lacks (display n) (display-IsDigit n)
