-- ===== src/Ss58/Label.antt =====
-- src/data/ss58.rs: the compact display label, over the characters of an address.
use allfeat_explorer.Common.{
  ℕ, false, ◌+◌, ◌≤◌, ◌≡◌, refl, ◌∙◌, List, [], ◌∷◌, ◌++◌, length, take, drop, leb, if◌then◌else◌,
  arith, length-append, sym, ap, reverse-append, reverse-reverse, append_assoc, ◌<◌, suc, zero,
  length-take, ◌⊎◌, inl, inr, Bool-cases, leb→le, take-append-drop, reverse,
}

-- The code point of `…`.
abbrev pub ellipsis : ℕ
ellipsis = 0x2026

unfoldable pub short_label : List ℕ → List ℕ
short_label ss58 =
    if leb (length ss58) 12
    then ss58
    else take 6 ss58 ++ (ellipsis ∷ reverse (take 4 (reverse ss58)))

take-within : (n : ℕ) (xs ys : List ℕ) → n ≤ length xs → take n (xs ++ ys) ≡ take n xs
take-within zero xs ys h = refl
take-within (suc n) [] ys h = absurd (omega arith)
take-within (suc n) (x ∷ xs) ys h = ap (◌∷◌ x) (take-within n xs ys (omega arith))

length-reverse : (xs : List ℕ) → length (reverse xs) ≡ length xs
length-reverse [] = refl
length-reverse (x ∷ xs) =
    rw (reverse-append (x ∷ []) xs, length-append (reverse xs) (x ∷ []))
      (omega (arith, length-reverse xs))

-- The last four characters, read from the end.
from_end : (s : List ℕ) → s ≡ reverse (drop 4 (reverse s)) ++ reverse (take 4 (reverse s))
from_end s =
    sym (reverse-reverse s)
    ∙ ap reverse (sym (take-append-drop 4 (reverse s)))
    ∙ reverse-append (take 4 (reverse s)) (drop 4 (reverse s))

leb_false→lt : (a b : ℕ) → leb a b ≡ false → b < a
leb_false→lt a b h = ground arith

length-from_end :
    (s : List ℕ) → length (reverse (drop 4 (reverse s))) + length (take 4 (reverse s)) ≡ length s
length-from_end s = rw (length-reverse (drop 4 (reverse s))) (
    omega (
      arith,
      ap length (take-append-drop 4 (reverse s)),
      length-append (take 4 (reverse s)) (drop 4 (reverse s)),
      length-reverse s,
    ))

length-tail : (s : List ℕ) → 12 < length s → length (take 4 (reverse s)) ≡ 4
length-tail s h = rw (length-take 4 (reverse s), length-reverse s) (ground arith)

-- An address of up to 12 characters is kept. A longer one loses what stands between its first six and
-- its last four characters, for one ellipsis, so a label has at most 12 characters.
pub short_label_cut :
    (s : List ℕ)
    → ((length s ≤ 12) × (short_label s ≡ s))
      ⊎ ((pre mid post : List ℕ) × (s ≡ pre ++ (mid ++ post))
          × (length pre ≡ 6)
          × (length post ≡ 4)
          × (short_label s ≡ pre ++ (ellipsis ∷ post)))
unfolding short_label
short_label_cut s = elim (Bool-cases (leb (length s) 12)) [
  | inl c ↦ inl (leb→le (length s) 12 c, ground arith)
  | inr c ↦
      let long = leb_false→lt (length s) 12 c in
      let front = reverse (drop 4 (reverse s)) in
      let post = reverse (take 4 (reverse s)) in
      let six = length-from_end s in
      inr (
        take 6 front,
        drop 6 front,
        post,
        from_end s
            ∙ ap (λ xs. xs ++ post) (sym (take-append-drop 6 front))
            ∙ append_assoc (take 6 front) (drop 6 front) post,
        length-take 6 front ∙ omega (arith, length-tail s long),
        length-reverse (take 4 (reverse s)) ∙ length-tail s long,
        ap (λ b. if b then s else take 6 s ++ (ellipsis ∷ post)) c
            ∙ ap (λ xs. xs ++ (ellipsis ∷ post))
                (ap (take 6) (from_end s)
                  ∙ take-within 6 front post (omega (arith, length-tail s long))),
      )
]
