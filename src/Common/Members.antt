-- ===== src/Common/Members.antt =====
-- Membership in lists whose items have distinct keys.
use allfeat_explorer.Common.Lists.{All, In, find, get_elem?}
use Prim.Native.Nat.{ℕ, zero, suc}
use mathlib.Core.Path.{◌≡◌, refl, sym, ◌∙◌, ap, subst}
use mathlib.Core.Bool.{Bool, true, false}
use mathlib.Core.Logic.{◌≢◌, ◌⊎◌, inl, inr}
use mathlib.Core.List.{List, [], ◌∷◌, ◌++◌, map}
use mathlib.Core.Option.{some}
use allfeat_explorer.Common.Tests.{Bool-cases}
use native.Mathlib.Omega.{arith}

module _ {A : Type 0} where
  pub All-In : (P : A → Type 0) (xs : List A) (a : A) → All P xs → In a xs → P a
  All-In P [] a h i = absurd i
  All-In P (x ∷ xs) a (p, h) (inl e) = subst P (sym e) p
  All-In P (x ∷ xs) a (p, h) (inr i) = All-In P xs a h i

  pub In-right : (a : A) (xs ys : List A) → In a ys → In a (xs ++ ys)
  In-right a [] ys i = i
  In-right a (x ∷ xs) ys i = inr (In-right a xs ys i)

  pub In-left : (a : A) (xs ys : List A) → In a xs → In a (xs ++ ys)
  In-left a [] ys i = absurd i
  In-left a (x ∷ xs) ys (inl e) = inl e
  In-left a (x ∷ xs) ys (inr i) = inr (In-left a xs ys i)

  pub In-get_elem? : (xs : List A) (k : ℕ) (a : A) → get_elem? xs k ≡ some a → In a xs
  In-get_elem? [] k a e = cc
  In-get_elem? (x ∷ xs) zero a e = inl (cc)
  In-get_elem? (x ∷ xs) (suc k) a e = inr (In-get_elem? xs k a e)

  pub find_sound :
      (p : A → Bool) (xs : List A) (a : A) → find p xs ≡ some a → In a xs × (p a ≡ true)
  find_sound p [] a e = cc
  find_sound p (x ∷ xs) a e = elim (Bool-cases (p x)) [
    | inl hit ↦
        let same : a ≡ x = ground arith in (inl same, subst (λ y. p y ≡ true) (sym same) hit)
    | inr miss ↦ let found = find_sound p xs a (ground arith) in (inr found.0, found.1)
  ]

  find_hit : (p : A → Bool) (x : A) (xs : List A) → p x ≡ true → find p (x ∷ xs) ≡ some x
  find_hit p x xs h = ground arith

  find_miss : (p : A → Bool) (x : A) (xs : List A) → p x ≡ false → find p (x ∷ xs) ≡ find p xs
  find_miss p x xs h = ground arith

  pub find_complete :
      (p : A → Bool) (xs : List A) (a : A) → In a xs → p a ≡ true → (b : A) × (find p xs ≡ some b)
  find_complete p [] a i h = absurd i
  find_complete p (x ∷ xs) a (inl e) h = (x, find_hit p x xs (subst (λ y. p y ≡ true) e h))
  find_complete p (x ∷ xs) a (inr i) h = elim (Bool-cases (p x)) [
    | inl hit ↦ (x, find_hit p x xs hit)
    | inr miss ↦ let later = find_complete p xs a i h in (later.0, find_miss p x xs miss ∙ later.1)
  ]

  module _ {K : Type 0} (key : A → K) where
    abbrev pub DistinctBy : List A → Type 0
    DistinctBy [] = Unit {0}
    DistinctBy (x ∷ xs) = All (λ y. key y ≢ key x) xs × DistinctBy xs

    pub DistinctBy-unique :
        (xs : List A) (a b : A) → DistinctBy xs → In a xs → In b xs → key a ≡ key b → a ≡ b
    DistinctBy-unique [] a b d i j e = absurd i
    DistinctBy-unique (x ∷ xs) a b (ne, d) (inl p) (inl q) e = p ∙ sym q
    DistinctBy-unique (x ∷ xs) a b (ne, d) (inl p) (inr j) e =
        absurd (All-In (λ y. key y ≢ key x) xs b ne j (sym e ∙ ap key p))
    DistinctBy-unique (x ∷ xs) a b (ne, d) (inr i) (inl q) e =
        absurd (All-In (λ y. key y ≢ key x) xs a ne i (e ∙ ap key q))
    DistinctBy-unique (x ∷ xs) a b (ne, d) (inr i) (inr j) e = DistinctBy-unique xs a b d i j e

module _ {A : Type 0} where
  pub In-append : (a : A) (xs ys : List A) → In a (xs ++ ys) → In a xs ⊎ In a ys
  In-append a [] ys i = inr i
  In-append a (x ∷ xs) ys (inl e) = inl (inl e)
  In-append a (x ∷ xs) ys (inr i) = elim (In-append a xs ys i) [
    | inl j ↦ inl (inr j)
    | inr j ↦ inr j
  ]

  pub All-of-In : {P : A → Type 0} (xs : List A) → ((x : A) → In x xs → P x) → All P xs
  All-of-In [] h = tt
  All-of-In (x ∷ xs) h = (h x (inl refl), All-of-In xs (λ y i. h y (inr i)))

module _ {A K : Type 0} (key : A → K) where
  pub In-map : (xs : List A) (a : A) → In a xs → In (key a) (map key xs)
  In-map [] a i = absurd i
  In-map (x ∷ xs) a (inl e) = inl (ap key e)
  In-map (x ∷ xs) a (inr i) = inr (In-map xs a i)

  All-differ :
      (x : A) (xs : List A) → All (λ y. key y ≢ key x) xs → All (λ k. k ≢ key x) (map key xs)
  All-differ x [] h = tt
  All-differ x (y ∷ ys) (n, h) = (n, All-differ x ys h)

  pub DistinctBy-map : (xs : List A) → DistinctBy key xs → DistinctBy (λ k. k) (map key xs)
  DistinctBy-map [] d = tt
  DistinctBy-map (x ∷ xs) (n, d) = (All-differ x xs n, DistinctBy-map xs d)

All-under :
    {A B K : Type 0} (f : A → B) (key : B → K) (x : A) (xs : List A)
    → All (λ y. key (f y) ≢ key (f x)) xs
    → All (λ b. key b ≢ key (f x)) (map f xs)
All-under f key x [] h = tt
All-under f key x (y ∷ ys) (n, h) = (n, All-under f key x ys h)

pub DistinctBy-under :
    {A B K : Type 0} (f : A → B) (key : B → K) (xs : List A)
    → DistinctBy (λ x. key (f x)) xs
    → DistinctBy key (map f xs)
DistinctBy-under f key [] d = tt
DistinctBy-under f key (x ∷ xs) (n, d) = (All-under f key x xs n, DistinctBy-under f key xs d)
