-- ===== src/Common/Maps.antt =====
-- A hash map as the function that looks a key up.
use mathlib.Core.Path.{◌≡◌, refl}
use mathlib.Core.Bool.{Bool, true, false, ◌&&◌, ◌||◌}
use mathlib.Core.List.{[], ◌∷◌}
use mathlib.Core.Option.{Option, none, some}
use Prim.Native.Nat.{ℕ}
use native.Mathlib.Omega.{arith}
use allfeat_explorer.Common.Tests.{◌==◌, ltb, if◌then◌else◌}
use allfeat_explorer.Common.Lists.{Bytes}

pub record Eq (K : Type 0) : Type 0 where
  pub beq : K → K → Bool
  pub beq_sound : (a b : K) → beq a b ≡ true → a ≡ b
  pub beq_refl : (a : K) → beq a a ≡ true

abbrev pub HashMap : Type 0 → Type 0 → Type 0
HashMap K V = K → Option V

abbrev pub empty : {K V : Type 0} → HashMap K V
empty k = none

module _ {K V : Type 0} ⦃e : Eq K⦄ where
  abbrev pub insert : K → V → HashMap K V → HashMap K V
  insert k v m j = if e.beq k j then some v else m j

  abbrev pub remove : K → HashMap K V → HashMap K V
  remove k m j = if e.beq k j then none else m j

pub nat_beq_sound : (a b : ℕ) → (a == b) ≡ true → a ≡ b
nat_beq_sound a b h = ground arith

pub nat_beq_refl : (a : ℕ) → (a == a) ≡ true
nat_beq_refl a = ground arith

instance abbrev pub nat_eq : Eq ℕ
nat_eq = record { beq = ◌==◌; beq_sound = nat_beq_sound; beq_refl = nat_beq_refl }

abbrev pub bytes_beq : Bytes → Bytes → Bool
bytes_beq [] [] = true
bytes_beq [] (d ∷ t) = false
bytes_beq (c ∷ s) [] = false
bytes_beq (c ∷ s) (d ∷ t) = (c == d) && bytes_beq s t

pub bytes_beq_sound : (s t : Bytes) → bytes_beq s t ≡ true → s ≡ t
bytes_beq_sound [] [] h = refl
bytes_beq_sound [] (d ∷ t) h = cc
bytes_beq_sound (c ∷ s) [] h = cc
bytes_beq_sound (c ∷ s) (d ∷ t) h = ground (arith, bytes_beq_sound s t)

pub bytes_beq_refl : (s : Bytes) → bytes_beq s s ≡ true
bytes_beq_refl [] = refl
bytes_beq_refl (c ∷ s) = ground (arith, bytes_beq_refl s)

instance abbrev pub bytes_eq : Eq Bytes
bytes_eq = record { beq = bytes_beq; beq_sound = bytes_beq_sound; beq_refl = bytes_beq_refl }

-- Tuples of two keys, such as a block and an index.
abbrev pub pair_beq : ℕ × ℕ → ℕ × ℕ → Bool
pair_beq p q = (p.0 == q.0) && (p.1 == q.1)

pub pair_beq_sound : (p q : ℕ × ℕ) → pair_beq p q ≡ true → p ≡ q
pair_beq_sound p q h = ground arith

pub pair_beq_refl : (p : ℕ × ℕ) → pair_beq p p ≡ true
pair_beq_refl p = ground arith

instance abbrev pub pair_eq : Eq (ℕ × ℕ)
pair_eq = record { beq = pair_beq; beq_sound = pair_beq_sound; beq_refl = pair_beq_refl }

-- The order of tuples, the first key first.
abbrev pub pair_lt : ℕ × ℕ → ℕ × ℕ → Bool
pair_lt a b = ltb a.0 b.0 || ((a.0 == b.0) && ltb a.1 b.1)
