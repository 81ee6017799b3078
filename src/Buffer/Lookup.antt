-- ===== src/Buffer/Lookup.antt =====
-- Lookups by block and by hash in a buffer whose indexes fit its blocks.
use allfeat_explorer.Common.{
  ℕ, suc, ◌+◌, ◌≡◌, ◌≢◌, ◌⊎◌, inl, inr, refl, sym, ap, subst, true, Option, none, some, List, [],
  ◌∷◌, Bytes, ◌==◌, arith, Bool-cases, In, get_elem?,
}
use allfeat_explorer.Common.Maps.{
  HashMap, insert, nat_eq, bytes_eq, bytes_beq, bytes_beq_sound, bytes_beq_refl,
}
use allfeat_explorer.Domain.{Extrinsic}
use allfeat_explorer.Ss58.{decode_hex32}
use allfeat_explorer.Buffer.{BufferedBlock, positions, index_extrinsics, index_blocks, insert_some}

some_inj : {a b : Bytes} → some a ≡ some b → a ≡ b
some_inj h = cc

-- A position that the index gives is that of a block with the number.
pub positions_sound :
    (xs : List BufferedBlock) (i : ℕ) (m : HashMap ℕ ℕ) (n p : ℕ)
    → positions xs i m n ≡ some p
    → ((k : ℕ) × (b : BufferedBlock) × (p ≡ i + k) × (get_elem? xs k ≡ some b) × (b.number ≡ n))
      ⊎ (m n ≡ some p)
unfolding positions
positions_sound [] i m n p e = inr e
positions_sound (x ∷ xs) i m n p e = elim (positions_sound xs (suc i) (insert x.number i m) n p e) [
  | inl (k, b, at, got, num) ↦ inl (suc k, b, omega arith, got, num)
  | inr old ↦ elim (Bool-cases (x.number == n)) [
    | inl same ↦ inl (0, x, ground arith, refl, ground arith)
    | inr other ↦ inr (ground arith)
  ]
]

positions_some :
    (xs : List BufferedBlock) (i : ℕ) (m : HashMap ℕ ℕ) (n : ℕ)
    → m n ≢ none
    → positions xs i m n ≢ none
unfolding positions
positions_some [] i m n h = h
positions_some (x ∷ xs) i m n h =
    positions_some xs (suc i) (insert x.number i m) n (λ e. ground arith)

pub positions_complete :
    (xs : List BufferedBlock) (i : ℕ) (m : HashMap ℕ ℕ) (b : BufferedBlock)
    → In b xs
    → positions xs i m b.number ≢ none
unfolding positions
positions_complete [] i m b h = absurd h
positions_complete (x ∷ xs) i m b (inl e) =
    positions_some xs (suc i) (insert x.number i m) b.number (λ n. ground arith)
positions_complete (x ∷ xs) i m b (inr h) = positions_complete xs (suc i) (insert x.number i m) b h

module _ (d : Bytes → Option Bytes) where
  -- An extrinsic with the index and the hash, among a block's extrinsics.
  abbrev pub Hashed : Bytes → ℕ → List Extrinsic → Type 0
  Hashed h i xs = (x : Extrinsic) × In x xs × (x.index ≡ i) × (decode_hex32 d x.hash ≡ some h)

  insert_some_sound :
      (o : Option Bytes) (v : ℕ × ℕ) (m : HashMap Bytes (ℕ × ℕ)) (h : Bytes) (w : ℕ × ℕ)
      → insert_some o v m h ≡ some w
      → ((o ≡ some h) × (v ≡ w)) ⊎ (m h ≡ some w)
  unfolding insert_some
  insert_some_sound none v m h w e = inr e
  insert_some_sound (some k) v m h w e = elim (Bool-cases (bytes_beq k h)) [
    | inl same ↦ inl (ap (λ (t : Bytes). some t) (bytes_beq_sound k h same), ground arith)
    | inr other ↦ inr (ground arith)
  ]

  index_extrinsics_sound :
      (number : ℕ) (xs : List Extrinsic) (m : HashMap Bytes (ℕ × ℕ)) (h : Bytes) (n i : ℕ)
      → index_extrinsics d number xs m h ≡ some (n, i)
      → ((n ≡ number) × Hashed h i xs) ⊎ (m h ≡ some (n, i))
  unfolding index_extrinsics
  index_extrinsics_sound number [] m h n i e = inr e
  index_extrinsics_sound number (x ∷ xs) m h n i e =
      let m' = insert_some (decode_hex32 d x.hash) (number, x.index) m in
      elim (index_extrinsics_sound number xs m' h n i e) [
        | inl (num, found) ↦ inl (num, (found.0, inr found.1, found.2, found.3))
        | inr old ↦
            elim (insert_some_sound (decode_hex32 d x.hash) (number, x.index) m h (n, i) old) [
              | inl (dec, v) ↦
                  inl
                    (ap (λ (w : ℕ × ℕ). w.0) (sym v), (x, inl refl, ap (λ (w : ℕ × ℕ). w.1) v, dec))
              | inr older ↦ inr older
            ]
      ]

  -- What the hash index gives was entered for an extrinsic of a held block.
  pub index_blocks_sound :
      (xs : List BufferedBlock) (m : HashMap Bytes (ℕ × ℕ)) (h : Bytes) (n i : ℕ)
      → index_blocks d xs m h ≡ some (n, i)
      → ((b : BufferedBlock) × In b xs × (b.number ≡ n) × Hashed h i b.extrinsics)
        ⊎ (m h ≡ some (n, i))
  unfolding index_blocks
  index_blocks_sound [] m h n i e = inr e
  index_blocks_sound (x ∷ xs) m h n i e =
      elim (index_blocks_sound xs (index_extrinsics d x.number x.extrinsics m) h n i e) [
        | inl (b, held, num, found) ↦ inl (b, inr held, num, found)
        | inr old ↦ elim (index_extrinsics_sound x.number x.extrinsics m h n i old) [
          | inl (num, found) ↦ inl (x, inl refl, sym num, found)
          | inr older ↦ inr older
        ]
      ]

  insert_some_keeps :
      (o : Option Bytes) (v : ℕ × ℕ) (m : HashMap Bytes (ℕ × ℕ)) (h : Bytes)
      → m h ≢ none
      → insert_some o v m h ≢ none
  unfolding insert_some
  insert_some_keeps none v m h k = k
  insert_some_keeps (some j) v m h k = λ e. elim (Bool-cases (bytes_beq j h)) [
    | inl same ↦ absurd (ground arith)
    | inr other ↦ k (ground arith)
  ]

  insert_some_present :
      (o : Option Bytes) (v : ℕ × ℕ) (m : HashMap Bytes (ℕ × ℕ)) (h : Bytes)
      → o ≡ some h
      → insert_some o v m h ≢ none
  unfolding insert_some
  insert_some_present none v m h k = cc
  insert_some_present (some j) v m h k =
      let same : bytes_beq j h ≡ true =
        subst (λ t. bytes_beq j t ≡ true) (some_inj k) (bytes_beq_refl j) in
      λ e. ground arith

  index_extrinsics_keeps :
      (number : ℕ) (xs : List Extrinsic) (m : HashMap Bytes (ℕ × ℕ)) (h : Bytes)
      → m h ≢ none
      → index_extrinsics d number xs m h ≢ none
  unfolding index_extrinsics
  index_extrinsics_keeps number [] m h k = k
  index_extrinsics_keeps number (x ∷ xs) m h k =
      index_extrinsics_keeps number xs _ h
        (insert_some_keeps (decode_hex32 d x.hash) (number, x.index) m h k)

  index_extrinsics_present :
      (number : ℕ) (xs : List Extrinsic) (m : HashMap Bytes (ℕ × ℕ)) (h : Bytes) (x : Extrinsic)
      → In x xs
      → decode_hex32 d x.hash ≡ some h
      → index_extrinsics d number xs m h ≢ none
  unfolding index_extrinsics
  index_extrinsics_present number [] m h x i e = absurd i
  index_extrinsics_present number (y ∷ xs) m h x (inl p) e = index_extrinsics_keeps number xs _ h (
      insert_some_present (decode_hex32 d y.hash) (number, y.index) m h
        (subst (λ (z : Extrinsic). decode_hex32 d z.hash ≡ some h) p e))
  index_extrinsics_present number (y ∷ xs) m h x (inr i) e =
      index_extrinsics_present number xs _ h x i e

  index_blocks_keeps :
      (xs : List BufferedBlock) (m : HashMap Bytes (ℕ × ℕ)) (h : Bytes)
      → m h ≢ none
      → index_blocks d xs m h ≢ none
  unfolding index_blocks
  index_blocks_keeps [] m h k = k
  index_blocks_keeps (b ∷ xs) m h k =
      index_blocks_keeps xs _ h (index_extrinsics_keeps b.number b.extrinsics m h k)

  -- The hash of every extrinsic of a held block is in the index.
  pub index_blocks_present :
      (xs : List BufferedBlock) (m : HashMap Bytes (ℕ × ℕ)) (h : Bytes) (b : BufferedBlock)
      (x : Extrinsic)
      → In b xs
      → In x b.extrinsics
      → decode_hex32 d x.hash ≡ some h
      → index_blocks d xs m h ≢ none
  unfolding index_blocks
  index_blocks_present [] m h b x i j e = absurd i
  index_blocks_present (c ∷ xs) m h b x (inl p) j e = index_blocks_keeps xs _ h (
      index_extrinsics_present c.number c.extrinsics m h x
        (subst (λ (z : BufferedBlock). In x z.extrinsics) p j) e)
  index_blocks_present (c ∷ xs) m h b x (inr i) j e = index_blocks_present xs _ h b x i j e
