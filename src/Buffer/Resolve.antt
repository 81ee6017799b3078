-- ===== src/Buffer/Resolve.antt =====
-- What the two lookups answer, for a buffer with one block for each number.
use allfeat_explorer.Common.{
  ℕ, ◌≡◌, inl, inr, sym, ap, subst, ◌∙◌, Option, some, List, Bytes, ◌==◌, arith, Option-cases,
  ==→eq, ==_refl, All, In, find, get_elem?,
}
use allfeat_explorer.Common.Maps.{empty}
use allfeat_explorer.Common.Members.{
  DistinctBy, DistinctBy-unique, In-get_elem?, find_sound, find_complete, All-In,
}
use allfeat_explorer.Domain.{Extrinsic}
use allfeat_explorer.Ss58.{decode_hex32}
use allfeat_explorer.Buffer.{
  BufferedBlock, PendingBuffer, positions, extrinsic_by_block_idx, extrinsic_by_hash,
}
use allfeat_explorer.Buffer.Indexes.{IsIndexed}
use allfeat_explorer.Buffer.Lookup.{
  positions_sound, positions_complete, index_blocks_sound, index_blocks_present,
}

some_inj : {a b : Extrinsic} → some a ≡ some b → a ≡ b
some_inj h = cc

-- No two held blocks have one number, and no two extrinsics of a block one index.
pub record IsUnforked (b : PendingBuffer) : Type 0 where
  pub numbers : DistinctBy (λ (k : BufferedBlock). k.number) b.blocks
  pub indices :
      All (λ (k : BufferedBlock). DistinctBy (λ (x : Extrinsic). x.index) k.extrinsics) b.blocks

position_of :
    (xs : List BufferedBlock) (k : BufferedBlock)
    → DistinctBy (λ (k : BufferedBlock). k.number) xs
    → In k xs
    → (p : ℕ) × (positions xs 0 empty k.number ≡ some p) × (get_elem? xs p ≡ some k)
position_of xs k u i = elim (Option-cases (positions xs 0 empty k.number)) [
  | inl n ↦ absurd (positions_complete xs 0 empty k i n)
  | inr (p, e) ↦ elim (positions_sound xs 0 empty k.number p e) [
    | inl (j, c, at, got, num) ↦
        let same : c ≡ k =
          DistinctBy-unique (λ (k : BufferedBlock). k.number) xs c k u (In-get_elem? xs j c got) i
            num in
        let here : p ≡ j = omega arith in
        (
          p,
          e,
          subst (λ q. get_elem? xs q ≡ some k) (sym here)
              (subst (λ (z : BufferedBlock). get_elem? xs j ≡ some z) same got),
        )
    | inr old ↦ absurd (cc)
  ]
]

by_block_idx_at :
    (b : PendingBuffer) (n i p : ℕ) (k : BufferedBlock)
    → b.by_number n ≡ some p
    → get_elem? b.blocks p ≡ some k
    → extrinsic_by_block_idx b n i ≡ find (λ (x : Extrinsic). x.index == i) k.extrinsics
unfolding extrinsic_by_block_idx
by_block_idx_at b n i p k e f = rw (e, f)

module _ (d : Bytes → Option Bytes) (b : PendingBuffer) (v : IsIndexed d b) (u : IsUnforked b) where
  -- The lookup by coordinates searches the one held block with the number.
  pub extrinsic_by_block_idx-held :
      (k : BufferedBlock) (i : ℕ)
      → In k b.blocks
      → extrinsic_by_block_idx b k.number i ≡ find (λ (x : Extrinsic). x.index == i) k.extrinsics
  extrinsic_by_block_idx-held k i h =
      let (p, at, got) = position_of b.blocks k u.numbers h in
      by_block_idx_at b k.number i p k (ap (λ m. m k.number) v.numbers ∙ at) got

  find_index :
      (k : BufferedBlock) (x : Extrinsic)
      → In k b.blocks
      → In x k.extrinsics
      → find (λ (y : Extrinsic). y.index == x.index) k.extrinsics ≡ some x
  find_index k x hk hx =
      let (y, e) =
        find_complete (λ (y : Extrinsic). y.index == x.index) k.extrinsics x hx (==_refl x.index) in
      let found = find_sound (λ (y : Extrinsic). y.index == x.index) k.extrinsics y e in
      let same : y ≡ x =
        DistinctBy-unique (λ (x : Extrinsic). x.index) k.extrinsics y x
          (All-In _ b.blocks k u.indices hk) found.0 hx (==→eq _ _ found.1) in
      e ∙ ap (λ (z : Extrinsic). some z) same

  by_hash_step :
      (h : Bytes) (n i : ℕ)
      → b.by_xt_hash h ≡ some (n, i)
      → extrinsic_by_hash b h ≡ extrinsic_by_block_idx b n i
  unfolding extrinsic_by_hash
  by_hash_step h n i e = rw e

  abbrev pub Holds : Bytes → Extrinsic → Type 0
  Holds h x =
      (k : BufferedBlock) × In k b.blocks × In x k.extrinsics × (decode_hex32 d x.hash ≡ some h)

  resolve :
      (h : Bytes) (n i : ℕ)
      → b.by_xt_hash h ≡ some (n, i)
      → (x : Extrinsic) × (extrinsic_by_hash b h ≡ some x) × Holds h x
  resolve h n i e =
      elim (index_blocks_sound d b.blocks empty h n i (sym (ap (λ m. m h) v.hashes) ∙ e)) [
        | inl (k, hk, num, (x, hx, idx, dec)) ↦ (
          x,
          by_hash_step h n i e
              ∙ ap (λ (q : ℕ). extrinsic_by_block_idx b q i) (sym num)
              ∙ ap (λ (q : ℕ). extrinsic_by_block_idx b k.number q) (sym idx)
              ∙ extrinsic_by_block_idx-held k x.index hk
              ∙ find_index k x hk hx,
          (k, hk, hx, dec),
        )
        | inr old ↦ absurd (cc)
      ]

  -- In a buffer whose indexes fit its blocks, with one block for each number and one extrinsic for
  -- each index of a block, the lookup by hash answers for the hash of every held extrinsic, with a
  -- held extrinsic of that hash.
  pub extrinsic_by_hash_complete :
      (h : Bytes) (k : BufferedBlock) (x : Extrinsic)
      → In k b.blocks
      → In x k.extrinsics
      → decode_hex32 d x.hash ≡ some h
      → (y : Extrinsic) × (extrinsic_by_hash b h ≡ some y) × Holds h y
  extrinsic_by_hash_complete h k x hk hx dec = elim (Option-cases (b.by_xt_hash h)) [
    | inl n ↦
        absurd
          (index_blocks_present d b.blocks empty h k x hk hx dec (sym (ap (λ m. m h) v.hashes) ∙ n))
    | inr ((n, i), e) ↦ resolve h n i e
  ]

  -- In a buffer whose indexes fit its blocks, with one block for each number and one extrinsic for each
  -- index of a block, an extrinsic that the lookup by hash gives is held and has the hash asked for.
  pub extrinsic_by_hash_sound :
      (h : Bytes) (y : Extrinsic) → extrinsic_by_hash b h ≡ some y → Holds h y
  extrinsic_by_hash_sound h y e = elim (Option-cases (b.by_xt_hash h)) [
    | inl n ↦ absurd (unfold extrinsic_by_hash in ground arith)
    | inr ((n, i), f) ↦
        let (x, got, held) = resolve h n i f in
        let same : x ≡ y = some_inj (sym got ∙ e) in subst (Holds h) same held
  ]
