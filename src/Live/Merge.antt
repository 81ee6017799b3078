-- ===== src/Live/Merge.antt =====
-- src/live/merge.rs: `merge_live`, over any items with a key whose equality is a Boolean test. The
-- newest item of the live buffer is the head of its list.
use allfeat_explorer.Common.{
  ℕ, zero, suc, ◌<◌, ◌≡◌, ◌≢◌, inl, inr, refl, sym, ap, subst, ◌∙◌, Bool, true, false, ◌||◌, List,
  [], ◌∷◌, ◌++◌, arith, length, take, leb, if◌then◌else◌, length-append, append_assoc, append-nil,
  take-all, leb→le, Bool-cases, ||-eq-false, Bytes, All, max,
}
use allfeat_explorer.Common.Members.{DistinctBy}
use allfeat_explorer.Domain.{Block, Transfer, AtsFeedItem}

module _ {A K : Type 0} (eq : K → K → Bool) (dedup_key : A → K) where
  -- `keys.iter().any(|k| k == &key)`
  unfoldable pub seen : K → List K → Bool
  seen key [] = false
  seen key (k ∷ keys) = eq k key || seen key keys

  -- The loop, over the items that are left. The `break` stands behind the push.
  unfoldable pub merge_loop : ℕ → List A → List K → List A → List A
  merge_loop limit [] keys out = out
  merge_loop limit (item ∷ items) keys out =
      let skipped = merge_loop limit items keys out in
      let pushed = out ++ item ∷ [] in
      let rest = merge_loop limit items (keys ++ dedup_key item ∷ []) pushed in
      if seen (dedup_key item) keys
      then skipped
      else if leb limit (length pushed)
      then pushed
      else rest

  unfoldable pub merge_live : List A → List A → ℕ → List A
  merge_live live initial limit = merge_loop limit (live ++ initial) [] []

  -- The first item of each key, of the keys that are new.
  unfoldable pub firsts : List A → List K → List A
  firsts [] keys = []
  firsts (item ∷ items) keys =
      let skipped = firsts items keys in
      let rest = firsts items (keys ++ dedup_key item ∷ []) in
      if seen (dedup_key item) keys then skipped else item ∷ rest

  take-front : (xs ys : List A) (n : ℕ) → length xs ≡ n → take n (xs ++ ys) ≡ xs
  take-front [] ys n h = rw (sym h) refl
  take-front (x ∷ xs) ys n h = rw (sym h) (ap (◌∷◌ x) (take-front xs ys (length xs) refl))

  merge_loop-firsts :
      (limit : ℕ) (items : List A) (keys : List K) (out : List A)
      → length out < max limit 1
      → merge_loop limit items keys out ≡ take (max limit 1) (out ++ firsts items keys)
  unfolding merge_loop firsts
  merge_loop-firsts limit [] keys out h =
      sym
        (take-all (max limit 1) (out ++ []) (omega (arith, length-append out [])) ∙ append-nil out)
  merge_loop-firsts limit (item ∷ items) keys out h =
      elim (Bool-cases (seen (dedup_key item) keys)) [
        | inl s ↦ ground (arith, merge_loop-firsts limit items keys out h)
        | inr s ↦ elim (Bool-cases (leb limit (length (out ++ item ∷ [])))) [
          | inl l ↦ ground (
            arith,
            take-front (out ++ item ∷ []) (firsts items (keys ++ dedup_key item ∷ [])) (max limit 1)
                (omega (
                  arith,
                  length-append out (item ∷ []),
                  leb→le limit (length (out ++ item ∷ [])) l,
                )),
            append_assoc out (item ∷ []) (firsts items (keys ++ dedup_key item ∷ [])),
          )
          | inr l ↦ ground (
            arith,
            merge_loop-firsts limit items (keys ++ dedup_key item ∷ []) (out ++ item ∷ [])
                (pushed-fits l),
            append_assoc out (item ∷ []) (firsts items (keys ++ dedup_key item ∷ [])),
          )
        ]
      ]
    where
      pushed-fits :
          leb limit (length (out ++ item ∷ [])) ≡ false → length (out ++ item ∷ []) < max limit 1
      pushed-fits l = ground arith

  -- The merged list is the first `limit` of the first items of each key, live items before initial
  -- ones; a limit of zero gives one item, like a limit of one.
  pub merge_live-firsts :
      (live initial : List A) (limit : ℕ)
      → merge_live live initial limit ≡ take (max limit 1) (firsts (live ++ initial) [])
  unfolding merge_live
  merge_live-firsts live initial limit =
      merge_loop-firsts limit (live ++ initial) [] [] (omega arith)

  seen-append :
      (key last : K) (keys : List K) → seen key (keys ++ last ∷ []) ≡ (seen key keys || eq last key)
  unfolding seen
  seen-append key last [] = ground arith
  seen-append key last (k ∷ keys) = ground (arith, seen-append key last keys)

  seen-before :
      (key last : K) (keys : List K)
      → seen key (keys ++ last ∷ []) ≡ false
      → (seen key keys ≡ false) × (eq last key ≡ false)
  seen-before key last keys h =
      ||-eq-false (seen key keys) (eq last key) (sym (seen-append key last keys) ∙ h)

  All-map : {P Q : A → Type 0} → ((x : A) → P x → Q x) → (xs : List A) → All P xs → All Q xs
  All-map f [] h = tt
  All-map f (x ∷ xs) (h, hs) = (f x h, All-map f xs hs)

  All-take : (P : A → Type 0) (n : ℕ) (xs : List A) → All P xs → All P (take n xs)
  All-take P zero xs h = tt
  All-take P (suc n) [] h = tt
  All-take P (suc n) (x ∷ xs) (h, hs) = (h, All-take P n xs hs)

  DistinctBy-take :
      (n : ℕ) (xs : List A) → DistinctBy dedup_key xs → DistinctBy dedup_key (take n xs)
  DistinctBy-take zero xs d = tt
  DistinctBy-take (suc n) [] d = tt
  DistinctBy-take (suc n) (x ∷ xs) (h, d) =
      (All-take (λ y. dedup_key y ≢ dedup_key x) n xs h, DistinctBy-take n xs d)

  firsts-cons :
      (item : A) (items : List A) (keys : List K)
      → seen (dedup_key item) keys ≡ false
      → firsts (item ∷ items) keys ≡ item ∷ firsts items (keys ++ dedup_key item ∷ [])
  unfolding firsts
  firsts-cons item items keys h = ground arith

  firsts-skip :
      (item : A) (items : List A) (keys : List K)
      → seen (dedup_key item) keys ≡ true
      → firsts (item ∷ items) keys ≡ firsts items keys
  unfolding firsts
  firsts-skip item items keys h = ground arith

  firsts-new :
      (items : List A) (keys : List K)
      → All (λ x. seen (dedup_key x) keys ≡ false) (firsts items keys)
  unfolding firsts
  firsts-new [] keys = tt
  firsts-new (item ∷ items) keys = elim (Bool-cases (seen (dedup_key item) keys)) [
    | inl s ↦
        subst (All (λ x. seen (dedup_key x) keys ≡ false)) (sym (firsts-skip item items keys s))
          (firsts-new items keys)
    | inr s ↦
        subst (All (λ x. seen (dedup_key x) keys ≡ false)) (sym (firsts-cons item items keys s)) (
          s,
          All-map (λ x h. (seen-before (dedup_key x) (dedup_key item) keys h).0)
              (firsts items (keys ++ dedup_key item ∷ []))
              (firsts-new items (keys ++ dedup_key item ∷ [])),
        )
  ]

  module _ (eq_refl : (k : K) → eq k k ≡ true) where
    differs : (a b : K) → eq a b ≡ false → b ≢ a
    differs a b h e = absurd (clash (sym (subst (λ k. eq a k ≡ true) (sym e) (eq_refl a)) ∙ h))
      where
        clash : true ≡ false → ⊥
        clash c = cc

    firsts-DistinctBy : (items : List A) (keys : List K) → DistinctBy dedup_key (firsts items keys)
    unfolding firsts
    firsts-DistinctBy [] keys = tt
    firsts-DistinctBy (item ∷ items) keys = elim (Bool-cases (seen (dedup_key item) keys)) [
      | inl s ↦
          subst (DistinctBy dedup_key) (sym (firsts-skip item items keys s))
            (firsts-DistinctBy items keys)
      | inr s ↦ subst (DistinctBy dedup_key) (sym (firsts-cons item items keys s)) (
        All-map
            (λ x h.
              differs (dedup_key item) (dedup_key x)
                (seen-before (dedup_key x) (dedup_key item) keys h).1)
            (firsts items (keys ++ dedup_key item ∷ []))
            (firsts-new items (keys ++ dedup_key item ∷ [])),
        firsts-DistinctBy items (keys ++ dedup_key item ∷ []),
      )
    ]

    -- No two items of the merged list have one key, where the test holds of equal keys.
    pub merge_live-DistinctBy :
        (live initial : List A) (limit : ℕ) → DistinctBy dedup_key (merge_live live initial limit)
    merge_live-DistinctBy live initial limit =
        subst (DistinctBy dedup_key) (sym (merge_live-firsts live initial limit)) (
          DistinctBy-take (max limit 1) (firsts (live ++ initial) [])
            (firsts-DistinctBy (live ++ initial) []))

-- The keys of the streamed items.
abbrev pub block_key : Block → ℕ
block_key b = b.number

abbrev pub transfer_key : Transfer → Bytes
transfer_key t = t.extrinsic.id

abbrev pub feed_key : AtsFeedItem → ℕ × ℕ
feed_key f = (f.ats_id, f.version_index)
