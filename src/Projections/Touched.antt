-- ===== src/Projections/Touched.antt =====
-- src/indexer/projections/accounts.rs: the accounts that `collect_touched` gives.
use allfeat_explorer.Common.{
  ◌≡◌, ◌≢◌, ◌⊎◌, ◌↔◌, inl, inr, sym, subst, true, false, Option, none, some, List, [], ◌∷◌, ◌++◌,
  Bytes, arith, In, Bool-cases, All-append,
}
use allfeat_explorer.Common.Maps.{bytes_beq, bytes_beq_sound, bytes_beq_refl}
use allfeat_explorer.Common.Members.{DistinctBy, In-left, In-right, In-append}
use allfeat_explorer.Projections.Accounts.{
  is_seen, Touched, push, push_accounts, push_signers, collect_touched,
}

is_seen-In : (acct : Bytes) (xs : List Bytes) → is_seen acct xs ≡ true → In acct xs
is_seen-In acct [] h = cc
is_seen-In acct (x ∷ xs) h = elim (Bool-cases (bytes_beq x acct)) [
  | inl e ↦ inl (sym (bytes_beq_sound x acct e))
  | inr e ↦ inr (is_seen-In acct xs (ground arith))
]

is_seen-absent : (acct : Bytes) (xs : List Bytes) → is_seen acct xs ≡ false → In acct xs → ⊥
is_seen-absent acct [] h i = i
is_seen-absent acct (x ∷ xs) h (inl e) =
    let hit : bytes_beq x acct ≡ true =
      subst (λ y. bytes_beq y acct ≡ true) e (bytes_beq_refl acct) in
    ground arith
is_seen-absent acct (x ∷ xs) h (inr i) = is_seen-absent acct xs (ground arith) i

-- The list holds the accounts of the set, each once.
record IsOnce (t : Touched) : Type 0 where
  once : DistinctBy (λ (a : Bytes). a) t.out
  listed : (a : Bytes) → In a t.out → In a t.seen
  noted : (a : Bytes) → In a t.seen → In a t.out

DistinctBy-snoc :
    (xs : List Bytes) (a : Bytes)
    → DistinctBy (λ (x : Bytes). x) xs
    → (In a xs → ⊥)
    → DistinctBy (λ (x : Bytes). x) (xs ++ a ∷ [])
DistinctBy-snoc [] a d n = (tt, tt)
DistinctBy-snoc (x ∷ xs) a (ne, d) n = (
  All-append (λ y. y ≢ x) xs (a ∷ []) ne ((λ e. n (inl e)), tt),
  DistinctBy-snoc xs a d (λ i. n (inr i)),
)

push-held : (acct : Bytes) (t : Touched) → is_seen acct t.seen ≡ true → push acct t ≡ t
unfolding push
push-held acct t h = ground arith

push-new :
    (acct : Bytes) (t : Touched)
    → is_seen acct t.seen ≡ false
    → push acct t ≡ record { seen = acct ∷ t.seen; out = t.out ++ acct ∷ [] }
unfolding push
push-new acct t h = ground arith

push-IsOnce : (acct : Bytes) (t : Touched) → IsOnce t → IsOnce (push acct t)
push-IsOnce acct t h = elim (Bool-cases (is_seen acct t.seen)) [
  | inl e ↦ subst IsOnce (sym (push-held acct t e)) h
  | inr e ↦ subst IsOnce (sym (push-new acct t e)) (record {
    once = DistinctBy-snoc t.out acct h.once (λ i. is_seen-absent acct t.seen e (h.listed acct i));
    listed = λ a i. elim (In-append a t.out (acct ∷ []) i) [
      | inl j ↦ inr (h.listed a j)
      | inr j ↦ elim j [ inl same ↦ inl same | inr none_left ↦ absurd none_left ]
    ];
    noted = λ a i. elim i [
      | inl same ↦ In-right a t.out (acct ∷ []) (inl same)
      | inr j ↦ In-left a t.out (acct ∷ []) (h.noted a j)
    ];
  })
]

push-seen : (acct a : Bytes) (t : Touched) → In a (push acct t).seen ↔ ((a ≡ acct) ⊎ In a t.seen)
push-seen acct a t = elim (Bool-cases (is_seen acct t.seen)) [
  | inr e ↦
      subst (λ (u : Touched). In a u.seen ↔ ((a ≡ acct) ⊎ In a t.seen)) (sym (push-new acct t e))
        ((λ i. i), (λ i. i))
  | inl e ↦
      subst (λ (u : Touched). In a u.seen ↔ ((a ≡ acct) ⊎ In a t.seen)) (sym (push-held acct t e))
        (
          (λ i. inr i),
          λ i. elim i [
            | inl same ↦ subst (λ b. In b t.seen) (sym same) (is_seen-In acct t.seen e)
            | inr j ↦ j
          ],
        )
]

accounts-IsOnce : (xs : List Bytes) (t : Touched) → IsOnce t → IsOnce (push_accounts xs t)
unfolding push_accounts
accounts-IsOnce [] t h = h
accounts-IsOnce (x ∷ xs) t h = accounts-IsOnce xs (push x t) (push-IsOnce x t h)

signers-IsOnce : (xs : List (Option Bytes)) (t : Touched) → IsOnce t → IsOnce (push_signers xs t)
unfolding push_signers
signers-IsOnce [] t h = h
signers-IsOnce (none ∷ xs) t h = signers-IsOnce xs t h
signers-IsOnce (some x ∷ xs) t h = signers-IsOnce xs (push x t) (push-IsOnce x t h)

accounts-seen :
    (xs : List Bytes) (a : Bytes) (t : Touched)
    → In a (push_accounts xs t).seen ↔ (In a xs ⊎ In a t.seen)
unfolding push_accounts
accounts-seen [] a t = ((λ i. inr i), λ i. elim i [ inl j ↦ absurd j | inr j ↦ j ])
accounts-seen (x ∷ xs) a t =
    let (there, back) = accounts-seen xs a (push x t) in
    let (apart, joined) = push-seen x a t in
    (
      λ i. elim (there i) [
        | inl j ↦ inl (inr j)
        | inr j ↦ elim (apart j) [ inl same ↦ inl (inl same) | inr k ↦ inr k ]
      ],
      λ i. elim i [
        | inl j ↦ elim j [ inl same ↦ back (inr (joined (inl same))) | inr k ↦ back (inl k) ]
        | inr j ↦ back (inr (joined (inr j)))
      ],
    )

-- An account signs an extrinsic.
abbrev pub Signs : Bytes → List (Option Bytes) → Type 0
Signs a [] = ⊥
Signs a (none ∷ xs) = Signs a xs
Signs a (some x ∷ xs) = (a ≡ x) ⊎ Signs a xs

signers-seen :
    (xs : List (Option Bytes)) (a : Bytes) (t : Touched)
    → In a (push_signers xs t).seen ↔ (Signs a xs ⊎ In a t.seen)
unfolding push_signers
signers-seen [] a t = ((λ i. inr i), λ i. elim i [ inl j ↦ absurd j | inr j ↦ j ])
signers-seen (none ∷ xs) a t = signers-seen xs a t
signers-seen (some x ∷ xs) a t =
    let (there, back) = signers-seen xs a (push x t) in
    let (apart, joined) = push-seen x a t in
    (
      λ i. elim (there i) [
        | inl j ↦ inl (inr j)
        | inr j ↦ elim (apart j) [ inl same ↦ inl (inl same) | inr k ↦ inr k ]
      ],
      λ i. elim i [
        | inl j ↦ elim j [ inl same ↦ back (inr (joined (inl same))) | inr k ↦ back (inl k) ]
        | inr j ↦ back (inr (joined (inr j)))
      ],
    )

-- The accounts that a block touches are listed each once, and they are exactly those of its events and
-- the signers of its extrinsics.
pub collect_touched-exact :
    (from_events : List Bytes) (signers : List (Option Bytes))
    → DistinctBy (λ (a : Bytes). a) (collect_touched from_events signers)
      × ((a : Bytes)
          → In a (collect_touched from_events signers) ↔ (In a from_events ⊎ Signs a signers))
unfolding collect_touched
collect_touched-exact from_events signers =
    let start : Touched = record { seen = []; out = [] } in
    let middle = push_accounts from_events start in
    let held = signers-IsOnce signers middle (
      accounts-IsOnce from_events start
        (record { once = tt; listed = λ a i. i; noted = λ a i. i })) in
    (
      held.once,
      λ a.
          let (there, back) = signers-seen signers a middle in
          let (from_there, from_back) = accounts-seen from_events a start in
          (
            λ i. elim (there (held.listed a i)) [
              | inl j ↦ inr j
              | inr j ↦ elim (from_there j) [ inl k ↦ inl k | inr k ↦ absurd k ]
            ],
            λ i.
                held.noted a
                  (elim i [ inl j ↦ back (inr (from_back (inl j))) | inr j ↦ back (inl j) ]),
          ),
    )
