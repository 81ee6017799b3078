-- ===== src/Balances/Ledger.antt =====
-- What an account loses in a movement between two accounts, the other one gains.
use allfeat_explorer.Common.{
  ℕ, ◌^◌, ◌<◌, ◌≡◌, inl, inr, refl, sym, ap, subst, some, List, [], ◌∷◌, Bytes, All, In,
}
use allfeat_explorer.Common.Members.{In-append, In-left, In-right, All-In}
use allfeat_explorer.Common.Integers.{ℤ, neg_i128, neg_i128-involutive}
use allfeat_explorer.Balances.Kinds.{MovementKind}
use allfeat_explorer.Balances.Events.{DecodedBalanceEvent}
use allfeat_explorer.Balances.Project.{
  BalanceMovementRow, gain, loss, single, both_sides, project_event, project,
}
use allfeat_explorer.Balances.Shape.{amount_of, shape}

-- The row of the other side: accounts swapped, and the opposite delta.
unfoldable pub mirror : BalanceMovementRow → Bytes → BalanceMovementRow
mirror r other = record r {
  account = other;
  delta = neg_i128 r.delta;
  counterparty = some r.account;
}

abbrev Mirrored : List BalanceMovementRow → BalanceMovementRow → Type 0
Mirrored rows r = (other : Bytes) → r.counterparty ≡ some other → In (mirror r other) rows

one_sided :
    (rows : List BalanceMovementRow) (b i : ℕ) (who : Bytes) (k : MovementKind) (d : ℤ)
    → Mirrored rows (single b i who k d)
unfolding single
one_sided rows b i who k d other c = cc

loss-gain : (amount : ℕ) → amount < 2 ^ 127 → neg_i128 (loss amount) ≡ gain amount
unfolding gain loss
loss-gain amount h = neg_i128-involutive amount h

some_inj : {a b : Bytes} → some a ≡ some b → a ≡ b
some_inj h = cc

two_sided :
    (b i : ℕ) (k : MovementKind) (from to : Bytes) (amount : ℕ)
    → amount < 2 ^ 127
    → All (Mirrored (both_sides b i k from to amount)) (both_sides b i k from to amount)
unfolding both_sides mirror gain loss
two_sided b i k from to amount h = (
  λ other c.
      subst (λ o. In (mirror (source) o) sides) (some_inj c)
        (inr (inl (ap (λ d. record destination { delta = d }) (loss-gain amount h)))),
  ((λ other c. subst (λ o. In (mirror (destination) o) sides) (some_inj c) (inl refl)), tt),
)
  where
    sides : List BalanceMovementRow
    sides = both_sides b i k from to amount

    source : BalanceMovementRow
    source = record {
      block_num = b;
      event_idx = i;
      account = from;
      kind = k;
      delta = loss amount;
      counterparty = some to;
    }

    destination : BalanceMovementRow
    destination = record {
      block_num = b;
      event_idx = i;
      account = to;
      kind = k;
      delta = gain amount;
      counterparty = some from;
    }

event-Mirrored :
    (b i : ℕ) (e : DecodedBalanceEvent)
    → amount_of e < 2 ^ 127
    → All (Mirrored (project_event b i e)) (project_event b i e)
event-Mirrored b i e h = elim (shape b i e) [
  | inl (who, k, inl p) ↦
      subst (λ rows. All (Mirrored rows) rows) (sym p)
        (one_sided (single b i who k (gain (amount_of e)) ∷ []) b i who k (gain (amount_of e)), tt)
  | inl (who, k, inr p) ↦
      subst (λ rows. All (Mirrored rows) rows) (sym p)
        (one_sided (single b i who k (loss (amount_of e)) ∷ []) b i who k (loss (amount_of e)), tt)
  | inr (k, from, to, p) ↦
      subst (λ rows. All (Mirrored rows) rows) (sym p) (two_sided b i k from to (amount_of e) h)
]

-- The amounts are in the range that `as i128` keeps.
abbrev pub FitAmounts : List (ℕ × DecodedBalanceEvent) → Type 0
FitAmounts = All (λ (p : ℕ × DecodedBalanceEvent). amount_of p.1 < 2 ^ 127)

-- A row with a counterparty comes with the counterparty's row: of the same block, event and kind, with
-- the opposite delta, so that what one account loses the other one gains. Amounts are below `2 ^ 127`.
pub project_mirrored :
    (decoded : List (ℕ × DecodedBalanceEvent)) (block_num : ℕ)
    → FitAmounts decoded
    → (r : BalanceMovementRow) (other : Bytes) → In r (project decoded block_num)
    → r.counterparty ≡ some other
    → In (mirror r other) (project decoded block_num)
unfolding project
project_mirrored [] b h r other i c = absurd i
project_mirrored ((idx, e) ∷ decoded) b (h, hs) r other i c =
    elim (In-append r (project_event b idx e) (project decoded b) i) [
      | inl j ↦ In-left (mirror r other) (project_event b idx e) (project decoded b) (
          All-In (Mirrored (project_event b idx e)) (project_event b idx e) r
            (event-Mirrored b idx e h) j other c)
      | inr j ↦
          In-right (mirror r other) (project_event b idx e) (project decoded b)
            (project_mirrored decoded b hs r other j c)
    ]
