-- ===== src/Balances/Shape.antt =====
-- The shape of the rows that an event projects to, and its amount.
use allfeat_explorer.Common.{ℕ, ◌≡◌, ◌⊎◌, inl, inr, refl, [], ◌∷◌, Bytes}
use allfeat_explorer.Balances.Kinds.{MovementKind}
use allfeat_explorer.Balances.Events.{DecodedBalanceEvent}
use allfeat_explorer.Balances.Project.{gain, loss, single, both_sides, project_event}

-- The amount of an event.
unfoldable pub amount_of : DecodedBalanceEvent → ℕ
amount_of (DecodedBalanceEvent.transfer from to amount) = amount
amount_of (DecodedBalanceEvent.deposit who amount) = amount
amount_of (DecodedBalanceEvent.withdraw who amount) = amount
amount_of (DecodedBalanceEvent.slash who amount) = amount
amount_of (DecodedBalanceEvent.reserve who amount) = amount
amount_of (DecodedBalanceEvent.unreserve who amount) = amount
amount_of (DecodedBalanceEvent.reserve_repatriated who amount) = amount
amount_of (DecodedBalanceEvent.burn who amount) = amount
amount_of (DecodedBalanceEvent.mint who amount) = amount
amount_of (DecodedBalanceEvent.frozen who amount) = amount
amount_of (DecodedBalanceEvent.thawed who amount) = amount
amount_of (DecodedBalanceEvent.locked who amount) = amount
amount_of (DecodedBalanceEvent.unlocked who amount) = amount
amount_of (DecodedBalanceEvent.fee who amount) = amount
amount_of (DecodedBalanceEvent.held who amount) = amount
amount_of (DecodedBalanceEvent.released who amount) = amount
amount_of (DecodedBalanceEvent.burned_held who amount) = amount
amount_of (DecodedBalanceEvent.transfer_and_hold from to amount) = amount
amount_of (DecodedBalanceEvent.transfer_on_hold from to amount) = amount
amount_of (DecodedBalanceEvent.endowed who amount) = amount
amount_of (DecodedBalanceEvent.dust_lost who amount) = amount
amount_of (DecodedBalanceEvent.restored who amount) = amount
amount_of (DecodedBalanceEvent.suspended who amount) = amount

-- The rows of an event are one row of a gain or a loss, or those of two sides.
abbrev pub Shape : ℕ → ℕ → DecodedBalanceEvent → Type 0
Shape b i e =
    ((who : Bytes) × (k : MovementKind) × ((project_event b i e
          ≡ single b i who k (gain (amount_of e)) ∷ [])
        ⊎ (project_event b i e ≡ single b i who k (loss (amount_of e)) ∷ [])))
    ⊎ ((k : MovementKind) × (from : Bytes) × (to : Bytes) × (project_event b i e
          ≡ both_sides b i k from to (amount_of e)))

pub shape : (b i : ℕ) (e : DecodedBalanceEvent) → Shape b i e
unfolding project_event amount_of
shape b i (DecodedBalanceEvent.transfer from to amount) =
    inr (MovementKind.transfer, from, to, refl)
shape b i (DecodedBalanceEvent.deposit who amount) = inl (who, MovementKind.deposit, inl refl)
shape b i (DecodedBalanceEvent.withdraw who amount) = inl (who, MovementKind.withdraw, inr refl)
shape b i (DecodedBalanceEvent.slash who amount) = inl (who, MovementKind.slash, inr refl)
shape b i (DecodedBalanceEvent.reserve who amount) = inl (who, MovementKind.reserve, inl refl)
shape b i (DecodedBalanceEvent.unreserve who amount) = inl (who, MovementKind.unreserve, inr refl)
shape b i (DecodedBalanceEvent.reserve_repatriated who amount) =
    inl (who, MovementKind.reserve_repatriated, inr refl)
shape b i (DecodedBalanceEvent.burn who amount) = inl (who, MovementKind.burn, inr refl)
shape b i (DecodedBalanceEvent.mint who amount) = inl (who, MovementKind.minted, inl refl)
shape b i (DecodedBalanceEvent.frozen who amount) = inl (who, MovementKind.frozen, inl refl)
shape b i (DecodedBalanceEvent.thawed who amount) = inl (who, MovementKind.thawed, inr refl)
shape b i (DecodedBalanceEvent.locked who amount) = inl (who, MovementKind.locked, inl refl)
shape b i (DecodedBalanceEvent.unlocked who amount) = inl (who, MovementKind.unlocked, inr refl)
shape b i (DecodedBalanceEvent.fee who amount) = inl (who, MovementKind.fee, inr refl)
shape b i (DecodedBalanceEvent.held who amount) = inl (who, MovementKind.held, inl refl)
shape b i (DecodedBalanceEvent.released who amount) = inl (who, MovementKind.released, inr refl)
shape b i (DecodedBalanceEvent.burned_held who amount) =
    inl (who, MovementKind.burned_held, inr refl)
shape b i (DecodedBalanceEvent.transfer_and_hold from to amount) =
    inr (MovementKind.transfer_and_hold, from, to, refl)
shape b i (DecodedBalanceEvent.transfer_on_hold from to amount) =
    inr (MovementKind.transfer_on_hold, from, to, refl)
shape b i (DecodedBalanceEvent.endowed who amount) = inl (who, MovementKind.endowed, inl refl)
shape b i (DecodedBalanceEvent.dust_lost who amount) = inl (who, MovementKind.dust_lost, inr refl)
shape b i (DecodedBalanceEvent.restored who amount) = inl (who, MovementKind.restored, inl refl)
shape b i (DecodedBalanceEvent.suspended who amount) = inl (who, MovementKind.suspended, inr refl)
