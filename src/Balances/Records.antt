-- ===== src/Balances/Records.antt =====
-- The rows of a block record its events, each account's side of them and nothing else.
use allfeat_explorer.Common.{ℕ, ◌≡◌, ◌⊎◌, Option, some, Bytes}
use allfeat_explorer.Common.Integers.{ℤ}
use allfeat_explorer.Balances.Kinds.{MovementKind}
use allfeat_explorer.Balances.Events.{DecodedBalanceEvent}
use allfeat_explorer.Balances.Project.{BalanceMovementRow, gain, loss}
use allfeat_explorer.Balances.Shape.{amount_of}
use allfeat_explorer.Balances.Entries.{source_of, destination_of, kind_of}

-- The side of one account in an event: its row has the block, the event's index and kind, the account,
-- what it loses or gains, and the other account where the event has one.
abbrev pub Side :
    ℕ → ℕ → MovementKind → ℤ → Option Bytes → Option Bytes → BalanceMovementRow → Type 0
Side b i k delta account other r =
    (r.block_num ≡ b)
    × (r.event_idx ≡ i)
    × (r.kind ≡ k)
    × (r.delta ≡ delta)
    × (account ≡ some r.account)
    × (r.counterparty ≡ other)

-- The row is the source's side of the event, a loss of its amount, or the destination's, a gain.
abbrev pub Records : ℕ → ℕ × DecodedBalanceEvent → BalanceMovementRow → Type 0
Records b p r =
    Side b p.0 (kind_of p.1) (loss (amount_of p.1)) (source_of p.1) (destination_of p.1) r
    ⊎ Side b p.0 (kind_of p.1) (gain (amount_of p.1)) (destination_of p.1) (source_of p.1) r
