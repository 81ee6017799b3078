-- ===== src/Balances/Entries.antt =====
-- What an event says of the accounts: who pays, who receives, and under which kind it is booked.
use allfeat_explorer.Common.{◌≡◌, ◌++◌, refl, Option, none, some, ℕ, List, [], ◌∷◌, Bytes}
use allfeat_explorer.Common.Integers.{ℤ}
use allfeat_explorer.Balances.Kinds.{MovementKind}
use allfeat_explorer.Balances.Events.{DecodedBalanceEvent}
use allfeat_explorer.Balances.Project.{
  BalanceMovementRow, gain, loss, single, both_sides, project_event,
}
use allfeat_explorer.Balances.Shape.{amount_of}

-- The account whose balance or free part falls.
unfoldable pub source_of : DecodedBalanceEvent → Option Bytes
source_of (DecodedBalanceEvent.transfer from to amount) = some from
source_of (DecodedBalanceEvent.deposit who amount) = none
source_of (DecodedBalanceEvent.withdraw who amount) = some who
source_of (DecodedBalanceEvent.slash who amount) = some who
source_of (DecodedBalanceEvent.reserve who amount) = none
source_of (DecodedBalanceEvent.unreserve who amount) = some who
source_of (DecodedBalanceEvent.reserve_repatriated who amount) = some who
source_of (DecodedBalanceEvent.burn who amount) = some who
source_of (DecodedBalanceEvent.mint who amount) = none
source_of (DecodedBalanceEvent.frozen who amount) = none
source_of (DecodedBalanceEvent.thawed who amount) = some who
source_of (DecodedBalanceEvent.locked who amount) = none
source_of (DecodedBalanceEvent.unlocked who amount) = some who
source_of (DecodedBalanceEvent.fee who amount) = some who
source_of (DecodedBalanceEvent.held who amount) = none
source_of (DecodedBalanceEvent.released who amount) = some who
source_of (DecodedBalanceEvent.burned_held who amount) = some who
source_of (DecodedBalanceEvent.transfer_and_hold from to amount) = some from
source_of (DecodedBalanceEvent.transfer_on_hold from to amount) = some from
source_of (DecodedBalanceEvent.endowed who amount) = none
source_of (DecodedBalanceEvent.dust_lost who amount) = some who
source_of (DecodedBalanceEvent.restored who amount) = none
source_of (DecodedBalanceEvent.suspended who amount) = some who

-- The account whose balance or booked part rises.
unfoldable pub destination_of : DecodedBalanceEvent → Option Bytes
destination_of (DecodedBalanceEvent.transfer from to amount) = some to
destination_of (DecodedBalanceEvent.deposit who amount) = some who
destination_of (DecodedBalanceEvent.withdraw who amount) = none
destination_of (DecodedBalanceEvent.slash who amount) = none
destination_of (DecodedBalanceEvent.reserve who amount) = some who
destination_of (DecodedBalanceEvent.unreserve who amount) = none
destination_of (DecodedBalanceEvent.reserve_repatriated who amount) = none
destination_of (DecodedBalanceEvent.burn who amount) = none
destination_of (DecodedBalanceEvent.mint who amount) = some who
destination_of (DecodedBalanceEvent.frozen who amount) = some who
destination_of (DecodedBalanceEvent.thawed who amount) = none
destination_of (DecodedBalanceEvent.locked who amount) = some who
destination_of (DecodedBalanceEvent.unlocked who amount) = none
destination_of (DecodedBalanceEvent.fee who amount) = none
destination_of (DecodedBalanceEvent.held who amount) = some who
destination_of (DecodedBalanceEvent.released who amount) = none
destination_of (DecodedBalanceEvent.burned_held who amount) = none
destination_of (DecodedBalanceEvent.transfer_and_hold from to amount) = some to
destination_of (DecodedBalanceEvent.transfer_on_hold from to amount) = some to
destination_of (DecodedBalanceEvent.endowed who amount) = some who
destination_of (DecodedBalanceEvent.dust_lost who amount) = none
destination_of (DecodedBalanceEvent.restored who amount) = some who
destination_of (DecodedBalanceEvent.suspended who amount) = none

unfoldable pub kind_of : DecodedBalanceEvent → MovementKind
kind_of (DecodedBalanceEvent.transfer from to amount) = MovementKind.transfer
kind_of (DecodedBalanceEvent.deposit who amount) = MovementKind.deposit
kind_of (DecodedBalanceEvent.withdraw who amount) = MovementKind.withdraw
kind_of (DecodedBalanceEvent.slash who amount) = MovementKind.slash
kind_of (DecodedBalanceEvent.reserve who amount) = MovementKind.reserve
kind_of (DecodedBalanceEvent.unreserve who amount) = MovementKind.unreserve
kind_of (DecodedBalanceEvent.reserve_repatriated who amount) = MovementKind.reserve_repatriated
kind_of (DecodedBalanceEvent.burn who amount) = MovementKind.burn
kind_of (DecodedBalanceEvent.mint who amount) = MovementKind.minted
kind_of (DecodedBalanceEvent.frozen who amount) = MovementKind.frozen
kind_of (DecodedBalanceEvent.thawed who amount) = MovementKind.thawed
kind_of (DecodedBalanceEvent.locked who amount) = MovementKind.locked
kind_of (DecodedBalanceEvent.unlocked who amount) = MovementKind.unlocked
kind_of (DecodedBalanceEvent.fee who amount) = MovementKind.fee
kind_of (DecodedBalanceEvent.held who amount) = MovementKind.held
kind_of (DecodedBalanceEvent.released who amount) = MovementKind.released
kind_of (DecodedBalanceEvent.burned_held who amount) = MovementKind.burned_held
kind_of (DecodedBalanceEvent.transfer_and_hold from to amount) = MovementKind.transfer_and_hold
kind_of (DecodedBalanceEvent.transfer_on_hold from to amount) = MovementKind.transfer_on_hold
kind_of (DecodedBalanceEvent.endowed who amount) = MovementKind.endowed
kind_of (DecodedBalanceEvent.dust_lost who amount) = MovementKind.dust_lost
kind_of (DecodedBalanceEvent.restored who amount) = MovementKind.restored
kind_of (DecodedBalanceEvent.suspended who amount) = MovementKind.suspended

-- The row of an account, if there is one, with the other account beside it.
abbrev pub entry : ℕ → ℕ → MovementKind → ℤ → Option Bytes → Option Bytes → List BalanceMovementRow
entry b i k delta none other = []
entry b i k delta (some account) other =
    record {
      block_num = b;
      event_idx = i;
      account = account;
      kind = k;
      delta = delta;
      counterparty = other;
    }
    ∷ []

-- The rows of an event: what its source loses, then what its destination gains.
pub event_entries :
    (b i : ℕ) (e : DecodedBalanceEvent)
    → project_event b i e
      ≡ entry b i (kind_of e) (loss (amount_of e)) (source_of e) (destination_of e)
        ++ entry b i (kind_of e) (gain (amount_of e)) (destination_of e) (source_of e)
unfolding project_event single both_sides source_of destination_of kind_of amount_of
event_entries b i (DecodedBalanceEvent.transfer from to amount) = refl
event_entries b i (DecodedBalanceEvent.deposit who amount) = refl
event_entries b i (DecodedBalanceEvent.withdraw who amount) = refl
event_entries b i (DecodedBalanceEvent.slash who amount) = refl
event_entries b i (DecodedBalanceEvent.reserve who amount) = refl
event_entries b i (DecodedBalanceEvent.unreserve who amount) = refl
event_entries b i (DecodedBalanceEvent.reserve_repatriated who amount) = refl
event_entries b i (DecodedBalanceEvent.burn who amount) = refl
event_entries b i (DecodedBalanceEvent.mint who amount) = refl
event_entries b i (DecodedBalanceEvent.frozen who amount) = refl
event_entries b i (DecodedBalanceEvent.thawed who amount) = refl
event_entries b i (DecodedBalanceEvent.locked who amount) = refl
event_entries b i (DecodedBalanceEvent.unlocked who amount) = refl
event_entries b i (DecodedBalanceEvent.fee who amount) = refl
event_entries b i (DecodedBalanceEvent.held who amount) = refl
event_entries b i (DecodedBalanceEvent.released who amount) = refl
event_entries b i (DecodedBalanceEvent.burned_held who amount) = refl
event_entries b i (DecodedBalanceEvent.transfer_and_hold from to amount) = refl
event_entries b i (DecodedBalanceEvent.transfer_on_hold from to amount) = refl
event_entries b i (DecodedBalanceEvent.endowed who amount) = refl
event_entries b i (DecodedBalanceEvent.dust_lost who amount) = refl
event_entries b i (DecodedBalanceEvent.restored who amount) = refl
event_entries b i (DecodedBalanceEvent.suspended who amount) = refl
