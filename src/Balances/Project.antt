-- ===== src/Balances/Project.antt =====
-- src/indexer/projections/balances.rs: `project`, which turns the decoded events of a block into rows
-- of `balance_movements`. The extrinsics, which the code does not read, are left out.
use allfeat_explorer.Common.{ℕ, Option, none, some, List, [], ◌∷◌, ◌++◌, Bytes}
use allfeat_explorer.Common.Integers.{ℤ, as_i128, neg_i128}
use allfeat_explorer.Balances.Kinds.{MovementKind}
use allfeat_explorer.Balances.Events.{DecodedBalanceEvent}

pub record BalanceMovementRow : Type 0 where
  pub block_num : ℕ
  pub event_idx : ℕ
  pub account : Bytes
  pub kind : MovementKind
  pub delta : ℤ
  pub counterparty : Option Bytes

-- `amount as i128` and `-(amount as i128)`.
unfoldable pub gain : ℕ → ℤ
gain amount = as_i128 amount

unfoldable pub loss : ℕ → ℤ
loss amount = neg_i128 (as_i128 amount)

unfoldable pub single : ℕ → ℕ → Bytes → MovementKind → ℤ → BalanceMovementRow
single block_num event_idx account kind delta = record {
  block_num = block_num;
  event_idx = event_idx;
  account = account;
  kind = kind;
  delta = delta;
  counterparty = none;
}

-- The two rows of an event with two sides: the source's, then the destination's.
unfoldable pub both_sides : ℕ → ℕ → MovementKind → Bytes → Bytes → ℕ → List BalanceMovementRow
both_sides block_num event_idx kind from to amount =
    record {
      block_num = block_num;
      event_idx = event_idx;
      account = from;
      kind = kind;
      delta = loss amount;
      counterparty = some to;
    }
    ∷ record {
      block_num = block_num;
      event_idx = event_idx;
      account = to;
      kind = kind;
      delta = gain amount;
      counterparty = some from;
    }
    ∷ []

-- One arm of the `match`.
unfoldable pub project_event : ℕ → ℕ → DecodedBalanceEvent → List BalanceMovementRow
unfolding single both_sides
project_event b i (DecodedBalanceEvent.transfer from to amount) =
    both_sides b i MovementKind.transfer from to amount
project_event b i (DecodedBalanceEvent.deposit who amount) =
    single b i who MovementKind.deposit (gain amount) ∷ []
project_event b i (DecodedBalanceEvent.withdraw who amount) =
    single b i who MovementKind.withdraw (loss amount) ∷ []
project_event b i (DecodedBalanceEvent.slash who amount) =
    single b i who MovementKind.slash (loss amount) ∷ []
project_event b i (DecodedBalanceEvent.reserve who amount) =
    single b i who MovementKind.reserve (gain amount) ∷ []
project_event b i (DecodedBalanceEvent.unreserve who amount) =
    single b i who MovementKind.unreserve (loss amount) ∷ []
project_event b i (DecodedBalanceEvent.reserve_repatriated who amount) =
    single b i who MovementKind.reserve_repatriated (loss amount) ∷ []
project_event b i (DecodedBalanceEvent.burn who amount) =
    single b i who MovementKind.burn (loss amount) ∷ []
project_event b i (DecodedBalanceEvent.mint who amount) =
    single b i who MovementKind.minted (gain amount) ∷ []
project_event b i (DecodedBalanceEvent.frozen who amount) =
    single b i who MovementKind.frozen (gain amount) ∷ []
project_event b i (DecodedBalanceEvent.thawed who amount) =
    single b i who MovementKind.thawed (loss amount) ∷ []
project_event b i (DecodedBalanceEvent.locked who amount) =
    single b i who MovementKind.locked (gain amount) ∷ []
project_event b i (DecodedBalanceEvent.unlocked who amount) =
    single b i who MovementKind.unlocked (loss amount) ∷ []
project_event b i (DecodedBalanceEvent.fee who amount) =
    single b i who MovementKind.fee (loss amount) ∷ []
project_event b i (DecodedBalanceEvent.held who amount) =
    single b i who MovementKind.held (gain amount) ∷ []
project_event b i (DecodedBalanceEvent.released who amount) =
    single b i who MovementKind.released (loss amount) ∷ []
project_event b i (DecodedBalanceEvent.burned_held who amount) =
    single b i who MovementKind.burned_held (loss amount) ∷ []
project_event b i (DecodedBalanceEvent.transfer_and_hold from to amount) =
    both_sides b i MovementKind.transfer_and_hold from to amount
project_event b i (DecodedBalanceEvent.transfer_on_hold from to amount) =
    both_sides b i MovementKind.transfer_on_hold from to amount
project_event b i (DecodedBalanceEvent.endowed who amount) =
    single b i who MovementKind.endowed (gain amount) ∷ []
project_event b i (DecodedBalanceEvent.dust_lost who amount) =
    single b i who MovementKind.dust_lost (loss amount) ∷ []
project_event b i (DecodedBalanceEvent.restored who amount) =
    single b i who MovementKind.restored (gain amount) ∷ []
project_event b i (DecodedBalanceEvent.suspended who amount) =
    single b i who MovementKind.suspended (loss amount) ∷ []

unfoldable pub project : List (ℕ × DecodedBalanceEvent) → ℕ → List BalanceMovementRow
project [] block_num = []
project ((event_idx, evt) ∷ decoded) block_num =
    project_event block_num event_idx evt ++ project decoded block_num
