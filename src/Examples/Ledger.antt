-- ===== src/Examples/Ledger.antt =====
-- The theorems on balance movements, at concrete events.
use allfeat_explorer.Common.{ℕ, refl, List, [], ◌∷◌, some, arith, In, inl, inr, Bytes}
use allfeat_explorer.Balances.Kinds.{MovementKind}
use allfeat_explorer.Balances.Events.{DecodedBalanceEvent}
use allfeat_explorer.Balances.Project.{
  BalanceMovementRow, loss, project, project_event, both_sides, single,
}
use allfeat_explorer.Balances.Shape.{amount_of}
use allfeat_explorer.Balances.Ledger.{mirror, project_mirrored}
use allfeat_explorer.Balances.Records.{Records}

abbrev alice : Bytes
alice = 1 ∷ []

abbrev bob : Bytes
bob = 2 ∷ []

abbrev events : List (ℕ × DecodedBalanceEvent)
events = (4, DecodedBalanceEvent.fee alice 7) ∷ (5, DecodedBalanceEvent.transfer alice bob 90) ∷ []

abbrev sent : BalanceMovementRow
sent = record {
  block_num = 12;
  event_idx = 5;
  account = alice;
  kind = MovementKind.transfer;
  delta = loss 90;
  counterparty = some bob;
}

sent_projected : In sent (project events 12)
unfolding project project_event both_sides single
sent_projected = inr (inl refl)

project_mirrored_example : In (mirror sent bob) (project events 12)
unfolding amount_of
project_mirrored_example =
    project_mirrored events 12 (omega arith, (omega arith, tt)) sent bob sent_projected refl
