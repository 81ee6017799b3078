-- ===== src/Balances/Events.antt =====
-- src/indexer/projections/balances.rs: the decoded events that move balances, with the account or
-- the two accounts, and the amount. An account id is the list of its bytes.
use allfeat_explorer.Common.{ℕ, Bytes}

pub data DecodedBalanceEvent : Type 0 where
  transfer transfer_and_hold transfer_on_hold : Bytes → Bytes → ℕ → DecodedBalanceEvent
  deposit withdraw slash reserve unreserve reserve_repatriated burn mint frozen thawed :
      Bytes → ℕ → DecodedBalanceEvent
  locked unlocked fee held released burned_held endowed dust_lost restored suspended :
      Bytes → ℕ → DecodedBalanceEvent
