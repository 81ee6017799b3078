-- ===== src/Projections/Accounts.antt =====
-- src/indexer/projections/accounts.rs: `collect_touched`. Of an extrinsic only the signer is read; the
-- hash set is the list of what it holds.
use allfeat_explorer.Common.{
  Bool, true, false, ◌||◌, Option, none, some, List, [], ◌∷◌, ◌++◌, Bytes,
}
use allfeat_explorer.Common.Maps.{bytes_beq}

abbrev pub is_seen : Bytes → List Bytes → Bool
is_seen acct [] = false
is_seen acct (x ∷ xs) = bytes_beq x acct || is_seen acct xs

-- The set and the list that the closure `push` writes to.
pub record Touched : Type 0 where
  pub seen : List Bytes
  pub out : List Bytes

unfoldable pub push : Bytes → Touched → Touched
push acct t = elim (is_seen acct t.seen) [
  | true ↦ t
  | false ↦ record { seen = acct ∷ t.seen; out = t.out ++ acct ∷ [] }
]

unfoldable pub push_accounts : List Bytes → Touched → Touched
push_accounts [] t = t
push_accounts (acct ∷ accts) t = push_accounts accts (push acct t)

-- The loop over the signers of the extrinsics.
unfoldable pub push_signers : List (Option Bytes) → Touched → Touched
push_signers [] t = t
push_signers (none ∷ signers) t = push_signers signers t
push_signers (some signer ∷ signers) t = push_signers signers (push signer t)

unfoldable pub collect_touched : List Bytes → List (Option Bytes) → List Bytes
unfolding push_accounts push_signers
collect_touched from_events signers =
    (push_signers signers (push_accounts from_events (record { seen = []; out = [] }))).out
