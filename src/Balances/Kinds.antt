-- ===== src/Balances/Kinds.antt =====
-- src/indexer/projections/balances.rs: the kinds of a movement and their numbers in the database.
use allfeat_explorer.Common.{ℕ}

pub data MovementKind : Type 0 where
  transfer deposit withdraw fee slash reserve unreserve reserve_repatriated burn minted :
      MovementKind
  frozen thawed locked unlocked held released burned_held : MovementKind
  transfer_and_hold transfer_on_hold endowed dust_lost restored suspended : MovementKind

unfoldable pub as_i16 : MovementKind → ℕ
as_i16 transfer = 0
as_i16 deposit = 1
as_i16 withdraw = 2
as_i16 fee = 3
as_i16 slash = 4
as_i16 reserve = 5
as_i16 unreserve = 6
as_i16 reserve_repatriated = 7
as_i16 burn = 8
as_i16 minted = 9
as_i16 frozen = 10
as_i16 thawed = 11
as_i16 locked = 12
as_i16 unlocked = 13
as_i16 held = 14
as_i16 released = 15
as_i16 burned_held = 16
as_i16 transfer_and_hold = 17
as_i16 transfer_on_hold = 18
as_i16 endowed = 19
as_i16 dust_lost = 20
as_i16 restored = 21
as_i16 suspended = 22
