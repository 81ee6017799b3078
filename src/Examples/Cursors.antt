-- ===== src/Examples/Cursors.antt =====
-- The theorems on the cursors, at concrete texts.
use allfeat_explorer.Common.{◌≡◌, ◌↔◌, arith, codes, some, ok}
use allfeat_explorer.Domain.{PageRequest}
use allfeat_explorer.Cursor.Block
use allfeat_explorer.Cursor.Extrinsic
use allfeat_explorer.Cursor.Transfer
use allfeat_explorer.Cursor.Event
use allfeat_explorer.Cursor.Ats
use allfeat_explorer.Cursor.AtsFeed

abbrev block_cursor : Block.BlockCursor
block_cursor = record { block = 42 }

abbrev extrinsic_cursor : Extrinsic.ExtrinsicCursor
extrinsic_cursor = record { block = 1042; index = 7 }

abbrev transfer_cursor : Transfer.TransferCursor
transfer_cursor = record { block = 1042; event_idx = 3 }

abbrev event_cursor : Event.EventCursor
event_cursor = record { block = 9; phase = Event.EventPhaseKind.apply_extrinsic; index = 12 }

abbrev ats_cursor : Ats.AtsCursor
ats_cursor = record { id = 305 }

abbrev feed_cursor : AtsFeed.AtsFeedCursor
feed_cursor = record { block_num = 77; ats_id = 5; version = 2 }

event_round_trip_example : Event.from_str (Event.to_string event_cursor) ≡ ok event_cursor
event_round_trip_example = Event.event_round_trip event_cursor (omega arith) (omega arith)

event_from_str_iff_example :
    (Event.from_str (codes "9-A-12") ≡ ok event_cursor) ↔ Event.Spells (codes "9-A-12") event_cursor
event_from_str_iff_example = Event.event_from_str_iff (codes "9-A-12") event_cursor

feed_from_str_iff_example :
    (AtsFeed.from_str (codes "77-5-2") ≡ ok feed_cursor)
    ↔ AtsFeed.Spells (codes "77-5-2") feed_cursor
feed_from_str_iff_example = AtsFeed.feed_from_str_iff (codes "77-5-2") feed_cursor

abbrev bad_request : PageRequest
bad_request = record { count = 25; cursor = some (codes "12-x") }
