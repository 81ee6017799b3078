-- ===== src/Cursor/Quoted.antt =====
-- src/data/cursor.rs: what is answered to the cursor of a request, for each of the cursor types.
use allfeat_explorer.Common.{◌≡◌, ◌⊎◌, none, some, ◌++◌, String, Bytes, codes, ok, err}
use allfeat_explorer.Domain.{PageRequest}
use allfeat_explorer.Errors.{DataError, api_error, status, message}
use allfeat_explorer.Cursor.Defs.{Parsed, error}
use allfeat_explorer.Cursor.Request.{parse_cursor}
use allfeat_explorer.Cursor.Block
use allfeat_explorer.Cursor.Extrinsic
use allfeat_explorer.Cursor.Transfer
use allfeat_explorer.Cursor.Event
use allfeat_explorer.Cursor.Ats
use allfeat_explorer.Cursor.AtsFeed

abbrev feed_form : String
feed_form = "<block_num>-<ats_id>-<version>"

abbrev event_form : String
event_form = "<block>-<phase>-<idx> with phase in I|A|F"

-- A parse that succeeds, or fails with an error that holds the whole text.
abbrev Quotes : Bytes → {A : Type 0} → Parsed A → Type 0
Quotes s {A} r = ((a : A) × (r ≡ ok a)) ⊎ ((expected : String) × (r ≡ err (error s expected)))

module _ {C : Type 0} (from_str : Bytes → Parsed C) (req : PageRequest) where
  -- A missing cursor is none, a readable one is the parser's, and any other is refused with status 400
  -- and a message that holds the text.
  abbrev pub IsAnswered : Type 0
  IsAnswered =
      ((req.cursor ≡ none) × (parse_cursor from_str req ≡ ok none))
      ⊎ ((raw : Bytes) × (req.cursor ≡ some raw)
          × (((c : C) × (from_str raw ≡ ok c) × (parse_cursor from_str req ≡ ok (some c)))
              ⊎ ((d : DataError) × (expected : String) × (parse_cursor from_str req ≡ err d)
                  × (status (api_error d) ≡ 400)
                  × (message (api_error d)
                      ≡ codes "invalid cursor '"
                        ++ (raw ++ (codes "': expected " ++ codes expected))))))
