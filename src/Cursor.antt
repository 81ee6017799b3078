-- ===== src/Cursor.antt =====
-- src/data/cursor.rs: the transparent cursors of the paginated endpoints. A child for each cursor.
mod Defs
pub mod Block
pub mod Extrinsic
pub mod Transfer
pub mod Event
pub mod Ats
pub mod AtsFeed
pub mod Request
pub mod Quoted
pub use Defs.{CursorParseError, Parsed, Field, parse_error_display}
