-- ===== src/Ss58.antt =====
-- src/data/ss58.rs: the prefix bytes of an address, the display label, and the text form of a hash.
-- `hex::decode_to_slice` into 32 bytes is the parameter `decode_to_slice`.
pub mod Prefix
pub mod Label
use allfeat_explorer.Common.{◌&&◌, Option, List, [], ◌∷◌, Bytes, ◌==◌, if◌then◌else◌}

-- `s.strip_prefix("0x").unwrap_or(s)`
unfoldable pub strip_0x : Bytes → Bytes
strip_0x [] = []
strip_0x (c ∷ []) = c ∷ []
strip_0x (c ∷ d ∷ s) = if (c == b'0') && (d == b'x') then s else c ∷ d ∷ s

unfoldable pub decode_hex32 : (Bytes → Option Bytes) → Bytes → Option Bytes
unfolding strip_0x
decode_hex32 decode_to_slice s = decode_to_slice (strip_0x s)
