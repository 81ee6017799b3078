-- ===== src/Examples/Addresses.antt =====
-- The theorems on addresses, at concrete bytes.
use allfeat_explorer.Common.{◌≡◌, [], ◌∷◌, ◌++◌, some, arith}
use allfeat_explorer.Ss58.Prefix.{read_prefix, encode_prefix, read_prefix-encode_prefix}

read_prefix-encode_prefix_example :
    read_prefix (encode_prefix 440 ++ (1 ∷ 2 ∷ [])) ≡ some (440, 1 ∷ 2 ∷ [])
read_prefix-encode_prefix_example = read_prefix-encode_prefix 440 (1 ∷ 2 ∷ []) (omega arith)
