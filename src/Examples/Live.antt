-- ===== src/Examples/Live.antt =====
-- The theorems on merged lists, at concrete items that are their own keys.
use allfeat_explorer.Common.{ℕ, Bool, ◌≡◌, [], ◌∷◌, ◌++◌, ◌==◌, ==_refl, take, max}
use allfeat_explorer.Common.Members.{DistinctBy}
use allfeat_explorer.Live.Merge.{merge_live, firsts, merge_live-firsts, merge_live-DistinctBy}

abbrev itself : ℕ → ℕ
itself n = n

abbrev same : ℕ → ℕ → Bool
same a b = a == b

merge_live-firsts_example :
    merge_live same itself (5 ∷ 6 ∷ []) (5 ∷ 4 ∷ 3 ∷ []) 3
    ≡ take (max 3 1) (firsts same itself ((5 ∷ 6 ∷ []) ++ (5 ∷ 4 ∷ 3 ∷ [])) [])
merge_live-firsts_example = merge_live-firsts same itself (5 ∷ 6 ∷ []) (5 ∷ 4 ∷ 3 ∷ []) 3

merge_live-DistinctBy_example :
    DistinctBy itself (merge_live same itself (5 ∷ 6 ∷ []) (5 ∷ 4 ∷ 3 ∷ []) 3)
merge_live-DistinctBy_example =
    merge_live-DistinctBy same itself ==_refl (5 ∷ 6 ∷ []) (5 ∷ 4 ∷ 3 ∷ []) 3
