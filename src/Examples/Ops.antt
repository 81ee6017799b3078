-- ===== src/Examples/Ops.antt =====
-- The theorems on the accounts and the ATS operations of a block, at concrete events.
use allfeat_explorer.Common.{ℕ, ◌≡◌, ◌⊎◌, ◌↔◌, none, some, List, [], ◌∷◌, Bytes, All, In}
use allfeat_explorer.Common.Members.{DistinctBy}
use allfeat_explorer.Common
use allfeat_explorer.Projections.Accounts.{collect_touched}
use allfeat_explorer.Projections.Touched.{Signs, collect_touched-exact}
use allfeat_explorer.Projections.Ats.{DecodedAtsEvent, created, updated, project}
use allfeat_explorer.Projections.Versions.{Counted, project-Counted}

abbrev alice : Bytes
alice = 1 ∷ 2 ∷ []

abbrev bob : Bytes
bob = 3 ∷ 4 ∷ []

abbrev moved : List Bytes
moved = alice ∷ bob ∷ alice ∷ []

abbrev signers : List (Common.Option Bytes)
signers = none ∷ some bob ∷ []

collect_touched-exact_example :
    DistinctBy (λ (a : Bytes). a) (collect_touched moved signers)
    × ((a : Bytes) → In a (collect_touched moved signers) ↔ (In a moved ⊎ Signs a signers))
collect_touched-exact_example = collect_touched-exact moved signers

abbrev decoded : List (ℕ × DecodedAtsEvent)
decoded = (1, created 7 alice [] 1) ∷ (2, updated 5 3 [] 1) ∷ []

project-Counted_example : All (Counted (project decoded 12)) (project decoded 12).version_inserts
project-Counted_example = project-Counted decoded 12
