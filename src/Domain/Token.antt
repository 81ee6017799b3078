-- ===== src/Domain/Token.antt =====
-- src/domain.rs: the envelopes of the token allocation and the vesting amount.
pub mod Vesting
use allfeat_explorer.Common.{
  ℕ, zero, suc, ◌+◌, ◌-◌, ◌*◌, ◌/◌, ◌≤◌, ◌<◌, ◌≡◌, refl, Option, none, some, List, [], ◌∷◌, String,
  arith, if◌then◌else◌, leb, ◌==◌, ◌||◌, length, min, ◌^◌, get_elem?,
}
use text.Mathlib.Text.{◌==◌ as str_eq}

pub data EnvelopeId : Type 0 where
  teams kol private1 private2 public1 public2 public3 public4 airdrop : EnvelopeId
  community_rewards listing research_development reserve : EnvelopeId

unfoldable pub slug : EnvelopeId → String
slug teams = "teams"
slug kol = "kol"
slug private1 = "private1"
slug private2 = "private2"
slug public1 = "public1"
slug public2 = "public2"
slug public3 = "public3"
slug public4 = "public4"
slug airdrop = "airdrop"
slug community_rewards = "community-rewards"
slug listing = "listing"
slug research_development = "research-development"
slug reserve = "reserve"

unfoldable pub from_slug : String → Option EnvelopeId
from_slug s =
    if str_eq s "teams"
    then some teams
    else if str_eq s "kol"
    then some kol
    else if str_eq s "private1"
    then some private1
    else if str_eq s "private2"
    then some private2
    else if str_eq s "public1"
    then some public1
    else if str_eq s "public2"
    then some public2
    else if str_eq s "public3"
    then some public3
    else if str_eq s "public4"
    then some public4
    else if str_eq s "airdrop"
    then some airdrop
    else if str_eq s "community-rewards"
    then some community_rewards
    else if str_eq s "listing"
    then some listing
    else if str_eq s "research-development"
    then some research_development
    else if str_eq s "reserve"
    then some reserve
    else none

unfoldable pub all : List EnvelopeId
all =
    teams ∷ kol ∷ private1 ∷ private2 ∷ public1 ∷ public2 ∷ public3 ∷ public4 ∷ airdrop
    ∷ community_rewards ∷ listing ∷ research_development ∷ reserve ∷ []

unfoldable pub variant_index : EnvelopeId → ℕ
variant_index teams = 0
variant_index kol = 1
variant_index private1 = 2
variant_index private2 = 3
variant_index public1 = 4
variant_index public2 = 5
variant_index public3 = 6
variant_index public4 = 7
variant_index airdrop = 8
variant_index community_rewards = 9
variant_index listing = 10
variant_index research_development = 11
variant_index reserve = 12

-- A slug is read back as its envelope, and stands at the envelope's on-chain index in `ALL`.
pub from_slug-slug :
    (e : EnvelopeId) → (from_slug (slug e) ≡ some e) × (get_elem? all (variant_index e) ≡ some e)
unfolding from_slug slug all variant_index
from_slug-slug teams = (refl, refl)
from_slug-slug _ = (refl, refl)
