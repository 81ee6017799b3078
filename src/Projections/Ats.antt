-- ===== src/Projections/Ats.antt =====
-- src/indexer/projections/ats.rs: `project`, which turns the decoded ATS events of a block into rows and
-- operations. The extrinsics, which the code does not read, are left out.
use allfeat_explorer.Common.{ℕ, ◌+◌, Bool, true, false, ◌&&◌, List, [], ◌∷◌, ◌++◌, Bytes, min}
use allfeat_explorer.Decimal.{u32_max}

pub record AtsRegistryRow : Type 0 where
  pub id : ℕ
  pub owner : Bytes
  pub created_block : ℕ
  pub created_ext_idx : ℕ
  pub version_count : ℕ

pub record AtsVersionRow : Type 0 where
  pub ats_id : ℕ
  pub version : ℕ
  pub block_num : ℕ
  pub ext_idx : ℕ
  pub commitment : Bytes
  pub protocol_version : ℕ

pub record AtsVersionCountBump : Type 0 where
  pub ats_id : ℕ
  pub version_count : ℕ

pub record AtsOps : Type 0 where
  pub registry_inserts : List AtsRegistryRow
  pub version_inserts : List AtsVersionRow
  pub version_count_bumps : List AtsVersionCountBump
  pub revocations : List ℕ

abbrev pub no_ops : AtsOps
no_ops = record {
  registry_inserts = [];
  version_inserts = [];
  version_count_bumps = [];
  revocations = [];
}

abbrev pub is_nil : {A : Type 0} → List A → Bool
is_nil [] = true
is_nil (x ∷ xs) = false

unfoldable pub is_empty : AtsOps → Bool
is_empty ops =
    is_nil ops.registry_inserts
    && (is_nil ops.version_inserts && (is_nil ops.version_count_bumps && is_nil ops.revocations))

-- `created ats_id owner commitment protocol_version`, `updated ats_id version commitment
-- protocol_version` and `revoked ats_id`.
pub data DecodedAtsEvent : Type 0 where
  created : ℕ → Bytes → Bytes → ℕ → DecodedAtsEvent
  updated : ℕ → ℕ → Bytes → ℕ → DecodedAtsEvent
  revoked : ℕ → DecodedAtsEvent

unfoldable pub version_row : ℕ → ℕ → ℕ → ℕ → Bytes → ℕ → AtsVersionRow
version_row block_num ext_idx ats_id version commitment protocol_version = record {
  ats_id = ats_id;
  version = version;
  block_num = block_num;
  ext_idx = ext_idx;
  commitment = commitment;
  protocol_version = protocol_version;
}

-- One round of the loop.
unfoldable pub project_event : ℕ → ℕ → DecodedAtsEvent → AtsOps → AtsOps
unfolding version_row
project_event block_num ext_idx (created ats_id owner commitment protocol_version) ops =
    record ops {
      registry_inserts =
          ops.registry_inserts
          ++ (record {
            id = ats_id;
            owner = owner;
            created_block = block_num;
            created_ext_idx = ext_idx;
            version_count = 1;
          })
            ∷ [];
      version_inserts =
          ops.version_inserts
          ++ version_row block_num ext_idx ats_id 0 commitment protocol_version ∷ [];
    }
project_event block_num ext_idx (updated ats_id version commitment protocol_version) ops =
    record ops {
      version_inserts =
          ops.version_inserts
          ++ version_row block_num ext_idx ats_id version commitment protocol_version ∷ [];
      version_count_bumps =
          ops.version_count_bumps
          ++ (record { ats_id = ats_id; version_count = min (version + 1) u32_max }) ∷ [];
    }
project_event block_num ext_idx (revoked ats_id) ops = record ops {
  revocations = ops.revocations ++ ats_id ∷ [];
}

unfoldable pub project_events : List (ℕ × DecodedAtsEvent) → ℕ → AtsOps → AtsOps
unfolding project_event
project_events [] block_num ops = ops
project_events ((ext_idx, evt) ∷ decoded) block_num ops =
    project_events decoded block_num (project_event block_num ext_idx evt ops)

unfoldable pub project : List (ℕ × DecodedAtsEvent) → ℕ → AtsOps
unfolding project_events
project decoded block_num = project_events decoded block_num no_ops
