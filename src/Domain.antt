-- ===== src/Domain.antt =====
-- src/domain.rs: the types that the data layer hands to the API. A Rust `String` is the list of its
-- bytes; a number keeps its Rust width as a bound where a theorem needs it; `i64` times that are
-- only copied are natural numbers.
pub mod Token
use allfeat_explorer.Common.{ℕ, Bool, false, Option, none, List, [], Bytes}

pub record Block : Type 0 where
  pub number : ℕ
  pub hash : Bytes
  pub parent_hash : Bytes
  pub state_root : Bytes
  pub extrinsics_root : Bytes
  pub timestamp_ms : ℕ
  pub finalized : Bool
  pub extrinsic_count : ℕ
  pub event_count : ℕ
  pub author : Bytes
  pub author_name : Bytes
  pub ref_time : ℕ
  pub ref_time_pct : ℕ
  pub proof_size : ℕ
  pub spec_version : ℕ
  pub size_bytes : ℕ

pub data CallResult : Type 0 where
  success failed : CallResult

pub record EventField : Type 0 where
  pub name : Option Bytes
  pub value : Bytes

pub record EventRef : Type 0 where
  pub pallet : Bytes
  pub name : Bytes
  pub fields : List EventField

pub data EventPhase : Type 0 where
  initialization : EventPhase
  apply_extrinsic : ℕ → EventPhase
  finalization : EventPhase

-- The field `module` of the source is `pallet` here.
pub record BlockEvent : Type 0 where
  pub block_number : ℕ
  pub index : ℕ
  pub phase : EventPhase
  pub pallet : Bytes
  pub name : Bytes
  pub fields : List EventField
  pub timestamp_ms : ℕ

pub record CallField : Type 0 where
  pub name : Option Bytes
  pub type_name : Option Bytes
  pub value : Bytes

pub data ExtrinsicArgs : Type 0 where
  decoded : List CallField → ExtrinsicArgs
  raw : Bytes → ExtrinsicArgs

pub record Extrinsic : Type 0 where
  pub id : Bytes
  pub block_number : ℕ
  pub index : ℕ
  pub hash : Bytes
  pub pallet : Bytes
  pub call : Bytes
  pub signed : Bool
  pub signer : Option Bytes
  pub args : ExtrinsicArgs
  pub result : CallResult
  pub nonce : Option ℕ
  pub tip : ℕ
  pub fee : ℕ
  pub timestamp_ms : ℕ
  pub events : List EventRef

pub record Transfer : Type 0 where
  pub extrinsic : Extrinsic
  pub sender : Bytes
  pub recipient : Bytes
  pub amount : ℕ

pub record AtsFeedItem : Type 0 where
  pub ats_id : ℕ
  pub owner : Bytes
  pub version_index : ℕ
  pub is_initial : Bool
  pub is_latest : Bool
  pub version_count : ℕ
  pub commitment : Bytes
  pub protocol_version : ℕ
  pub block_number : ℕ
  pub extrinsic_id : Bytes
  pub timestamp_ms : ℕ
  pub signer : Bytes

pub record PageInfo : Type 0 where
  pub total : Option ℕ
  pub next_cursor : Option Bytes
  pub has_more : Bool

pub record Page (A : Type 0) : Type 0 where
  pub items : List A
  pub page_info : PageInfo

unfoldable pub empty_page : {A : Type 0} → Page A
empty_page = record {
  items = [];
  page_info = record { total = none; next_cursor = none; has_more = false };
}

pub record PageRequest : Type 0 where
  pub count : ℕ
  pub cursor : Option Bytes
