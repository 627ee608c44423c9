-- ===== src/Storage/Types.antt =====
-- internal/storage/types.go: the records that cross the store's interface, and its errors.
use gpt_owu_bridge.Base.{ℕ, String, List, Bool, Option, Eq}
use gpt_owu_bridge.Domain.{
  Time, Binding, MessageMapping, Operation, OperationStatus, SourceIdentity, SourceSnapshot,
  SyncPlan, TargetSnapshot,
}
use gpt_owu_bridge.Domain.Hash.{Codec}

-- The named errors, and those that carry a text only.
pub data StorageError : Type 0 where
  identity_mismatch corrupt not_found immutable_conflict idempotency_conflict : StorageError
  source_already_claimed invalid_transition untrusted_target operation_in_progress : StorageError
  plan_expired confirmation_required binding_version_changed : StorageError
  refused : String → StorageError

pub record Installation : Type 0 where
  pub id : String
  pub owner_id : String
  pub owu_site_id : String
  pub owu_account_id : String
  pub created_at : Time

pub record StoredPlan (Bytes : Type 0) : Type 0 where
  pub plan : SyncPlan
  pub owner_id : String
  pub binding_id : String
  pub source_snapshot_hash : String
  pub previous_snapshot_hash : String
  pub expected_target_hash : String
  pub expected_target_conflict_hash : String
  pub desired_target : TargetSnapshot
  pub desired_conflict_hash : String
  pub desired_raw_chat : Bytes
  pub desired_raw_envelope : Bytes
  pub desired_archived : Bool
  pub desired_pinned : Bool
  pub desired_folder_id : String
  pub payload_hash : String
  pub confirmation_required : Bool
  pub confirmed_at : Option Time
  pub created_at : Time

pub data OperationKind : Type 0 where
  create update archive : OperationKind

abbrev pub OperationKind-discrete : Discrete OperationKind
OperationKind-discrete = hlevel

instance abbrev pub kind_eq : Eq OperationKind
kind_eq = record { same = OperationKind-discrete }

abbrev pub OperationStatus-discrete : Discrete OperationStatus
OperationStatus-discrete = hlevel

instance abbrev pub status_eq : Eq OperationStatus
status_eq = record { same = OperationStatus-discrete }

pub record OperationRecord : Type 0 where
  pub operation : Operation
  pub kind : OperationKind
  pub plan_id : String
  pub payload_hash : String
  pub target_chat_id : String
  pub created_at : Time
  pub updated_at : Time

pub record CreateRequest : Type 0 where
  pub owner_id : String
  pub operation_id : String
  pub idempotency_key : String
  pub plan_id : String
  pub payload_hash : String
  pub source_snapshot_hash : String

pub record PrepareOperationRequest : Type 0 where
  pub owner_id : String
  pub operation_id : String
  pub idempotency_key : String
  pub kind : OperationKind
  pub binding_id : String
  pub plan_id : String
  pub payload_hash : String

pub record TransitionPatch : Type 0 where
  pub target_chat_id : String
  pub remote_receipt_id : String
  pub needs_readback : Option Bool
  pub error_code : String
  pub verified_at : Option Time

pub record VerifiedCreate : Type 0 where
  pub operation_id : String
  pub binding_id : String
  pub target_chat_id : String
  pub remote_receipt_id : String
  pub source_identity : SourceIdentity
  pub message_mappings : List MessageMapping
  pub title_policy : String
  pub verified_target : TargetSnapshot
  pub verified_conflict_hash : String

pub record TargetBaseline : Type 0 where
  pub binding_id : String
  pub snapshot : TargetSnapshot
  pub snapshot_hash : String
  pub conflict_hash : String
  pub source_snapshot_hash : String
  pub binding_version : ℕ
  pub operation_id : String
  pub verified_at : Time

pub record BindingState : Type 0 where
  pub binding : Binding
  pub source_snapshot : SourceSnapshot
  pub target_baseline : TargetBaseline

-- What the store takes from Go's library, besides the codec: `strings.TrimSpace`, `json.Valid`,
-- `len` of bytes, and `json.Marshal` of a stored plan.
pub record Platform (Bytes : Type 0) : Type 0 where
  pub codec : Codec Bytes
  pub trim : String → String
  pub valid_json : Bytes → Bool
  pub is_empty : Bytes → Bool
  pub marshal_stored : StoredPlan Bytes → Option Bytes
