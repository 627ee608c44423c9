-- ===== src/Syncer/Types.antt =====
-- internal/syncer/service.go: the service, its errors, and the world that it acts on.
use gpt_owu_bridge.Base.{ℕ, String, List, Option, Bool, Result}
use gpt_owu_bridge.Domain.{Time, Operation, TargetSnapshot}
use gpt_owu_bridge.Diff.Run.{PreviewError}
use gpt_owu_bridge.Storage.Types.{Installation, Platform, OperationKind, StorageError}
use gpt_owu_bridge.Storage.Tables.{Db}
use gpt_owu_bridge.Owu.{
  Snapshot, Identity, OwuCreateRequest, CreateReceipt, UpdateRequest, UpdateReceipt, WriteError,
  Documents,
}

-- `domain.ResultError`.
pub record ResultError : Type 0 where
  pub code : String
  pub message : String
  pub next_action : String
  pub retryable : Bool
  pub operation_id : String

-- The errors that the service returns: its own, the store's with the action that met it, those
-- of a preview, and those with a text only.
pub data ServiceError : Type 0 where
  result_error : ResultError → ServiceError
  storage_error : String → StorageError → ServiceError
  preview_error : PreviewError → ServiceError
  plain_error : String → ServiceError

-- What a method returns beside an error: an operation, or none for Go's zero value.
pub record Outcome : Type 0 where
  pub operation : Option Operation
  pub error : ServiceError

-- What the digest of an operation is taken of.
pub record ExecutionPayload (Bytes : Type 0) : Type 0 where
  pub kind : OperationKind
  pub binding_id : String
  pub source_snapshot_hash : String
  pub previous_snapshot_hash : String
  pub expected_target_hash : String
  pub expected_target_conflict_hash : String
  pub desired_target : TargetSnapshot
  pub desired_raw_chat : Bytes
  pub desired_archived : Bool
  pub desired_pinned : Bool
  pub desired_folder_id : String
  pub parser_version : String
  pub policy_version : String

-- How a call of the store goes: it works; it fails with nothing written; or it fails although
-- what it wrote has been committed.
pub data Fault : Type 0 where
  none_met lost unreported : Fault

-- What the service does not control: the clock, the random ids, the faults of the store, and the
-- target client, over a state of its own. None stands for an error.
pub record Environment (Bytes R : Type 0) : Type 0 where
  pub now : R → Time × R
  pub new_id : String → R → String × R
  pub fault : R → Fault × R
  pub verify_identity : R → Option Identity × R
  pub create : OwuCreateRequest Bytes → R → Result WriteError (CreateReceipt Bytes) × R
  pub read : String → R → Option (Snapshot Bytes) × R
  pub update : String → UpdateRequest Bytes → R → Result WriteError (UpdateReceipt Bytes) × R

pub record Service (Bytes R : Type 0) : Type 0 where
  pub platform : Platform Bytes
  pub documents : Documents Bytes
  pub marshal_payload : ExecutionPayload Bytes → Option Bytes
  pub decimal : ℕ → String
  pub environment : Environment Bytes R
  pub has_store : Bool
  pub has_target : Bool
  pub installation : Installation
  pub plan_ttl : Time
  pub stable_ids : Bool

-- A write that was sent to the target: a creation for an operation, or an update of a chat.
pub data Write : Type 0 where
  created : String → Write
  updated : String → String → Write

abbrev pub operation_of : Write → String
operation_of (created id) = id
operation_of (updated id target) = id

-- The database, the rest of the world, and the writes sent so far, the last one first.
pub record World (Bytes R : Type 0) : Type 0 where
  pub db : Db Bytes
  pub remote : R
  pub sent : List Write
