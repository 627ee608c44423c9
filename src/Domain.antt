-- ===== src/Domain.antt =====
-- internal/domain/types.go: the records that the other parts share. A time is the number of
-- nanoseconds since Go's zero time, so that `IsZero` is the test for 0; the int counters and the
-- orders of messages carry no bound.
pub mod Hash
use gpt_owu_bridge.Base.{ℕ, String, List, Option, Bool}
use gpt_owu_bridge.Base.Int.{ℤ}

abbrev pub Time : Type 0
Time = ℕ

-- Constants of the package.
abbrev pub source_chatgpt_share : String
source_chatgpt_share = "chatgpt_share"

abbrev pub parser_version : String
parser_version = "chatgpt-share-ref-v2"

abbrev pub policy_version : String
policy_version = "preview-policy-v2"

abbrev pub evidence_unknown : String
evidence_unknown = "unknown"

abbrev pub evidence_candidate : String
evidence_candidate = "candidate"

abbrev pub evidence_verified : String
evidence_verified = "verified"

abbrev pub title_follow_source : String
title_follow_source = "follow_source"

abbrev pub title_target_override : String
title_target_override = "target_override"

pub record SourceIdentity : Type 0 where
  pub candidate_id : String
  pub evidence : String
  pub basis : String

pub record UnsupportedItem : Type 0 where
  pub node_id : String
  pub kind : String
  pub detail : String

pub record ContentDiagnostic : Type 0 where
  pub source_id : String
  pub node_id : String
  pub role : String
  pub content_type : String
  pub disposition : String
  pub detail : String

pub record Coverage : Type 0 where
  pub status : String
  pub selected_messages : ℕ
  pub excluded_internal_nodes : ℕ
  pub excluded_non_message_nodes : ℕ
  pub unsupported : List UnsupportedItem
  pub diagnostics : List ContentDiagnostic
  pub limitations : List String

pub record Message : Type 0 where
  pub id : String
  pub node_id : String
  pub role : String
  pub channel : String
  pub parts : List String
  pub parent_node_id : String
  pub child_node_ids : List String
  pub order : ℤ
  pub source_created_at : Option Time

pub record SourceSnapshot : Type 0 where
  pub source_type : String
  pub identity : SourceIdentity
  pub share_id : String
  pub title : String
  pub messages : List Message
  pub current_node_id : String
  pub source_created_at : Option Time
  pub fetched_at : Time
  pub parser_version : String
  pub coverage : Coverage
  pub business_hash : String

pub record MessageMapping : Type 0 where
  pub source_message_id : String
  pub target_message_id : String

pub record Binding : Type 0 where
  pub id : String
  pub installation_id : String
  pub principal_id : String
  pub owu_site_id : String
  pub owu_account_id : String
  pub target_chat_id : String
  pub created_by_operation : String
  pub source_identity : SourceIdentity
  pub message_mappings : List MessageMapping
  pub title_policy : String
  pub version : ℕ

pub record TargetMessage : Type 0 where
  pub id : String
  pub source_id : String
  pub role : String
  pub channel : String
  pub parts : List String
  pub managed : Bool
  pub order : ℤ

pub record TargetSnapshot : Type 0 where
  pub offline_simulation : Bool
  pub title : String
  pub messages : List TargetMessage
  pub current_message_id : String
  pub business_hash : String

pub record MessageChange : Type 0 where
  pub source_id : String
  pub kind : String
  pub detail : String

pub record Diff : Type 0 where
  pub added : List MessageChange
  pub modified : List MessageChange
  pub scope_reduced : List MessageChange
  pub target_conflicts : List MessageChange
  pub title_change : String
  pub previous_title : String
  pub source_title : String
  pub target_title : String

-- The values that the previews give to `SyncPlan.Status`.
pub data PlanStatus : Type 0 where
  needs_binding_confirmation unsupported_content conflict no_change ready : PlanStatus

pub record SyncPlan : Type 0 where
  pub id : String
  pub read_only : Bool
  pub status : PlanStatus
  pub source_snapshot_hash : String
  pub binding_version : ℕ
  pub target_baseline_hash : String
  pub parser_version : String
  pub policy_version : String
  pub diff : Diff
  pub allowed_actions : List String
  pub next_action : String
  pub expires_at : Time

pub data OperationStatus : Type 0 where
  prepared applying verifying succeeded failed needs_reconciliation : OperationStatus

pub record Operation : Type 0 where
  pub id : String
  pub idempotency_key : String
  pub binding_id : String
  pub status : OperationStatus
  pub attempt_count : ℕ
  pub needs_readback : Bool
  pub last_error_code : String
  pub remote_receipt_id : String
  pub verified_at : Option Time
