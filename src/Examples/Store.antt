-- ===== src/Examples/Store.antt =====
-- A store with an installation, a share, and the calls that create a binding and update it.
use gpt_owu_bridge.Base.{ℕ, String, List, [], ◌∷◌, ◌++◌, none, some, true, false}
use gpt_owu_bridge.Domain.{
  SourceSnapshot, TargetSnapshot, SourceIdentity, SyncPlan, ready, title_follow_source, applying,
  verifying, prepared, succeeded, evidence_unknown, parser_version,
}
use gpt_owu_bridge.Domain.Hash.{Codec}
use gpt_owu_bridge.Storage.Types.{
  Installation, Platform, StoredPlan, CreateRequest, TransitionPatch, VerifiedCreate,
  TargetBaseline, create, update,
}
use gpt_owu_bridge.Storage.Tables.{Db}
use gpt_owu_bridge.Storage.Records.{plan_row}
use gpt_owu_bridge.Storage.Operations.{new_operation}
use gpt_owu_bridge.Storage.Mappings.{mapping_row}
use gpt_owu_bridge.Storage.Bindings.{new_binding, new_allowed, new_baseline}
use gpt_owu_bridge.Storage.Calls.{Call, put_source, save, prepare, transition, finalize, run, empty}
use gpt_owu_bridge.Examples.Data.{question, share, target_question, chat}

-- Bytes that remember what they were made of.
pub data Payload : Type 0 where
  of_source : SourceSnapshot → Payload
  of_target : TargetSnapshot → Payload
  of_plan : SyncPlan → Payload
  of_identity : SourceIdentity → Payload
  of_text : String → Payload

abbrev pub payload_codec : Codec Payload
payload_codec = record {
  marshal_source = λ s. some (of_source s);
  unmarshal_source = λ b. elim b [ of_source s ↦ some s | _ ↦ none ];
  marshal_target = λ t. some (of_target t);
  unmarshal_target = λ b. elim b [ of_target t ↦ some t | _ ↦ none ];
  marshal_plan = λ p. some (of_plan p);
  unmarshal_plan = λ b. elim b [ of_plan p ↦ some p | _ ↦ none ];
  marshal_identity = λ i. some (of_identity i);
  unmarshal_identity = λ b. elim b [ of_identity i ↦ some i | _ ↦ none ];
  text = of_text;
  sha256_hex = λ b. elim b [
    | of_source s ↦ s.title
    | of_target t ↦ t.title
    | of_plan p ↦ p.id
    | of_identity i ↦ i.candidate_id
    | of_text s ↦ s
  ];
}

abbrev pub platform : Platform Payload
platform = record {
  codec = payload_codec;
  trim = λ s. s;
  valid_json = λ b. true;
  is_empty = λ b. false;
  marshal_stored = λ s. some (of_plan s.plan);
}

abbrev pub home : Installation
home = record {
  id = "i";
  owner_id = "me";
  owu_site_id = "site";
  owu_account_id = "acc";
  created_at = 1;
}

abbrev pub hashed_share : SourceSnapshot
hashed_share = record (share (question ∷ [])) { business_hash = "talk" }

abbrev pub live_chat : TargetSnapshot
live_chat = record (chat (target_question ∷ [])) {
  offline_simulation = false;
  business_hash = "talk";
}

abbrev pub plan_named : String → String → ℕ → StoredPlan Payload
plan_named id binding version = record {
  plan = record {
    id = id;
    read_only = true;
    status = ready;
    source_snapshot_hash = "talk";
    binding_version = version;
    target_baseline_hash = "";
    parser_version = parser_version;
    policy_version = "";
    diff = record {
      added = [];
      modified = [];
      scope_reduced = [];
      target_conflicts = [];
      title_change = "";
      previous_title = "";
      source_title = "";
      target_title = "";
    };
    allowed_actions = [];
    next_action = "";
    expires_at = 100;
  };
  owner_id = "me";
  binding_id = binding;
  source_snapshot_hash = "talk";
  previous_snapshot_hash = "";
  expected_target_hash = "";
  expected_target_conflict_hash = "";
  desired_target = live_chat;
  desired_conflict_hash = "";
  desired_raw_chat = of_text "{}";
  desired_raw_envelope = of_text "{}";
  desired_archived = false;
  desired_pinned = false;
  desired_folder_id = "";
  payload_hash = "";
  confirmation_required = false;
  confirmed_at = none;
  created_at = 1;
}

abbrev pub creation : CreateRequest
creation = record {
  owner_id = "me";
  operation_id = "o1";
  idempotency_key = "k1";
  plan_id = "p1";
  payload_hash = "h1";
  source_snapshot_hash = "talk";
}

abbrev pub patch : String → TransitionPatch
patch target = record {
  target_chat_id = target;
  remote_receipt_id = target;
  needs_readback = none;
  error_code = "";
  verified_at = none;
}

abbrev pub created : VerifiedCreate
created = record {
  operation_id = "o1";
  binding_id = "b";
  target_chat_id = "t";
  remote_receipt_id = "t";
  source_identity = record { candidate_id = "c"; evidence = evidence_unknown; basis = "" };
  message_mappings = record { source_message_id = "q"; target_message_id = "tq" } ∷ [];
  title_policy = title_follow_source;
  verified_target = live_chat;
  verified_conflict_hash = "talk";
}

abbrev pub renewed : TargetBaseline
renewed = record {
  binding_id = "b";
  snapshot = live_chat;
  snapshot_hash = "talk";
  conflict_hash = "talk";
  source_snapshot_hash = "talk";
  binding_version = 1;
  operation_id = "o2";
  verified_at = 9;
}

abbrev pub planned : List (Call Payload)
planned = put_source hashed_share 2 ∷ save (plan_named "p1" "" 0) 2 ∷ []

abbrev pub creating : List (Call Payload)
creating =
    prepare creation 3
    ∷ transition "o1" (prepared ∷ []) applying (patch "") 4
    ∷ transition "o1" (applying ∷ []) verifying (patch "t") 5
    ∷ finalize created 6
    ∷ []

-- The calls up to the binding.
abbrev pub history : List (Call Payload)
history = planned ++ creating

-- The store before a creation, after it, and with an update under verification.
abbrev pub planned_store : Db Payload
planned_store = run platform home planned empty

abbrev pub bound_store : Db Payload
bound_store = run platform home creating planned_store

-- A store with a binding, and an update of it under verification.
abbrev pub verifying_store : Db Payload
verifying_store = record {
  sources =
      record { business_hash = "talk"; payload = of_source hashed_share; created_at = 2 } ∷ [];
  plans =
      plan_row platform (record (plan_named "p2" "b" 1) { payload_hash = "p2" })
        (of_plan (plan_named "p2" "b" 1).plan) (of_target live_chat)
      ∷ [];
  operations =
      record (new_operation "me" "o1" "k1" create "b" "l1" "p1" "h1" 3) {
        status = succeeded;
        remote_receipt_id = "t";
        target_chat_id = "t";
      }
      ∷ record (new_operation "me" "o2" "k2" update "b" "l2" "p2" "h2" 7) { status = verifying }
      ∷ [];
  intents =
      record {
        operation_id = "o1";
        source_snapshot_hash = "talk";
        source_alias = "chatgpt_share:s";
        created_at = 3;
      }
      ∷ [];
  bindings = new_binding platform home created "talk" (of_text "c") 6 ∷ [];
  allowlist = new_allowed platform home created 6 ∷ [];
  mappings = mapping_row "b" (record { source_message_id = "q"; target_message_id = "tq" }) ∷ [];
  baselines = new_baseline platform "o1" "b" 1 "talk" "talk" "talk" (of_target live_chat) 6 ∷ [];
}

-- The store with the creation prepared.
abbrev pub prepared_store : Db Payload
prepared_store = run platform home (prepare creation 3 ∷ []) planned_store
