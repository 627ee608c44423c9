-- ===== src/Syncer/Plans.antt =====
-- internal/syncer/service.go: the plans that are stored, and what identifies an operation.
use gpt_owu_bridge.Base.{◌+◌, String, Option, none, some, Bool, ◌==◌, text_eq, if◌then◌else◌}
use gpt_owu_bridge.Domain.{Time, SourceSnapshot, SyncPlan}
use gpt_owu_bridge.Domain.Hash.{target_hash}
use gpt_owu_bridge.Storage.Types.{StoredPlan}
use gpt_owu_bridge.Owu.{Snapshot}
use gpt_owu_bridge.Syncer.Types.{plain_error, Service}
use gpt_owu_bridge.Syncer.Exec.{Exec, pure, ◌>>=◌, ◌>>◌, need, fresh_id}
use gpt_owu_bridge.Syncer.Checks.{create_idempotency_key, update_idempotency_key, semantic_payload}
use gpt_owu_bridge.Syncer.Repository.{nothing, alone, load_source, put_snapshot, put_plan}

abbrev business_hash_of : Option SourceSnapshot → String
business_hash_of none = ""
business_hash_of (some s) = s.business_hash

module _ {Bytes R : Type 0} (s : Service Bytes R) where
  unfoldable pub make_persisted_plan : SyncPlan → Time → Time → Exec Bytes R SyncPlan
  make_persisted_plan plan now ttl = do
    id ← fresh_id s "plan"
    pure (record plan { id = id; expires_at = now + ttl })

  -- `makeStoredPlan`, without the hash of the target that is expected; the owner, which the
  -- caller sets, is left out.
  abbrev plan_without :
      SyncPlan
      → String
      → SourceSnapshot
      → Option SourceSnapshot
      → Snapshot Bytes
      → Time
      → Bool
      → StoredPlan Bytes
  plan_without plan binding_id source previous desired now required = record {
    plan = plan;
    owner_id = "";
    binding_id = binding_id;
    source_snapshot_hash = source.business_hash;
    previous_snapshot_hash = business_hash_of previous;
    expected_target_hash = "";
    expected_target_conflict_hash = "";
    desired_target = record (desired.normalized) { business_hash = "" };
    desired_conflict_hash = desired.conflict_hash;
    desired_raw_chat = desired.raw_chat;
    desired_raw_envelope = desired.raw_envelope;
    desired_archived = desired.archived;
    desired_pinned = desired.pinned;
    desired_folder_id = desired.folder_id;
    payload_hash = "";
    confirmation_required = required;
    confirmed_at = none;
    created_at = now;
  }

  -- `makeStoredPlan`, with none for the error of the hash.
  unfoldable pub make_stored_plan :
      SyncPlan
      → String
      → SourceSnapshot
      → Option SourceSnapshot
      → Option (Snapshot Bytes)
      → Snapshot Bytes
      → Time
      → Bool
      → Option (StoredPlan Bytes)
  make_stored_plan plan binding_id source previous none desired now required =
      some (plan_without plan binding_id source previous desired now required)
  make_stored_plan plan binding_id source previous (some actual) desired now required =
      elim (target_hash s.platform.codec actual.normalized) [
        | none ↦ none
        | some hash ↦
            some (record (plan_without plan binding_id source previous desired now required) {
              expected_target_hash = hash;
              expected_target_conflict_hash = actual.conflict_hash;
            })
      ]

  unfoldable pub persist_plan : SourceSnapshot → StoredPlan Bytes → Exec Bytes R (Unit {0})
  persist_plan snapshot plan = do
    put_snapshot s (alone "persist source snapshot") snapshot
    put_plan s (alone "persist sync plan") plan

  abbrev pub idempotency_key : StoredPlan Bytes → Exec Bytes R String
  idempotency_key plan =
      if plan.binding_id == ""
      then (load_source s (alone "load planned source") plan.source_snapshot_hash >>= λ source.
          pure (create_idempotency_key s source))
      else pure (update_idempotency_key s plan)

  -- `operationIdentity`: the idempotency key and the digest.
  unfoldable pub operation_identity : StoredPlan Bytes → Exec Bytes R (String × String)
  operation_identity plan = do
    key ← idempotency_key plan
    payload ← need (semantic_payload s plan) (nothing (plain_error "marshal operation payload"))
    pure (key, payload)
