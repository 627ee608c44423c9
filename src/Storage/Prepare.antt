-- ===== src/Storage/Prepare.antt =====
-- internal/storage/operations.go: `PrepareCreate` and `PrepareBindingOperation`.
use gpt_owu_bridge.Base.{
  String, [], ◌∷◌, none, some, Bool, true, false, not, ◌&&◌, ◌||◌, ◌==◌, text_eq, nat_eq,
  if◌then◌else◌, find_first, joined, Result, ok, err, ◌>>=◌, ◌>>◌, refuse_if,
}
use gpt_owu_bridge.Domain.{Time}
use gpt_owu_bridge.Storage.Types.{
  StorageError, identity_mismatch, immutable_conflict, idempotency_conflict, source_already_claimed,
  operation_in_progress, binding_version_changed, refused, Installation, StoredPlan, create, update,
  archive, kind_eq, status_eq, OperationRecord, CreateRequest, PrepareOperationRequest,
  TargetBaseline, Platform,
}
use gpt_owu_bridge.Storage.Tables.{
  Db, OperationRow, IntentRow, find_binding, find_blocker, insert_operation, insert_intent,
}
use gpt_owu_bridge.Storage.Records.{or_fail, get_plan, get_source_snapshot, source_alias}
use gpt_owu_bridge.Storage.Operations.{
  Failure, failure, failure_at, plainly, scan_operation, operation_matches, get_operation,
  get_operation_by_idempotency, validate_executable_plan, new_operation, insertion_error, saved,
}
use gpt_owu_bridge.Storage.Allowed.{validate_allowed_binding, get_target_baseline}

module _ {Bytes : Type 0} (p : Platform Bytes) where
  -- `insertPreparedOperation`: nothing that is not resolved may hold the lock.
  unfoldable pub insert_prepared_operation :
      OperationRow → Db Bytes → Result StorageError (OperationRecord × Db Bytes)
  insert_prepared_operation row db = do
    refuse_if (p.trim row.operation_id == "" || p.trim row.idempotency_key == "")
        (refused "operation ID and idempotency key are required")
    elim (find_blocker db row.lock_key) [
      | some _ ↦ err operation_in_progress
      | none ↦
          saved insertion_error (insert_operation db row) >>= λ db'. ok (scan_operation row, db')
    ]

  abbrev pub check_request :
      Installation → String → String → String → String → Result StorageError (Unit {0})
  check_request installation owner id key payload = do
    refuse_if (not (owner == "") && not (owner == installation.owner_id)) identity_mismatch
    refuse_if (p.trim id == "" || p.trim key == "" || p.trim payload == "")
        (refused "operation ID, idempotency key, and execution payload hash are required")

  -- The lock of a creation, by the digest of the source's alias.
  abbrev pub create_lock : String → String
  create_lock alias = joined ("create:" ∷ p.codec.sha256_hex (p.codec.text alias) ∷ [])

  -- A source that is claimed already is refused, with the operation that claimed it.
  abbrev check_claim : Db Bytes → String → Result Failure (Unit {0})
  check_claim db alias = elim (find_first (λ r. r.source_alias == alias) db.intents) [
    | none ↦ ok tt
    | some r ↦ do
      existing ← plainly (get_operation db r.operation_id)
      err (failure_at existing source_already_claimed)
  ]

  -- The row of the intent of a creation.
  abbrev pub new_intent : OperationRecord → StoredPlan Bytes → String → Time → IntentRow
  new_intent operation plan alias now = record {
    operation_id = operation.operation.id;
    source_snapshot_hash = plan.source_snapshot_hash;
    source_alias = alias;
    created_at = now;
  }

  -- The writes of `PrepareCreate`: the operation, then the intent.
  unfoldable pub write_create :
      Installation
      → CreateRequest
      → StoredPlan Bytes
      → String
      → Time
      → Db Bytes
      → Result Failure (OperationRecord × Bool × Db Bytes)
  write_create installation request plan alias now db = do
    (operation, db') ← plainly (
        insert_prepared_operation
          (new_operation installation.owner_id request.operation_id request.idempotency_key create
            "" (create_lock alias) plan.plan.id request.payload_hash now)
          db)
    db'' ← plainly (
        saved (λ _. refused "persist trusted create intent")
          (insert_intent db' (new_intent operation plan alias now)))
    ok (operation, true, db'')

  -- The part of `PrepareCreate` after the look-up of the idempotency key.
  unfoldable pub create_operation :
      Installation
      → CreateRequest
      → Time
      → Db Bytes
      → Result Failure (OperationRecord × Bool × Db Bytes)
  create_operation installation request now db = do
    plan ← plainly (get_plan p db request.plan_id)
    refuse_if (not (plan.binding_id == "") || not (plan.plan.binding_version == 0))
        (failure (refused "create plan cannot reference an existing binding"))
    refuse_if
        (not (request.source_snapshot_hash == "")
          && not (request.source_snapshot_hash == plan.source_snapshot_hash))
        (failure immutable_conflict)
    plainly (validate_executable_plan plan now)
    snapshot ← plainly (get_source_snapshot p db plan.source_snapshot_hash)
    alias ← plainly (source_alias p snapshot)
    check_claim db alias
    write_create installation request plan alias now db

  -- `PrepareCreate`: the operation, whether it is new, and the database.
  unfoldable pub prepare_create :
      Installation
      → CreateRequest
      → Time
      → Db Bytes
      → Result Failure (OperationRecord × Bool × Db Bytes)
  prepare_create installation request now db = do
    plainly (
        check_request installation request.owner_id request.operation_id request.idempotency_key
          request.payload_hash)
    elim (get_operation_by_idempotency db request.idempotency_key) [
      | some existing ↦
          if operation_matches existing create "" request.payload_hash
          then ok (existing, false, db)
          else err (failure_at existing idempotency_conflict)
      | none ↦ create_operation installation request now db
    ]

  -- What the plan of an update expects of the verified baseline.
  abbrev check_expected : StoredPlan Bytes → TargetBaseline → Result Failure (Unit {0})
  check_expected plan baseline = do
    refuse_if
        (not (plan.expected_target_hash == "")
          && not (plan.expected_target_hash == baseline.snapshot_hash))
        (failure immutable_conflict)
    refuse_if
        (not (plan.expected_target_conflict_hash == "")
          && not (plan.expected_target_conflict_hash == baseline.conflict_hash))
        (failure immutable_conflict)

  -- The write of `PrepareBindingOperation`.
  unfoldable pub write_binding_operation :
      Installation
      → PrepareOperationRequest
      → StoredPlan Bytes
      → Time
      → Db Bytes
      → Result Failure (OperationRecord × Bool × Db Bytes)
  write_binding_operation installation request plan now db = do
    (operation, db') ← plainly (
        insert_prepared_operation
          (new_operation installation.owner_id request.operation_id request.idempotency_key
            request.kind request.binding_id (joined ("binding:" ∷ request.binding_id ∷ []))
            plan.plan.id request.payload_hash now)
          db)
    ok (operation, true, db')

  -- The part of `PrepareBindingOperation` after the look-up of the idempotency key.
  unfoldable pub binding_operation :
      Installation
      → PrepareOperationRequest
      → Time
      → Db Bytes
      → Result Failure (OperationRecord × Bool × Db Bytes)
  binding_operation installation request now db = do
    plainly (validate_allowed_binding db installation request.binding_id)
    plan ← plainly (get_plan p db request.plan_id)
    refuse_if (not (plan.binding_id == request.binding_id)) (failure immutable_conflict)
    plainly (validate_executable_plan plan now)
    row ← plainly (or_fail (find_binding db request.binding_id) (refused "read binding version"))
    refuse_if (not (row.version == plan.plan.binding_version)) (failure binding_version_changed)
    baseline ← plainly (get_target_baseline p.codec db request.binding_id row.version)
    check_expected plan baseline
    write_binding_operation installation request plan now db

  -- `PrepareBindingOperation`.
  unfoldable pub prepare_binding_operation :
      Installation
      → PrepareOperationRequest
      → Time
      → Db Bytes
      → Result Failure (OperationRecord × Bool × Db Bytes)
  prepare_binding_operation installation request now db = do
    refuse_if (not (request.owner_id == "") && not (request.owner_id == installation.owner_id))
        (failure identity_mismatch)
    refuse_if (not (request.kind == update) && not (request.kind == archive))
        (failure (refused "binding operation must be update or archive"))
    refuse_if (request.binding_id == "") (failure (refused "binding ID is required"))
    plainly (
        check_request installation request.owner_id request.operation_id request.idempotency_key
          request.payload_hash)
    elim (get_operation_by_idempotency db request.idempotency_key) [
      | some existing ↦
          if operation_matches existing request.kind request.binding_id request.payload_hash
          then ok (existing, false, db)
          else err (failure_at existing idempotency_conflict)
      | none ↦ binding_operation installation request now db
    ]
