-- ===== src/Storage/Tables.antt =====
-- internal/storage/migrations/001_initial.sql: the tables as lists of rows in the order of
-- insertion, with the constraints that an insertion meets. Columns of JSON hold bytes; the columns
-- of nanoseconds hold times, and those of 0 and 1 hold Booleans.
use gpt_owu_bridge.Base.{
  ℕ, ◌^◌, String, List, [], ◌∷◌, ◌++◌, Option, none, some, Bool, true, false, not, ◌&&◌, ◌||◌, ◌==◌,
  text_eq, nat_eq, if◌then◌else◌, find_first, ltb, Result, ok, err,
}
use gpt_owu_bridge.Domain.{
  Time, OperationStatus, prepared, applying, verifying, succeeded, failed, needs_reconciliation,
}
use gpt_owu_bridge.Storage.Types.{OperationKind}

pub record SourceRow (Bytes : Type 0) : Type 0 where
  pub business_hash : String
  pub payload : Bytes
  pub created_at : Time

pub record PlanRow (Bytes : Type 0) : Type 0 where
  pub plan_id : String
  pub owner_id : String
  pub binding_id : String
  pub source_snapshot_hash : String
  pub previous_snapshot_hash : String
  pub expected_target_hash : String
  pub expected_target_conflict_hash : String
  pub desired_target : Bytes
  pub desired_conflict_hash : String
  pub desired_raw_chat : Bytes
  pub desired_raw_envelope : Bytes
  pub desired_archived : Bool
  pub desired_pinned : Bool
  pub desired_folder_id : String
  pub plan : Bytes
  pub payload_hash : String
  pub binding_version : ℕ
  pub confirmation_required : Bool
  pub confirmed_at : Option Time
  pub created_at : Time
  pub expires_at : Time

pub record OperationRow : Type 0 where
  pub operation_id : String
  pub owner_id : String
  pub idempotency_key : String
  pub kind : OperationKind
  pub binding_id : String
  pub lock_key : String
  pub plan_id : String
  pub payload_hash : String
  pub status : OperationStatus
  pub attempt_count : ℕ
  pub needs_readback : Bool
  pub last_error_code : String
  pub remote_receipt_id : String
  pub target_chat_id : String
  pub verified_at : Option Time
  pub created_at : Time
  pub updated_at : Time

pub record IntentRow : Type 0 where
  pub operation_id : String
  pub source_snapshot_hash : String
  pub source_alias : String
  pub created_at : Time

pub record BindingRow (Bytes : Type 0) : Type 0 where
  pub binding_id : String
  pub installation_id : String
  pub owner_id : String
  pub owu_site_id : String
  pub owu_account_id : String
  pub target_chat_id : String
  pub created_by_operation : String
  pub source_identity : Bytes
  pub title_policy : String
  pub version : ℕ
  pub last_source_snapshot_hash : String
  pub created_at : Time
  pub updated_at : Time

pub record AllowRow : Type 0 where
  pub target_chat_id : String
  pub binding_id : String
  pub installation_id : String
  pub owner_id : String
  pub owu_site_id : String
  pub owu_account_id : String
  pub creation_operation_id : String
  pub verified_at : Time

pub record MappingRow : Type 0 where
  pub binding_id : String
  pub source_message_id : String
  pub target_message_id : String

pub record BaselineRow (Bytes : Type 0) : Type 0 where
  pub operation_id : String
  pub binding_id : String
  pub binding_version : ℕ
  pub source_snapshot_hash : String
  pub snapshot_hash : String
  pub conflict_hash : String
  pub snapshot : Bytes
  pub verified_at : Time

pub record Db (Bytes : Type 0) : Type 0 where
  pub sources : List (SourceRow Bytes)
  pub plans : List (PlanRow Bytes)
  pub operations : List OperationRow
  pub intents : List IntentRow
  pub bindings : List (BindingRow Bytes)
  pub allowlist : List AllowRow
  pub mappings : List MappingRow
  pub baselines : List (BaselineRow Bytes)

module _ {ℓ} {A : Type ℓ} where
  -- A row passes the test.
  abbrev pub exists : (A → Bool) → List A → Bool
  exists p rows = elim (find_first p rows) [ none ↦ false | some _ ↦ true ]

  -- `UPDATE … WHERE`.
  unfoldable pub modify_where : (A → Bool) → (A → A) → List A → List A
  modify_where p f [] = []
  modify_where p f (r ∷ rows) = (if p r then f r else r) ∷ modify_where p f rows

-- `status IN ('prepared','applying','verifying','needs_reconciliation')`.
abbrev pub unresolved : OperationStatus → Bool
unresolved prepared = true
unresolved applying = true
unresolved verifying = true
unresolved needs_reconciliation = true
unresolved succeeded = false
unresolved failed = false

-- Which constraint an insertion breaks.
pub data Violation : Type 0 where
  unique_column lock_taken reference out_of_range : Violation

-- A 64-bit signed column with `CHECK (version > 0)`.
abbrev pub fits_version : ℕ → Bool
fits_version v = ltb 0 v && ltb v (2 ^ 63)

module _ {Bytes : Type 0} (db : Db Bytes) where
  unfoldable pub find_operation : String → Option OperationRow
  find_operation id = find_first (λ r. r.operation_id == id) db.operations

  unfoldable pub find_intent : String → Option IntentRow
  find_intent id = find_first (λ r. r.operation_id == id) db.intents

  unfoldable pub find_binding : String → Option (BindingRow Bytes)
  find_binding id = find_first (λ r. r.binding_id == id) db.bindings

  unfoldable pub find_source : String → Option (SourceRow Bytes)
  find_source hash = find_first (λ r. r.business_hash == hash) db.sources

  unfoldable pub find_plan : String → Option (PlanRow Bytes)
  find_plan id = find_first (λ r. r.plan_id == id) db.plans

  -- The unresolved operation that holds a lock.
  unfoldable pub find_blocker : String → Option OperationRow
  find_blocker lock = find_first (λ r. r.lock_key == lock && unresolved r.status) db.operations

  unfoldable pub insert_operation : OperationRow → Result Violation (Db Bytes)
  insert_operation row =
      if exists (λ r. r.operation_id == row.operation_id) db.operations
        || exists (λ r. r.idempotency_key == row.idempotency_key) db.operations
      then err unique_column
      else if unresolved row.status
          && exists (λ r. r.lock_key == row.lock_key && unresolved r.status) db.operations
      then err lock_taken
      else if not (exists (λ r. r.plan_id == row.plan_id) db.plans)
      then err reference
      else ok (record db { operations = db.operations ++ row ∷ [] })

  unfoldable pub insert_intent : IntentRow → Result Violation (Db Bytes)
  insert_intent row =
      if exists (λ r. r.operation_id == row.operation_id) db.intents
        || exists (λ r. r.source_alias == row.source_alias) db.intents
      then err unique_column
      else if not (exists (λ r. r.operation_id == row.operation_id) db.operations)
          || not (exists (λ r. r.business_hash == row.source_snapshot_hash) db.sources)
      then err reference
      else ok (record db { intents = db.intents ++ row ∷ [] })

  unfoldable pub insert_binding : BindingRow Bytes → Result Violation (Db Bytes)
  insert_binding row =
      if not (fits_version row.version)
      then err out_of_range
      else if exists (λ r. r.binding_id == row.binding_id) db.bindings
          || exists (λ r. r.target_chat_id == row.target_chat_id) db.bindings
          || exists (λ r. r.created_by_operation == row.created_by_operation) db.bindings
      then err unique_column
      else if not (exists (λ r. r.operation_id == row.created_by_operation) db.intents)
          || not (exists (λ r. r.business_hash == row.last_source_snapshot_hash) db.sources)
      then err reference
      else ok (record db { bindings = db.bindings ++ row ∷ [] })

  unfoldable pub insert_allowed : AllowRow → Result Violation (Db Bytes)
  insert_allowed row =
      if exists (λ r. r.target_chat_id == row.target_chat_id) db.allowlist
        || exists (λ r. r.binding_id == row.binding_id) db.allowlist
        || exists (λ r. r.creation_operation_id == row.creation_operation_id) db.allowlist
      then err unique_column
      else if not (exists (λ r. r.binding_id == row.binding_id) db.bindings)
          || not (exists (λ r. r.operation_id == row.creation_operation_id) db.intents)
      then err reference
      else ok (record db { allowlist = db.allowlist ++ row ∷ [] })

  unfoldable pub insert_mapping : MappingRow → Result Violation (Db Bytes)
  insert_mapping row =
      if exists
          (λ r. r.binding_id == row.binding_id && r.source_message_id == row.source_message_id)
          db.mappings
        || exists
            (λ r. r.binding_id == row.binding_id && r.target_message_id == row.target_message_id)
            db.mappings
      then err unique_column
      else if not (exists (λ r. r.binding_id == row.binding_id) db.bindings)
      then err reference
      else ok (record db { mappings = db.mappings ++ row ∷ [] })

  unfoldable pub insert_baseline : BaselineRow Bytes → Result Violation (Db Bytes)
  insert_baseline row =
      if exists (λ r. r.operation_id == row.operation_id) db.baselines
        || exists (λ r. r.binding_id == row.binding_id && r.binding_version == row.binding_version)
            db.baselines
      then err unique_column
      else if not (exists (λ r. r.operation_id == row.operation_id) db.operations)
          || not (exists (λ r. r.binding_id == row.binding_id) db.bindings)
          || not (exists (λ r. r.business_hash == row.source_snapshot_hash) db.sources)
      then err reference
      else ok (record db { baselines = db.baselines ++ row ∷ [] })
