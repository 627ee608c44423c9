-- ===== src/Storage/Bindings.antt =====
-- internal/storage/bindings.go: the two calls that complete an operation on evidence read back.
use gpt_owu_bridge.Base.{
  ℕ, ◌+◌, ◌^◌, ◌%◌, String, List, some, Bool, false, not, ◌&&◌, ◌||◌, ◌==◌, text_eq, nat_eq,
  if◌then◌else◌, Result, ok, err, ◌>>=◌, ◌>>◌, refuse_if,
}
use gpt_owu_bridge.Domain.{Time, Binding, MessageMapping, SourceSnapshot, verifying, succeeded}
use gpt_owu_bridge.Domain.Hash.{target_hash}
use gpt_owu_bridge.Storage.Types.{
  StorageError, not_found, immutable_conflict, invalid_transition, untrusted_target,
  binding_version_changed, refused, Installation, create, update, kind_eq, status_eq,
  VerifiedCreate, TargetBaseline, StoredPlan, Platform,
}
use gpt_owu_bridge.Storage.Tables.{
  Db, OperationRow, BindingRow, AllowRow, BaselineRow, exists, modify_where, fits_version,
  find_operation, find_intent, find_binding, insert_binding, insert_allowed, insert_baseline,
}
use gpt_owu_bridge.Storage.Records.{or_fail, get_plan, get_source_snapshot}
use gpt_owu_bridge.Storage.Operations.{saved}
use gpt_owu_bridge.Storage.Allowed.{validate_allowed_binding}
use gpt_owu_bridge.Storage.Mappings.{
  validate_mappings, mappings_from_target, same_mappings, replace_mappings,
}

-- `UPDATE operations SET status = 'succeeded', … WHERE operation_id = ? AND status = 'verifying'`.
abbrev pub under_verification : String → OperationRow → Bool
under_verification id r = r.operation_id == id && r.status == verifying

module _ {Bytes : Type 0} (p : Platform Bytes) where
  -- The checks of `FinalizeVerifiedCreate` on its argument.
  abbrev pub check_verified : VerifiedCreate → Result StorageError (Unit {0})
  check_verified v = do
    refuse_if (v.operation_id == "" || v.binding_id == "" || v.target_chat_id == "")
        (refused "operation, binding, and target chat IDs are required")
    refuse_if (p.trim v.verified_conflict_hash == "")
        (refused "verified target conflict hash is required")
    refuse_if v.verified_target.offline_simulation
        (refused "offline simulation cannot become a verified target baseline")

  -- Its checks on the operation.
  abbrev pub check_created : OperationRow → VerifiedCreate → Result StorageError (Unit {0})
  check_created row v = do
    refuse_if (not (row.kind == create) || not (row.status == verifying)) invalid_transition
    refuse_if (row.target_chat_id == "" || not (row.target_chat_id == v.target_chat_id))
        untrusted_target
    refuse_if (row.remote_receipt_id == "") untrusted_target
    refuse_if
        (not (row.remote_receipt_id == "")
          && not (v.remote_receipt_id == "")
          && not (row.remote_receipt_id == v.remote_receipt_id))
        immutable_conflict

  -- Its checks on the mappings that the target itself shows, which must be those given.
  abbrev pub check_mapped : SourceSnapshot → VerifiedCreate → Result StorageError (Unit {0})
  check_mapped source v = do
    validate_mappings source (mappings_from_target v.verified_target)
    refuse_if (not (same_mappings v.message_mappings (mappings_from_target v.verified_target)))
        (refused "verified target mappings do not match the supplied creation mappings")

  abbrev pub new_binding : Installation → VerifiedCreate → String → Bytes → Time → BindingRow Bytes
  new_binding installation v source_hash identity now = record {
    binding_id = v.binding_id;
    installation_id = installation.id;
    owner_id = installation.owner_id;
    owu_site_id = installation.owu_site_id;
    owu_account_id = installation.owu_account_id;
    target_chat_id = v.target_chat_id;
    created_by_operation = v.operation_id;
    source_identity = identity;
    title_policy = v.title_policy;
    version = 1;
    last_source_snapshot_hash = source_hash;
    created_at = now;
    updated_at = now;
  }

  abbrev pub new_allowed : Installation → VerifiedCreate → Time → AllowRow
  new_allowed installation v now = record {
    target_chat_id = v.target_chat_id;
    binding_id = v.binding_id;
    installation_id = installation.id;
    owner_id = installation.owner_id;
    owu_site_id = installation.owu_site_id;
    owu_account_id = installation.owu_account_id;
    creation_operation_id = v.operation_id;
    verified_at = now;
  }

  abbrev pub new_baseline :
      String → String → ℕ → String → String → String → Bytes → Time → BaselineRow Bytes
  new_baseline id binding_id version source_hash sum conflict target now = record {
    operation_id = id;
    binding_id = binding_id;
    binding_version = version;
    source_snapshot_hash = source_hash;
    snapshot_hash = sum;
    conflict_hash = conflict;
    snapshot = target;
    verified_at = now;
  }

  -- The completed operation of a creation.
  abbrev pub finish_create : String → String → String → Time → Db Bytes → Db Bytes
  finish_create id binding_id receipt now db = record db {
    operations =
        modify_where (under_verification id)
          (λ r. record r {
            status = succeeded;
            binding_id = binding_id;
            needs_readback = false;
            remote_receipt_id = receipt;
            verified_at = some now;
            updated_at = now;
          })
          db.operations;
  }

  abbrev pub finish_update : String → Time → Db Bytes → Db Bytes
  finish_update id now db = record db {
    operations =
        modify_where (under_verification id)
          (λ r. record r {
            status = succeeded;
            needs_readback = false;
            verified_at = some now;
            updated_at = now;
          })
          db.operations;
  }

  -- The writes of `FinalizeVerifiedCreate`.
  unfoldable pub install_binding :
      Installation
      → VerifiedCreate
      → OperationRow
      → String
      → Bytes
      → Bytes
      → String
      → Time
      → Db Bytes
      → Result StorageError (Db Bytes)
  install_binding installation v row source_hash identity target target_sum now db = do
    db₁ ←
        saved (λ _. refused "install verified binding")
          (insert_binding db (new_binding installation v source_hash identity now))
    db₂ ←
        saved (λ _. refused "install target allowlist entry")
          (insert_allowed db₁ (new_allowed installation v now))
    db₃ ←
        saved (λ _. refused "save message mapping")
          (replace_mappings v.binding_id v.message_mappings db₂)
    db₄ ←
        saved (λ _. refused "persist verified target baseline")
          (insert_baseline db₃ (
            new_baseline v.operation_id v.binding_id 1 source_hash target_sum
              v.verified_conflict_hash target now))
    ok (
        finish_create v.operation_id v.binding_id
          (if row.remote_receipt_id == "" then v.remote_receipt_id else row.remote_receipt_id) now
          db₄)

  -- The binding that is returned.
  abbrev pub created_binding : Installation → VerifiedCreate → Binding
  created_binding installation v = record {
    id = v.binding_id;
    installation_id = installation.id;
    principal_id = installation.owner_id;
    owu_site_id = installation.owu_site_id;
    owu_account_id = installation.owu_account_id;
    target_chat_id = v.target_chat_id;
    created_by_operation = v.operation_id;
    source_identity = v.source_identity;
    message_mappings = v.message_mappings;
    title_policy = v.title_policy;
    version = 1;
  }

  -- `FinalizeVerifiedCreate`.
  unfoldable pub finalize_verified_create :
      Installation → VerifiedCreate → Time → Db Bytes → Result StorageError (Binding × Db Bytes)
  finalize_verified_create installation v now db = do
    check_verified v
    row ← or_fail (find_operation db v.operation_id) not_found
    check_created row v
    intent ← or_fail (find_intent db v.operation_id) untrusted_target
    source ← get_source_snapshot p db intent.source_snapshot_hash
    validate_mappings source v.message_mappings
    target_sum ← or_fail (target_hash p.codec v.verified_target) (refused "marshal target snapshot")
    check_mapped source v
    target ←
        or_fail (p.codec.marshal_target (record (v.verified_target) { business_hash = target_sum }))
          (refused "marshal verified target")
    identity ←
        or_fail (p.codec.marshal_identity v.source_identity) (refused "marshal source identity")
    db' ←
        install_binding installation v row intent.source_snapshot_hash identity target target_sum
          now db
    ok (created_binding installation v, db')

  -- `UPDATE bindings SET version = ?, … WHERE binding_id = ? AND version = ?`, with the number of
  -- rows checked afterwards.
  abbrev pub advances : String → ℕ → BindingRow Bytes → Bool
  advances id version r = r.binding_id == id && r.version == version

  unfoldable pub advance_binding :
      String → ℕ → ℕ → String → Time → Db Bytes → Result StorageError (Db Bytes)
  advance_binding id version next source_hash now db =
      if not (exists (advances id version) db.bindings)
      then err binding_version_changed
      else if not (fits_version next)
          || not (exists (λ r. r.business_hash == source_hash) db.sources)
      then err (refused "advance binding version")
      else ok (record db {
        bindings =
            modify_where (advances id version)
              (λ r. record r {
                version = next;
                last_source_snapshot_hash = source_hash;
                updated_at = now;
              })
              db.bindings;
      })

  -- The version after this one, in 64 bits.
  abbrev pub next_version : ℕ → ℕ
  next_version version = (version + 1) % 2 ^ 64

  -- The writes of `CompleteVerifiedUpdate`.
  unfoldable pub install_update :
      String
      → String
      → ℕ
      → String
      → List MessageMapping
      → String
      → String
      → Bytes
      → Time
      → Db Bytes
      → Result StorageError (Db Bytes)
  install_update id binding_id version source_hash mappings sum conflict target now db = do
    db₁ ← advance_binding binding_id version (next_version version) source_hash now db
    db₂ ← saved (λ _. refused "save message mapping") (replace_mappings binding_id mappings db₁)
    db₃ ←
        saved (λ _. refused "persist updated target baseline")
          (insert_baseline db₂
            (new_baseline id binding_id (next_version version) source_hash sum conflict target now))
    ok (finish_update id now db₃)

  -- The rest of `CompleteVerifiedUpdate`, once the plan has been read.
  unfoldable pub write_update :
      String
      → TargetBaseline
      → ℕ
      → OperationRow
      → BindingRow Bytes
      → StoredPlan Bytes
      → Time
      → Db Bytes
      → Result StorageError (Db Bytes)
  write_update id v version row binding plan now db = do
    refuse_if
        (not (plan.binding_id == row.binding_id) || not (plan.plan.binding_version == version))
        binding_version_changed
    source ← get_source_snapshot p db plan.source_snapshot_hash
    sum ← or_fail (target_hash p.codec v.snapshot) (refused "marshal target snapshot")
    target ←
        or_fail (p.codec.marshal_target (record (v.snapshot) { business_hash = sum }))
          (refused "marshal verified target")
    validate_mappings source (mappings_from_target v.snapshot)
    install_update id row.binding_id binding.version plan.source_snapshot_hash
        (mappings_from_target v.snapshot) sum v.conflict_hash target now db

  -- `CompleteVerifiedUpdate`.
  unfoldable pub complete_verified_update :
      Installation → String → TargetBaseline → ℕ → Time → Db Bytes → Result StorageError (Db Bytes)
  complete_verified_update installation id v version now db = do
    refuse_if (p.trim v.conflict_hash == "") (refused "verified target conflict hash is required")
    refuse_if v.snapshot.offline_simulation
        (refused "offline simulation cannot become a verified target baseline")
    row ← or_fail (find_operation db id) not_found
    refuse_if (not (row.kind == update) || not (row.status == verifying)) invalid_transition
    refuse_if
        (row.binding_id == "" || not (v.binding_id == "") && not (v.binding_id == row.binding_id))
        untrusted_target
    validate_allowed_binding db installation row.binding_id
    binding ← or_fail (find_binding db row.binding_id) (refused "read current binding version")
    refuse_if (not (binding.version == version)) binding_version_changed
    plan ← get_plan p db row.plan_id
    write_update id v version row binding plan now db
