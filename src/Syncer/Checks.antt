-- ===== src/Syncer/Checks.antt =====
-- internal/syncer/service.go: the errors of the store as the service reports them, and the checks
-- of callers, bindings, plans, sources and targets.
use gpt_owu_bridge.Base.{
  String, List, [], ◌∷◌, Option, none, some, Bool, true, false, not, ◌&&◌, ◌||◌, ◌==◌, Eq, text_eq,
  nat_eq, bool_eq, texts_eq, if◌then◌else◌, ltb, joined, Result, err, ◌>>◌, refuse_if,
}
use gpt_owu_bridge.Domain.{
  Time, Binding, MessageMapping, OperationStatus, succeeded, failed, PlanStatus, ready, no_change,
  needs_binding_confirmation, SourceIdentity, SourceSnapshot, TargetMessage, TargetSnapshot,
  parser_version, policy_version, source_chatgpt_share, evidence_verified,
}
use gpt_owu_bridge.Base.Int.{pos, int_eq}
use gpt_owu_bridge.Domain.Hash.{source_hash}
use gpt_owu_bridge.Storage.Types.{
  StorageError, identity_mismatch, corrupt, not_found, immutable_conflict, idempotency_conflict,
  source_already_claimed, invalid_transition, untrusted_target, operation_in_progress, plan_expired,
  confirmation_required, binding_version_changed, refused, StoredPlan, TargetBaseline, create,
  update, status_eq,
}
use gpt_owu_bridge.Storage.Mappings.{mappings_from_target}
use gpt_owu_bridge.Owu.{Snapshot, Identity, match_snapshot}
use gpt_owu_bridge.Syncer.Types.{
  ServiceError, result_error, storage_error, ExecutionPayload, Service,
}

-- `resultError`.
abbrev pub report : String → String → String → Bool → String → ServiceError
report code message next_action retryable id = result_error (record {
  code = code;
  message = message;
  next_action = next_action;
  retryable = retryable;
  operation_id = id;
})

-- `mapStorageError`.
unfoldable pub map_storage_error : String → StorageError → ServiceError
map_storage_error action not_found =
    report "not_found" (joined (action ∷ " failed because the record does not exist" ∷ []))
      "use a persisted plan, binding, or operation id" false ""
map_storage_error action idempotency_conflict =
    report "idempotency_conflict" "an existing immutable request has different content"
      "inspect the existing operation; do not retry the write with changed content" false ""
map_storage_error action immutable_conflict =
    report "idempotency_conflict" "an existing immutable request has different content"
      "inspect the existing operation; do not retry the write with changed content" false ""
map_storage_error action operation_in_progress =
    report "operation_in_progress" "an unresolved operation blocks another write"
      "recover the existing operation first" false ""
map_storage_error action untrusted_target =
    report "untrusted_target" "the requested binding is not backed by a verified creation record"
      "use only a binding created and verified by this installation" false ""
map_storage_error action plan_expired =
    report "plan_expired" "the sync plan expired" "create a fresh preview" false ""
map_storage_error action confirmation_required =
    report "confirmation_required" "the sync plan has not been confirmed"
      "review and explicitly confirm the immutable plan" false ""
map_storage_error action binding_version_changed =
    report "binding_version_changed" "the binding changed after preview" "create a fresh preview"
      false ""
map_storage_error action identity_mismatch = storage_error action identity_mismatch
map_storage_error action corrupt = storage_error action corrupt
map_storage_error action source_already_claimed = storage_error action source_already_claimed
map_storage_error action invalid_transition = storage_error action invalid_transition
map_storage_error action (refused text) = storage_error action (refused text)

abbrev pub terminal : OperationStatus → Bool
terminal status = status == succeeded || status == failed

abbrev pub PlanStatus-discrete : Discrete PlanStatus
PlanStatus-discrete = hlevel

instance abbrev pub plan_status_eq : Eq PlanStatus
plan_status_eq = record { same = PlanStatus-discrete }

-- `reflect.DeepEqual` of two targets, field by field; a nil and an empty slice are both the empty
-- list.
abbrev same_message : TargetMessage → TargetMessage → Bool
same_message m n =
    m.id == n.id
    && m.source_id == n.source_id
    && m.role == n.role
    && m.channel == n.channel
    && m.parts == n.parts
    && m.managed == n.managed
    && m.order == n.order

abbrev same_messages : List TargetMessage → List TargetMessage → Bool
same_messages [] [] = true
same_messages [] (n ∷ ns) = false
same_messages (m ∷ ms) [] = false
same_messages (m ∷ ms) (n ∷ ns) = same_message m n && same_messages ms ns

abbrev deep_equal : TargetSnapshot → TargetSnapshot → Bool
deep_equal left right =
    left.offline_simulation == right.offline_simulation
    && left.title == right.title
    && same_messages left.messages right.messages
    && left.current_message_id == right.current_message_id
    && left.business_hash == right.business_hash

unfoldable pub target_equal : TargetSnapshot → TargetSnapshot → Bool
target_equal left right =
    deep_equal (record left { business_hash = ""; offline_simulation = false })
      (record right { business_hash = ""; offline_simulation = false })

abbrev pub verified_same_source : SourceIdentity → SourceIdentity → Bool
verified_same_source previous current =
    previous.evidence == evidence_verified
    && current.evidence == evidence_verified
    && not (previous.candidate_id == "")
    && previous.candidate_id == current.candidate_id

-- `mappings`, which is `mappingsFromTarget` of the store over again.
abbrev pub mappings : TargetSnapshot → List MessageMapping
mappings = mappings_from_target

module _ {Bytes : Type 0} where
  unfoldable pub matches_baseline : Snapshot Bytes → TargetBaseline → Bool
  matches_baseline actual baseline =
      if baseline.conflict_hash == "" || not (actual.conflict_hash == baseline.conflict_hash)
      then false
      else target_equal actual.normalized baseline.snapshot

  abbrev pub planned_snapshot : StoredPlan Bytes → Snapshot Bytes
  planned_snapshot plan = record {
    chat_id = "";
    owner_id = "";
    archived = plan.desired_archived;
    pinned = plan.desired_pinned;
    folder_id = plan.desired_folder_id;
    chat_updated_at = pos 0;
    normalized = plan.desired_target;
    raw_chat = plan.desired_raw_chat;
    raw_envelope = plan.desired_raw_envelope;
    conflict_hash = plan.desired_conflict_hash;
  }

module _ {Bytes R : Type 0} (s : Service Bytes R) where
  unfoldable pub matches_planned : Snapshot Bytes → StoredPlan Bytes → Bool
  matches_planned actual plan =
      actual.archived == plan.desired_archived
      && actual.pinned == plan.desired_pinned
      && actual.folder_id == plan.desired_folder_id
      && match_snapshot s.documents actual (planned_snapshot plan)

  unfoldable pub authorize : String → Result ServiceError (Unit {0})
  authorize principal = do
    refuse_if (not s.has_store) (
        report "storage_unavailable" "persistent storage is unavailable" "restore the data store"
          false "")
    refuse_if (principal == "" || not (principal == s.installation.owner_id)) (
        report "unauthorized_owner" "the caller is not the fixed installation owner"
          "use the initialized local owner identity" false "")

  -- `verifyDownstream`, once the target has answered.
  unfoldable pub check_identity : Option Identity → Result ServiceError (Unit {0})
  check_identity none = err (
      report "target_identity_unavailable" "the fixed Open WebUI identity could not be verified"
        "restore the configured Open WebUI site and account" true "")
  check_identity (some identity) =
      refuse_if
        (not (identity.site_id == s.installation.owu_site_id)
          || not (identity.account_id == s.installation.owu_account_id))
        (report "target_identity_mismatch"
          "the live Open WebUI site or account differs from the installation identity"
          "restore the configured site and account; no managed target was read or written" false "")

  unfoldable pub validate_binding : Binding → Result ServiceError (Unit {0})
  validate_binding binding =
      refuse_if
        (not (binding.installation_id == s.installation.id)
          || not (binding.principal_id == s.installation.owner_id)
          || not (binding.owu_site_id == s.installation.owu_site_id)
          || not (binding.owu_account_id == s.installation.owu_account_id)
          || binding.target_chat_id == ""
          || binding.created_by_operation == "")
        (report "untrusted_binding" "the binding lacks trusted creation and fixed identity evidence"
          "restore the original database from backup" false "")

  unfoldable pub validate_plan_ownership : StoredPlan Bytes → Result ServiceError (Unit {0})
  validate_plan_ownership plan = do
    refuse_if
        (not (plan.owner_id == s.installation.owner_id)
          || plan.source_snapshot_hash == ""
          || not (plan.plan.source_snapshot_hash == plan.source_snapshot_hash))
        (report "invalid_plan_owner" "the persisted plan is not owned by this installation"
          "restore the original database from backup" false "")
    refuse_if
        (plan.binding_id == "" && not (plan.plan.binding_version == 0)
          || not (plan.binding_id == "") && plan.plan.binding_version == 0
          || not (plan.binding_id == "")
            && not (plan.plan.target_baseline_hash == plan.expected_target_hash))
        (report "invalid_plan_binding" "the persisted plan binding evidence is inconsistent"
          "create a fresh preview" false "")

  -- `validatePlan`, at a time that the clock gave.
  unfoldable pub validate_plan : StoredPlan Bytes → Time → Result ServiceError (Unit {0})
  validate_plan plan now = do
    validate_plan_ownership plan
    refuse_if
        (plan.plan.id == ""
          || not (plan.plan.id == s.platform.trim plan.plan.id)
          || plan.payload_hash == "")
        (report "invalid_plan" "the persisted plan is incomplete" "create a fresh preview" false "")
    refuse_if (not (ltb now plan.plan.expires_at))
        (report "plan_expired" "the sync plan has expired" "create a fresh preview" false "")
    refuse_if
        (not (plan.plan.parser_version == parser_version)
          || not (plan.plan.policy_version == policy_version))
        (report "plan_version_changed" "the parser or policy version changed after preview"
          "create a fresh preview" false "")
    refuse_if
        (not (plan.plan.status == ready)
          && not (plan.plan.status == no_change)
          && not (plan.plan.status == needs_binding_confirmation))
        (report "plan_not_applicable"
          "the sync plan contains an unresolved conflict or unsupported content"
          "resolve the preview result and create a new plan" false "")

  -- `normalizeSource`, with none for its errors, which its caller replaces by one of its own.
  unfoldable pub normalize_source : SourceSnapshot → Option SourceSnapshot
  normalize_source snapshot = elim (source_hash s.platform.codec snapshot) [
    | none ↦ none
    | some hash ↦
        if not (snapshot.business_hash == "") && not (snapshot.business_hash == hash)
          || not (snapshot.parser_version == parser_version)
          || not (snapshot.source_type == source_chatgpt_share)
        then none
        else some (record snapshot { business_hash = hash })
  ]

  -- `digest`: the parts with a zero byte between them.
  abbrev separated : List String → List String
  separated [] = []
  separated (p ∷ []) = p ∷ []
  separated (p ∷ q ∷ ps) = p ∷ "\0" ∷ separated (q ∷ ps)

  unfoldable pub digest : List String → String
  digest parts = s.platform.codec.sha256_hex (s.platform.codec.text (joined (separated parts)))

  abbrev pub create_idempotency_key : SourceSnapshot → String
  create_idempotency_key source = digest (
      "create"
      ∷ s.installation.id
      ∷ s.installation.owner_id
      ∷ (if source.identity.candidate_id == ""
          then source.business_hash
          else source.identity.candidate_id)
      ∷ policy_version
      ∷ [])

  abbrev pub update_idempotency_key : StoredPlan Bytes → String
  update_idempotency_key plan = digest (
      "update"
      ∷ s.installation.id
      ∷ s.installation.owner_id
      ∷ plan.binding_id
      ∷ s.decimal plan.plan.binding_version
      ∷ plan.source_snapshot_hash
      ∷ policy_version
      ∷ [])

  -- The payload and the digest of `operationIdentity`.
  abbrev execution_payload : StoredPlan Bytes → ExecutionPayload Bytes
  execution_payload plan = record {
    kind = if plan.binding_id == "" then create else update;
    binding_id = plan.binding_id;
    source_snapshot_hash = plan.source_snapshot_hash;
    previous_snapshot_hash = plan.previous_snapshot_hash;
    expected_target_hash = plan.expected_target_hash;
    expected_target_conflict_hash = plan.expected_target_conflict_hash;
    desired_target = plan.desired_target;
    desired_raw_chat = plan.desired_raw_chat;
    desired_archived = plan.desired_archived;
    desired_pinned = plan.desired_pinned;
    desired_folder_id = plan.desired_folder_id;
    parser_version = plan.plan.parser_version;
    policy_version = plan.plan.policy_version;
  }

  unfoldable pub semantic_payload : StoredPlan Bytes → Option String
  semantic_payload plan = elim (s.marshal_payload (execution_payload plan)) [
    | none ↦ none
    | some encoded ↦ some (s.platform.codec.sha256_hex encoded)
  ]
