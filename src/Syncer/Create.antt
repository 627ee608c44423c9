-- ===== src/Syncer/Create.antt =====
-- internal/syncer/service.go: operations that create a chat.
use gpt_owu_bridge.Base.{
  String, [], ◌∷◌, none, true, false, not, ◌||◌, ◌==◌, text_eq, Result, if◌then◌else◌,
}
use gpt_owu_bridge.Domain.{
  Operation, prepared, applying, verifying, needs_reconciliation, SourceSnapshot,
  title_follow_source,
}
use gpt_owu_bridge.Storage.Types.{StoredPlan, OperationRecord, status_eq}
use gpt_owu_bridge.Owu.{Snapshot, CreateReceipt, WriteError, has_operation_marker}
use gpt_owu_bridge.Syncer.Types.{Service}
use gpt_owu_bridge.Syncer.Exec.{
  Exec, pure, ◌>>=◌, ◌>>◌, stop_if, need, fresh_id, read_target, create_target,
}
use gpt_owu_bridge.Syncer.Checks.{report, mappings, matches_planned}
use gpt_owu_bridge.Syncer.Repository.{
  holding, keeping, meeting, load_source, load_operation, trusted_target, prepare_creation,
  move_operation, finalize_create,
}
use gpt_owu_bridge.Syncer.Moves.{patched, fail_if, unknown_if, or_failed, or_unknown, settled}

module _ {Bytes R : Type 0} (s : Service Bytes R) where
  -- An operation that recovery has paused goes back to its verification.
  abbrev pub resumed : OperationRecord → String → Exec Bytes R OperationRecord
  resumed r action =
      if r.operation.status == needs_reconciliation
      then move_operation s (meeting action) r.operation.id (needs_reconciliation ∷ []) verifying
          (patched "" "" true "")
      else pure r

  -- `finishCreate`.
  unfoldable pub conclude_create :
      OperationRecord → StoredPlan Bytes → SourceSnapshot → Snapshot Bytes → Exec Bytes R Operation
  conclude_create given plan source actual = do
    unknown_if s
        (not (actual.chat_id == given.target_chat_id)
          || not (actual.owner_id == s.installation.owu_account_id))
        given "create_owner_mismatch" "the created target readback has an unexpected owner"
    unknown_if s
        (not (has_operation_marker s.documents actual given.operation.id true)
          || not (matches_planned s actual plan))
        given "create_verification_mismatch" "the created target differs from the confirmed plan"
    r ← resumed given "resume verified create finalization"
    binding_id ← fresh_id s "binding"
    _ ← finalize_create s (keeping r "finalize verified create") (record {
      operation_id = r.operation.id;
      binding_id = binding_id;
      target_chat_id = r.target_chat_id;
      remote_receipt_id = r.operation.remote_receipt_id;
      source_identity = source.identity;
      message_mappings = mappings actual.normalized;
      title_policy = title_follow_source;
      verified_target = actual.normalized;
      verified_conflict_hash = actual.conflict_hash;
    })
    finished ← load_operation s (keeping r "load completed create") r.operation.id
    pure finished.operation

  -- `executeCreate` once the target has answered: the receipt is stored before the chat is read.
  unfoldable pub receive_creation :
      OperationRecord
      → StoredPlan Bytes
      → SourceSnapshot
      → Result WriteError (CreateReceipt Bytes)
      → Exec Bytes R Operation
  receive_creation begun plan source answer = do
    receipt ←
        settled s answer begun "create_failed" "create_outcome_unknown"
          "the create result is unknown and no trusted target receipt exists"
    unknown_if s (receipt.target_id == "" || not (receipt.snapshot.chat_id == receipt.target_id))
        begun "create_receipt_untrusted" "the create receipt did not identify a target"
    unknown_if s (not (receipt.snapshot.owner_id == s.installation.owu_account_id)) begun
        "create_receipt_untrusted" "the create receipt belongs to an unexpected account"
    r ←
        move_operation s (meeting "persist create receipt") begun.operation.id (applying ∷ [])
          verifying (patched receipt.target_id receipt.target_id true "")
    target ← trusted_target s (keeping r "validate trusted create target") r.operation.id
    readback ← read_target s target
    actual ←
        or_unknown s readback r "create_readback_failed"
          "the trusted created target could not yet be verified"
    conclude_create r plan source actual

  -- The write of `executeCreate`.
  unfoldable pub send_creation :
      StoredPlan Bytes → SourceSnapshot → Snapshot Bytes → OperationRecord → Exec Bytes R Operation
  send_creation plan source desired begun = do
    answer ← create_target s (record { operation_id = begun.operation.id; snapshot = desired })
    receive_creation begun plan source answer

  abbrev pub begin_creation : OperationRecord → Exec Bytes R OperationRecord
  begin_creation r =
      move_operation s (meeting "begin create") r.operation.id (prepared ∷ []) applying
        (patched "" "" false "")

  -- `executeCreate`.
  unfoldable pub execute_create : OperationRecord → StoredPlan Bytes → Exec Bytes R Operation
  execute_create r plan = do
    source ← load_source s (keeping r "load planned source") plan.source_snapshot_hash
    desired ← or_failed s (s.documents.build_snapshot source none) r "invalid_planned_target"
    fail_if s (not (matches_planned s desired plan)) r "plan_payload_changed"
    begin_creation r >>= send_creation plan source desired

  -- `applyCreate`.
  unfoldable pub apply_create : StoredPlan Bytes → String → String → Exec Bytes R Operation
  apply_create plan key payload = do
    id ← fresh_id s "op"
    (r, created) ← prepare_creation s (meeting "prepare create") (record {
      owner_id = s.installation.owner_id;
      operation_id = id;
      idempotency_key = key;
      plan_id = plan.plan.id;
      payload_hash = payload;
      source_snapshot_hash = plan.source_snapshot_hash;
    })
    if not created || not (r.operation.status == prepared)
        then pure r.operation
        else execute_create r plan

  -- `reconcileCreate`.
  unfoldable pub reconcile_create : OperationRecord → StoredPlan Bytes → Exec Bytes R Operation
  reconcile_create r plan = do
    stop_if (r.target_chat_id == "" || r.operation.remote_receipt_id == "") (
        holding r (
          report "create_outcome_unknown" "the create result has no trustworthy target receipt"
            "inspect the dedicated test account manually; this operation will not be retried or adopted by search"
            false r.operation.id))
    target ← trusted_target s (keeping r "validate trusted create target") r.operation.id
    readback ← read_target s target
    actual ← need readback (
        holding r (
          report "reconciliation_read_failed" "the trusted target receipt could not be read"
            "retry recovery after Open WebUI is available" true r.operation.id))
    source ← load_source s (keeping r "load planned source") plan.source_snapshot_hash
    conclude_create r plan source actual
