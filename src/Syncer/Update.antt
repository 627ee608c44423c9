-- ===== src/Syncer/Update.antt =====
-- internal/syncer/service.go: operations that update a bound chat.
use gpt_owu_bridge.Base.{
  String, [], ◌∷◌, some, Bool, true, false, not, ◌&&◌, ◌||◌, ◌==◌, text_eq, nat_eq, Result,
  if◌then◌else◌,
}
use gpt_owu_bridge.Domain.{Operation, prepared, applying, verifying, succeeded, no_change}
use gpt_owu_bridge.Domain.Hash.{target_hash}
use gpt_owu_bridge.Storage.Types.{StoredPlan, OperationRecord, BindingState, status_eq, update}
use gpt_owu_bridge.Storage.Bindings.{next_version}
use gpt_owu_bridge.Owu.{Snapshot, UpdateReceipt, WriteError, has_operation_marker}
use gpt_owu_bridge.Syncer.Types.{plain_error, Service}
use gpt_owu_bridge.Syncer.Exec.{
  Exec, pure, stop, ◌>>=◌, ◌>>◌, stop_if, need, read_clock, fresh_id, read_target, update_target,
}
use gpt_owu_bridge.Syncer.Checks.{
  report, plan_status_eq, matches_baseline, matches_planned, validate_binding,
}
use gpt_owu_bridge.Syncer.Repository.{
  nothing, holding, alone, keeping, meeting, check, load_source, load_state, load_operation,
  prepare_operation, move_operation, complete_update,
}
use gpt_owu_bridge.Syncer.Moves.{patched, fail_if, unknown_if, or_failed, or_unknown, settled}
use gpt_owu_bridge.Syncer.Create.{resumed}

module _ {Bytes R : Type 0} (s : Service Bytes R) where
  -- A chat that is not the one of the binding, or not of the account.
  abbrev pub elsewhere : Snapshot Bytes → BindingState → Bool
  elsewhere actual state =
      not (actual.chat_id == state.binding.target_chat_id)
      || not (actual.owner_id == s.installation.owu_account_id)

  -- A chat that is not the one that the preview has seen.
  abbrev pub diverged : Snapshot Bytes → BindingState → StoredPlan Bytes → Bool
  diverged actual state plan =
      not (matches_baseline actual state.target_baseline)
      || not (actual.conflict_hash == plan.expected_target_conflict_hash)

  -- `finishUpdate`.
  unfoldable pub conclude_update :
      OperationRecord → StoredPlan Bytes → BindingState → Snapshot Bytes → Exec Bytes R Operation
  conclude_update given plan state actual = do
    unknown_if s (elsewhere actual state) given "update_owner_mismatch"
        "the target readback has an unexpected owner"
    unknown_if s
        (not (has_operation_marker s.documents actual given.operation.id false)
          || not (matches_planned s actual plan))
        given "update_verification_mismatch" "the target differs from the confirmed plan"
    r ← resumed s given "resume verified update completion"
    hash ←
        need (target_hash s.platform.codec actual.normalized)
          (holding r (plain_error "hash target snapshot"))
    now ← read_clock s
    complete_update s (keeping r "complete verified update") r.operation.id
        (record {
          binding_id = state.binding.id;
          snapshot = actual.normalized;
          snapshot_hash = hash;
          conflict_hash = actual.conflict_hash;
          source_snapshot_hash = plan.source_snapshot_hash;
          binding_version = next_version s.platform state.binding.version;
          operation_id = r.operation.id;
          verified_at = now;
        })
        state.binding.version
    finished ← load_operation s (keeping r "load completed update") r.operation.id
    pure finished.operation

  -- `executeUpdate` once the target has answered.
  unfoldable pub receive_update :
      OperationRecord
      → StoredPlan Bytes
      → BindingState
      → Result WriteError (UpdateReceipt Bytes)
      → Exec Bytes R Operation
  receive_update begun plan state answer = do
    receipt ←
        settled s answer begun "update_failed" "update_outcome_unknown"
          "the update result is unknown; recovery will only read and compare"
    unknown_if s (elsewhere receipt.snapshot state) begun "update_receipt_untrusted"
        "the update receipt has an unexpected target identity"
    r ←
        move_operation s (meeting "persist update receipt") begun.operation.id (applying ∷ [])
          verifying (patched "" begun.operation.id true "")
    answered ← read_target s state.binding.target_chat_id
    readback ←
        or_unknown s answered r "update_readback_failed"
          "the updated target could not yet be verified"
    conclude_update r plan state readback

  -- The write of `executeUpdate`.
  unfoldable pub send_update :
      StoredPlan Bytes → BindingState → Snapshot Bytes → OperationRecord → Exec Bytes R Operation
  send_update plan state desired begun = do
    answer ←
        update_target s state.binding.target_chat_id
          (record { operation_id = begun.operation.id; snapshot = desired })
    receive_update begun plan state answer

  abbrev pub begin_update : OperationRecord → BindingState → Exec Bytes R OperationRecord
  begin_update r state =
      move_operation s (meeting "begin update") r.operation.id (prepared ∷ []) applying
        (patched state.binding.target_chat_id "" false "")

  -- `executeUpdate`, once the state of the binding is known.
  unfoldable pub update_state :
      OperationRecord → StoredPlan Bytes → BindingState → Exec Bytes R Operation
  update_state r plan state = do
    fail_if s (not (state.binding.version == plan.plan.binding_version)) r "binding_version_changed"
    answer ← read_target s state.binding.target_chat_id
    actual ← or_failed s answer r "target_reread_failed"
    fail_if s (elsewhere actual state) r "target_identity_mismatch"
    fail_if s (diverged actual state plan) r "target_conflict"
    source ← load_source s (keeping r "load planned source") plan.source_snapshot_hash
    desired ←
        or_failed s (s.documents.build_snapshot source (some actual)) r "invalid_planned_target"
    fail_if s (not (matches_planned s desired plan)) r "plan_payload_changed"
    begin_update r state >>= send_update plan state desired

  -- `executeUpdate`.
  unfoldable pub execute_update : OperationRecord → StoredPlan Bytes → Exec Bytes R Operation
  execute_update r plan =
      load_state s (keeping r "load binding") plan.binding_id >>= update_state r plan

  -- `executeNoChange`, once the state of the binding is known.
  unfoldable pub confirm_state :
      OperationRecord → StoredPlan Bytes → BindingState → Exec Bytes R Operation
  confirm_state r plan state = do
    fail_if s (not (state.binding.version == plan.plan.binding_version)) r "binding_version_changed"
    answer ← read_target s state.binding.target_chat_id
    actual ← or_failed s answer r "target_reread_failed"
    fail_if s (elsewhere actual state || diverged actual state plan) r "target_conflict"
    now ← read_clock s
    done ←
        move_operation s (meeting "complete no-change operation") r.operation.id (prepared ∷ [])
          succeeded (record (patched "" "" false "") { verified_at = some now })
    pure done.operation

  -- `executeNoChange`.
  unfoldable pub execute_no_change : OperationRecord → StoredPlan Bytes → Exec Bytes R Operation
  execute_no_change r plan =
      load_state s (keeping r "load binding") plan.binding_id >>= confirm_state r plan

  -- The last branch of `applyUpdate`, and of the recovery of a prepared update.
  abbrev pub carry_out : OperationRecord → StoredPlan Bytes → Exec Bytes R Operation
  carry_out r plan =
      if plan.plan.status == no_change then execute_no_change r plan else execute_update r plan

  -- `applyUpdate`.
  unfoldable pub apply_update : StoredPlan Bytes → String → String → Exec Bytes R Operation
  apply_update plan key payload = do
    state ← load_state s (alone "load binding") plan.binding_id
    check s nothing (validate_binding s state.binding)
    stop_if (not (state.binding.version == plan.plan.binding_version)) (
        nothing (
          report "binding_version_changed" "the binding changed after preview"
            "create a fresh preview" false ""))
    id ← fresh_id s "op"
    (r, created) ← prepare_operation s (meeting "prepare update") (record {
      owner_id = s.installation.owner_id;
      operation_id = id;
      idempotency_key = key;
      kind = update;
      binding_id = plan.binding_id;
      plan_id = plan.plan.id;
      payload_hash = payload;
    })
    if not created || not (r.operation.status == prepared)
        then pure r.operation
        else carry_out r plan

  -- `reconcileUpdate`, once the chat has been read.
  unfoldable pub compare_update :
      OperationRecord → StoredPlan Bytes → BindingState → Snapshot Bytes → Exec Bytes R Operation
  compare_update r plan state actual = do
    stop_if (elsewhere actual state) (
        holding r (
          report "target_identity_mismatch" "the target readback has an unexpected identity"
            "restore the configured target; recovery will not write" false r.operation.id))
    if has_operation_marker s.documents actual r.operation.id false && matches_planned s actual plan
        then conclude_update r plan state actual
        else if matches_baseline actual state.target_baseline
        then stop (
            holding r (
              report "update_still_uncertain"
                "the target still matches the old baseline, but the earlier write may complete later"
                "keep this operation paused and check recovery again; the service will not write or release the binding"
                false r.operation.id))
        else stop (
            holding r (
              report "reconciliation_conflict"
                "the target matches neither the planned result nor the verified baseline"
                "resolve the target conflict manually; recovery will not write" false
                r.operation.id))

  -- `reconcileUpdate`.
  unfoldable pub reconcile_update : OperationRecord → StoredPlan Bytes → Exec Bytes R Operation
  reconcile_update r plan = do
    state ← load_state s (keeping r "load binding") plan.binding_id
    answer ← read_target s state.binding.target_chat_id
    actual ← need answer (
        holding r (
          report "reconciliation_read_failed" "the managed target could not be read"
            "retry recovery after Open WebUI is available" true r.operation.id))
    compare_update r plan state actual
