-- ===== src/Storage/Transition.antt =====
-- internal/storage/operations.go: the moves of an operation between its states, the recovery after
-- an interruption, and the reads of unresolved operations.
use gpt_owu_bridge.Base.{
  suc, String, List, [], ◌∷◌, none, some, Bool, true, not, ◌&&◌, ◌||◌, ◌==◌, text_eq, nat_eq,
  if◌then◌else◌, contains, keep, find_first, ltb, nonempty, Result, ok, err, ◌>>=◌, ◌>>◌, refuse_if,
}
use gpt_owu_bridge.Domain.{
  Time, OperationStatus, prepared, applying, verifying, needs_reconciliation,
}
use gpt_owu_bridge.Storage.Types.{
  StorageError, not_found, immutable_conflict, invalid_transition, untrusted_target, refused,
  Installation, create, kind_eq, status_eq, OperationRecord, TransitionPatch, Platform,
}
use gpt_owu_bridge.Storage.Tables.{
  Db, OperationRow, modify_where, unresolved, find_operation, find_intent, find_plan, find_source,
}
use gpt_owu_bridge.Storage.Records.{or_fail, get_source_snapshot}
use gpt_owu_bridge.Storage.Sort.{sort_by, text_before}
use gpt_owu_bridge.Storage.Operations.{
  Failure, failure, failure_at, plainly, scan_operation, transition_allowed,
}

-- A text that can be set once: what is there stays, and must agree with what is given.
abbrev pub settable : String → String → Bool
settable old new = new == "" || old == "" || old == new

abbrev pub set_once : String → String → String
set_once old new = if new == "" then old else new

-- The row after a move, once its checks have passed.
unfoldable pub moved_row : OperationRow → OperationStatus → TransitionPatch → Time → OperationRow
moved_row row next patch now = record row {
  status = next;
  attempt_count = if next == applying then suc row.attempt_count else row.attempt_count;
  needs_readback =
      if next == needs_reconciliation
      then true
      else elim patch.needs_readback [ none ↦ row.needs_readback | some b ↦ b ];
  last_error_code = set_once row.last_error_code patch.error_code;
  remote_receipt_id = set_once row.remote_receipt_id patch.remote_receipt_id;
  target_chat_id = set_once row.target_chat_id patch.target_chat_id;
  verified_at = elim patch.verified_at [ none ↦ row.verified_at | some t ↦ some t ];
  updated_at = now;
}

-- The records that the errors of a move come with: the patch is written to the record in memory
-- field by field.
abbrev with_target : OperationRow → TransitionPatch → OperationRow
with_target row patch = record row {
  target_chat_id = set_once row.target_chat_id patch.target_chat_id;
}

abbrev with_receipt : OperationRow → TransitionPatch → OperationRow
with_receipt row patch = record row {
  target_chat_id = set_once row.target_chat_id patch.target_chat_id;
  remote_receipt_id = set_once row.remote_receipt_id patch.remote_receipt_id;
}

-- The checks of a move, in their order.
unfoldable pub check_move :
    OperationRow
    → List OperationStatus
    → OperationStatus
    → TransitionPatch
    → Result Failure (Unit {0})
check_move row expected next patch = do
  refuse_if (not (contains expected row.status) || not (transition_allowed row.status next))
      (failure_at (scan_operation row) invalid_transition)
  refuse_if (not (settable row.target_chat_id patch.target_chat_id))
      (failure_at (scan_operation row) immutable_conflict)
  refuse_if (not (settable row.remote_receipt_id patch.remote_receipt_id))
      (failure_at (scan_operation (with_target row patch)) immutable_conflict)
  refuse_if
      (row.kind == create
        && next == verifying
        && set_once row.target_chat_id patch.target_chat_id == "")
      (failure_at (scan_operation (with_receipt row patch))
        (refused "create result target must be recorded before verification"))

-- The first statement of `RecoverInterrupted`.
abbrev pub interrupted : OperationRow → Bool
interrupted r = r.status == applying || r.status == verifying

unfoldable pub paused_row : Time → OperationRow → OperationRow
paused_row now r = record r {
  status = needs_reconciliation;
  needs_readback = true;
  last_error_code = if r.last_error_code == "" then "process_interrupted" else r.last_error_code;
  updated_at = now;
}

-- `ORDER BY created_at_ns, operation_id`.
abbrev pub older : OperationRow → OperationRow → Bool
older r s =
    ltb r.created_at s.created_at
    || r.created_at == s.created_at && text_before r.operation_id s.operation_id

abbrev pub recoverable : OperationRow → Bool
recoverable r = r.status == prepared || r.status == needs_reconciliation

-- What `UPDATE operations SET …` makes of a row.
abbrev pub updated_row : OperationRow → OperationRow → OperationRow
updated_row row r = record r {
  status = row.status;
  attempt_count = row.attempt_count;
  needs_readback = row.needs_readback;
  last_error_code = row.last_error_code;
  remote_receipt_id = row.remote_receipt_id;
  target_chat_id = row.target_chat_id;
  verified_at = row.verified_at;
  updated_at = row.updated_at;
}

module _ {Bytes : Type 0} where
  -- `UPDATE operations SET … WHERE operation_id = ?`.
  abbrev pub update_operation : OperationRow → Db Bytes → Db Bytes
  update_operation row db = record db {
    operations =
        modify_where (λ r. r.operation_id == row.operation_id) (updated_row row) db.operations;
  }

  -- `TransitionOperation`.
  unfoldable pub transition_operation :
      String
      → List OperationStatus
      → OperationStatus
      → TransitionPatch
      → Time
      → Db Bytes
      → Result Failure (OperationRecord × Db Bytes)
  transition_operation id expected next patch now db = do
    refuse_if (not (nonempty expected)) (failure (refused "expected operation states are required"))
    row ← plainly (or_fail (find_operation db id) not_found)
    check_move row expected next patch
    ok (
      scan_operation (moved_row row next patch now),
      update_operation (moved_row row next patch now) db,
    )

  unfoldable pub mark_interrupted : Time → Db Bytes → Db Bytes
  mark_interrupted now db = record db {
    operations = modify_where interrupted (paused_row now) db.operations;
  }

  -- Each id is read back on its own, in the order of the list.
  unfoldable pub read_each :
      Db Bytes → List OperationRow → Result StorageError (List OperationRecord)
  read_each db [] = ok []
  read_each db (r ∷ rows) = do
    row ← or_fail (find_operation db r.operation_id) not_found
    rest ← read_each db rows
    ok (scan_operation row ∷ rest)

  -- `RecoverInterrupted`: what was under way is paused, and what can be taken up is listed.
  unfoldable pub recover_interrupted :
      Time → Db Bytes → Result StorageError (List OperationRecord × Db Bytes)
  unfolding read_each
  recover_interrupted now db = do
    let marked = mark_interrupted now db
    found ← read_each marked (sort_by older (keep recoverable marked.operations))
    ok (found, marked)

  -- `ListUnresolvedOperations`.
  unfoldable pub list_unresolved_operations : Db Bytes → Result StorageError (List OperationRecord)
  unfolding read_each
  list_unresolved_operations db =
      read_each db (sort_by older (keep (λ r. unresolved r.status) db.operations))

  -- `GetTrustedCreateTarget`: the joins are on keys, so that each finds one row or none.
  unfoldable pub get_trusted_create_target :
      Platform Bytes → Installation → String → Db Bytes → Result StorageError String
  get_trusted_create_target p installation id db = do
    row ← or_fail (find_operation db id) untrusted_target
    intent ← or_fail (find_intent db id) untrusted_target
    plan ← or_fail (find_plan db row.plan_id) untrusted_target
    _ ← or_fail (find_source db intent.source_snapshot_hash) untrusted_target
    refuse_if
        (not (row.owner_id == installation.owner_id)
          || not (plan.owner_id == installation.owner_id)
          || not (row.kind == create)
          || not (row.status == verifying || row.status == needs_reconciliation))
        untrusted_target
    refuse_if
        (row.target_chat_id == ""
          || row.remote_receipt_id == ""
          || not (row.remote_receipt_id == row.target_chat_id)
          || not (intent.source_snapshot_hash == plan.source_snapshot_hash))
        untrusted_target
    _ ← get_source_snapshot p db intent.source_snapshot_hash
    elim (find_first (λ a. a.target_chat_id == row.target_chat_id) db.allowlist) [
      | some _ ↦ err untrusted_target
      | none ↦ ok row.target_chat_id
    ]
