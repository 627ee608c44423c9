-- ===== src/Storage/Operations.antt =====
-- internal/storage/operations.go: the operations on bindings, from their preparation to their
-- recovery.
use gpt_owu_bridge.Base.{
  String, Option, none, some, Bool, true, false, not, ◌&&◌, ◌||◌, ◌==◌, text_eq, nat_eq,
  if◌then◌else◌, find_first, ltb, Result, ok, err, ◌>>=◌, ◌>>◌, refuse_if,
}
use gpt_owu_bridge.Domain.{
  Time, OperationStatus, prepared, applying, verifying, succeeded, failed, needs_reconciliation,
}
use gpt_owu_bridge.Storage.Types.{
  StorageError, identity_mismatch, not_found, operation_in_progress, plan_expired,
  confirmation_required, refused, StoredPlan, OperationKind, create, kind_eq, status_eq,
  OperationRecord,
}
use gpt_owu_bridge.Storage.Tables.{
  Db, OperationRow, Violation, unique_column, lock_taken, reference, out_of_range, find_operation,
}
use gpt_owu_bridge.Storage.Records.{or_fail}

-- A call that fails may still return the record that it met.
pub record Failure : Type 0 where
  pub met : Option OperationRecord
  pub error : StorageError

abbrev pub failure : StorageError → Failure
failure e = record { met = none; error = e }

abbrev pub failure_at : OperationRecord → StorageError → Failure
failure_at r e = record { met = some r; error = e }

-- The error of a part, with no record beside it.
abbrev pub plainly {ℓ} : {A : Type ℓ} → Result StorageError A → Result Failure A
plainly (ok a) = ok a
plainly (err e) = err (failure e)

-- `scanOperation`.
unfoldable pub scan_operation : OperationRow → OperationRecord
scan_operation r = record {
  operation = record {
    id = r.operation_id;
    idempotency_key = r.idempotency_key;
    binding_id = r.binding_id;
    status = r.status;
    attempt_count = r.attempt_count;
    needs_readback = r.needs_readback;
    last_error_code = r.last_error_code;
    remote_receipt_id = r.remote_receipt_id;
    verified_at = r.verified_at;
  };
  kind = r.kind;
  plan_id = r.plan_id;
  payload_hash = r.payload_hash;
  target_chat_id = r.target_chat_id;
  created_at = r.created_at;
  updated_at = r.updated_at;
}

unfoldable pub transition_allowed : OperationStatus → OperationStatus → Bool
transition_allowed prepared to = to == applying || to == succeeded || to == failed
transition_allowed applying to = to == verifying || to == needs_reconciliation || to == failed
transition_allowed verifying to = to == succeeded || to == needs_reconciliation || to == failed
transition_allowed needs_reconciliation to =
    to == needs_reconciliation || to == verifying || to == failed
transition_allowed succeeded to = false
transition_allowed failed to = false

unfoldable pub operation_matches : OperationRecord → OperationKind → String → String → Bool
operation_matches existing kind binding_id payload_hash =
    if not (existing.kind == kind) || not (existing.payload_hash == payload_hash)
    then false
    else kind == create || existing.operation.binding_id == binding_id

module _ {Bytes : Type 0} where
  unfoldable pub get_operation : Db Bytes → String → Result StorageError OperationRecord
  get_operation db id = or_fail (find_operation db id) not_found >>= λ r. ok (scan_operation r)

  unfoldable pub get_operation_by_idempotency : Db Bytes → String → Option OperationRecord
  get_operation_by_idempotency db key =
      elim (find_first (λ r. r.idempotency_key == key) db.operations) [
        | none ↦ none
        | some r ↦ some (scan_operation r)
      ]

  unfoldable pub validate_executable_plan : StoredPlan Bytes → Time → Result StorageError (Unit {0})
  validate_executable_plan plan now = do
    refuse_if (plan.owner_id == "") identity_mismatch
    refuse_if (not (ltb now plan.plan.expires_at)) plan_expired
    refuse_if
        (plan.confirmation_required && elim plan.confirmed_at [ none ↦ true | some _ ↦ false ])
        confirmation_required

-- The row of a new operation.
abbrev pub new_operation :
    String
    → String
    → String
    → OperationKind
    → String
    → String
    → String
    → String
    → Time
    → OperationRow
new_operation owner id key kind binding_id lock plan_id payload now = record {
  operation_id = id;
  owner_id = owner;
  idempotency_key = key;
  kind = kind;
  binding_id = binding_id;
  lock_key = lock;
  plan_id = plan_id;
  payload_hash = payload;
  status = prepared;
  attempt_count = 0;
  needs_readback = false;
  last_error_code = "";
  remote_receipt_id = "";
  target_chat_id = "";
  verified_at = none;
  created_at = now;
  updated_at = now;
}

abbrev pub insertion_error : Violation → StorageError
insertion_error lock_taken = operation_in_progress
insertion_error unique_column = refused "save prepared operation"
insertion_error reference = refused "save prepared operation"
insertion_error out_of_range = refused "save prepared operation"

abbrev pub saved {ℓ} :
    {A : Type ℓ} → (Violation → StorageError) → Result Violation A → Result StorageError A
saved f (ok a) = ok a
saved f (err v) = err (f v)
