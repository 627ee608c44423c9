-- ===== src/Syncer/Repository.antt =====
-- internal/syncer/service.go: the methods of `Repository` as the service calls them. Each takes what
-- is returned when the call fails.
use gpt_owu_bridge.Base.{
  ℕ, String, List, Option, none, some, Bool, true, false, Result, ok, err, if◌then◌else◌,
}
use gpt_owu_bridge.Domain.{Time, Binding, Operation, OperationStatus, SourceSnapshot}
use gpt_owu_bridge.Storage.Types.{
  StorageError, StoredPlan, OperationRecord, CreateRequest, PrepareOperationRequest,
  TransitionPatch, VerifiedCreate, TargetBaseline, BindingState,
}
use gpt_owu_bridge.Storage.Tables.{Db}
use gpt_owu_bridge.Storage.Records.{
  get_source_snapshot, put_source_snapshot, get_plan, save_plan, confirm_plan,
}
use gpt_owu_bridge.Storage.Allowed.{get_binding_state}
use gpt_owu_bridge.Storage.Operations.{
  Failure, plainly, get_operation, get_operation_by_idempotency,
}
use gpt_owu_bridge.Storage.Prepare.{prepare_create, prepare_binding_operation}
use gpt_owu_bridge.Storage.Transition.{
  transition_operation, get_trusted_create_target, recover_interrupted,
}
use gpt_owu_bridge.Storage.Bindings.{finalize_verified_create, complete_verified_update}
use gpt_owu_bridge.Syncer.Types.{ServiceError, Outcome, Service}
use gpt_owu_bridge.Syncer.Exec.{
  Exec, pure, stop, ◌>>=◌, ◌>>◌, stop_if, try_store, ask_store, verify_identity,
}
use gpt_owu_bridge.Syncer.Checks.{report, map_storage_error, check_identity}

-- What a method returns with an error: no operation, one that it holds, or the one that the call
-- has met.
abbrev pub nothing : ServiceError → Outcome
nothing e = record { operation = none; error = e }

abbrev pub holding : OperationRecord → ServiceError → Outcome
holding r e = record { operation = some r.operation; error = e }

abbrev pub alone : String → Failure → Outcome
alone action f = nothing (map_storage_error action f.error)

abbrev pub keeping : OperationRecord → String → Failure → Outcome
keeping r action f = holding r (map_storage_error action f.error)

abbrev operation_met : Option OperationRecord → Option Operation
operation_met none = none
operation_met (some r) = some r.operation

abbrev pub meeting : String → Failure → Outcome
meeting action f = record {
  operation = operation_met f.met;
  error = map_storage_error action f.error;
}

module _ {Bytes : Type 0} where
  -- A call that reads, and the shapes that calls have that write.
  abbrev pub reading {ℓ} :
      {A : Type ℓ} → Db Bytes → Result StorageError A → Result Failure (A × Db Bytes)
  reading db (ok a) = ok (a, db)
  reading db (err e) = plainly (err e)

  abbrev pub writing : Result StorageError (Db Bytes) → Result Failure (Unit {0} × Db Bytes)
  writing (ok db) = ok (tt, db)
  writing (err e) = plainly (err e)

  abbrev pub preparing :
      Result Failure (OperationRecord × Bool × Db Bytes)
      → Result Failure ((OperationRecord × Bool) × Db Bytes)
  preparing (ok (r, created, db)) = ok ((r, created), db)
  preparing (err e) = err e

module _ {Bytes R : Type 0} (s : Service Bytes R) where
  unfoldable pub load_source : (Failure → Outcome) → String → Exec Bytes R SourceSnapshot
  load_source o hash = ask_store s o λ _ db. reading db (get_source_snapshot s.platform db hash)

  unfoldable pub put_snapshot : (Failure → Outcome) → SourceSnapshot → Exec Bytes R (Unit {0})
  put_snapshot o snapshot =
      ask_store s o λ now db. writing (put_source_snapshot s.platform snapshot now db)

  unfoldable pub put_plan : (Failure → Outcome) → StoredPlan Bytes → Exec Bytes R (Unit {0})
  put_plan o plan =
      ask_store s o λ now db. writing (save_plan s.platform s.installation plan now db)

  unfoldable pub load_plan : (Failure → Outcome) → String → Exec Bytes R (StoredPlan Bytes)
  load_plan o id = ask_store s o λ _ db. reading db (get_plan s.platform db id)

  unfoldable pub confirm_stored :
      (Failure → Outcome) → String → Time → Exec Bytes R (StoredPlan Bytes)
  confirm_stored o id given =
      ask_store s o λ now db. plainly (confirm_plan s.platform s.installation id given now db)

  unfoldable pub load_state : (Failure → Outcome) → String → Exec Bytes R BindingState
  load_state o id =
      ask_store s o λ _ db. reading db (get_binding_state s.platform db s.installation id)

  -- The state of a binding, with an error as a value.
  unfoldable pub try_state : String → Exec Bytes R (Result Failure BindingState)
  try_state id = try_store s λ _ db. reading db (get_binding_state s.platform db s.installation id)

  unfoldable pub load_operation : (Failure → Outcome) → String → Exec Bytes R OperationRecord
  load_operation o id = ask_store s o λ _ db. reading db (get_operation db id)

  -- None stands for `ErrNotFound`.
  unfoldable pub look_up : (Failure → Outcome) → String → Exec Bytes R (Option OperationRecord)
  look_up o key = ask_store s o λ _ db. ok (get_operation_by_idempotency db key, db)

  unfoldable pub trusted_target : (Failure → Outcome) → String → Exec Bytes R String
  trusted_target o id =
      ask_store s o λ _ db. reading db (get_trusted_create_target s.platform s.installation id db)

  unfoldable pub prepare_creation :
      (Failure → Outcome) → CreateRequest → Exec Bytes R (OperationRecord × Bool)
  prepare_creation o request =
      ask_store s o λ now db. preparing (prepare_create s.platform s.installation request now db)

  unfoldable pub prepare_operation :
      (Failure → Outcome) → PrepareOperationRequest → Exec Bytes R (OperationRecord × Bool)
  prepare_operation o request =
      ask_store s o
        λ now db. preparing (prepare_binding_operation s.platform s.installation request now db)

  unfoldable pub move_operation :
      (Failure → Outcome)
      → String
      → List OperationStatus
      → OperationStatus
      → TransitionPatch
      → Exec Bytes R OperationRecord
  move_operation o id expected next patch =
      ask_store s o λ now db. transition_operation id expected next patch now db

  unfoldable pub finalize_create : (Failure → Outcome) → VerifiedCreate → Exec Bytes R Binding
  finalize_create o v =
      ask_store s o λ now db. plainly (finalize_verified_create s.platform s.installation v now db)

  unfoldable pub complete_update :
      (Failure → Outcome) → String → TargetBaseline → ℕ → Exec Bytes R (Unit {0})
  complete_update o id v version =
      ask_store s o
        λ now db. writing (complete_verified_update s.platform s.installation id v version now db)

  -- `RecoverInterrupted`, which the command calls when it starts.
  unfoldable pub resume : (Failure → Outcome) → Exec Bytes R (List OperationRecord)
  resume o = ask_store s o λ now db. plainly (recover_interrupted now db)

  abbrev pub check :
      (ServiceError → Outcome) → Result ServiceError (Unit {0}) → Exec Bytes R (Unit {0})
  check o (ok _) = pure tt
  check o (err e) = stop (o e)

  -- `verifyDownstream`, with the operation that is returned beside its error.
  unfoldable pub verify_downstream : (ServiceError → Outcome) → Exec Bytes R (Unit {0})
  verify_downstream o =
      stop_if (if s.has_target then false else true) (
        o (
          report "target_unavailable" "Open WebUI is not configured for this operation"
            "configure the fixed Open WebUI target" false ""))
      >> (verify_identity s >>= λ identity. check o (check_identity s identity))
