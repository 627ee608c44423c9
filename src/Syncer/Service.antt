-- ===== src/Syncer/Service.antt =====
-- internal/syncer/service.go: `Apply`, `Status` and `Recover`, and the requests that reach the
-- service one after another.
use gpt_owu_bridge.Base.{
  String, List, [], ◌∷◌, Option, none, some, Bool, true, false, not, ◌&&◌, ◌||◌, ◌==◌, text_eq,
  nat_eq, Result, ok, err, if◌then◌else◌,
}
use gpt_owu_bridge.Domain.{
  Operation, prepared, applying, verifying, needs_reconciliation, SourceSnapshot,
}
use gpt_owu_bridge.Storage.Types.{
  StoredPlan, OperationRecord, BindingState, idempotency_conflict, status_eq, kind_eq, create,
}
use gpt_owu_bridge.Storage.Operations.{Failure}
use gpt_owu_bridge.Storage.Calls.{empty}
use gpt_owu_bridge.Syncer.Types.{ServiceError, Service, World}
use gpt_owu_bridge.Syncer.Exec.{Exec, pure, ◌>>=◌, ◌>>◌, stop_if, read_clock}
use gpt_owu_bridge.Syncer.Checks.{
  report, map_storage_error, terminal, authorize, validate_plan_ownership, validate_plan,
}
use gpt_owu_bridge.Syncer.Repository.{
  nothing, holding, alone, keeping, meeting, check, load_plan, confirm_stored, try_state,
  load_operation, look_up, move_operation, resume, verify_downstream,
}
use gpt_owu_bridge.Syncer.Moves.{patched, fail_if}
use gpt_owu_bridge.Syncer.Plans.{operation_identity}
use gpt_owu_bridge.Syncer.Preview.{preview_sync}
use gpt_owu_bridge.Syncer.Create.{execute_create, apply_create, reconcile_create}
use gpt_owu_bridge.Syncer.Update.{carry_out, apply_update, reconcile_update}

module _ {Bytes R : Type 0} (s : Service Bytes R) where
  abbrev pub unconfirmed : StoredPlan Bytes → Bool
  unconfirmed plan =
      plan.confirmation_required && elim plan.confirmed_at [ none ↦ true | some _ ↦ false ]

  -- The confirmation of a plan, where it is asked for.
  unfoldable pub confirmed_plan : StoredPlan Bytes → String → Bool → Exec Bytes R (StoredPlan Bytes)
  confirmed_plan plan id confirmed =
      if unconfirmed plan
      then (do
        stop_if (not confirmed) (
            nothing (
              report "confirmation_required" "this immutable plan has not been confirmed"
                "repeat apply with explicit confirmation after reviewing the plan" false ""))
        now ← read_clock s
        confirm_stored s (alone "confirm sync plan") id now)
      else pure plan

  -- `Apply` of a plan that no operation has been made for.
  unfoldable pub apply_new :
      StoredPlan Bytes → String → Bool → String → String → Exec Bytes R Operation
  apply_new stored id confirmed key payload = do
    now ← read_clock s
    check s nothing (validate_plan s stored now)
    plan ← confirmed_plan stored id confirmed
    verify_downstream s nothing
    if plan.binding_id == ""
        then apply_create s plan key payload
        else apply_update s plan key payload

  -- What is returned when the operation has been made before.
  abbrev pub replay : OperationRecord → String → Exec Bytes R Operation
  replay existing payload =
      stop_if (not (existing.payload_hash == payload))
        (holding existing (map_storage_error "replay operation" idempotency_conflict))
      >> pure existing.operation

  abbrev pub replay_or :
      Option OperationRecord → String → Exec Bytes R Operation → Exec Bytes R Operation
  replay_or (some existing) payload new = replay existing payload
  replay_or none payload new = new

  -- `Apply`.
  unfoldable pub apply_sync : String → String → Bool → Exec Bytes R Operation
  apply_sync principal id confirmed = do
    check s nothing (authorize s principal)
    stored ← load_plan s (alone "load sync plan") id
    check s nothing (validate_plan_ownership s stored)
    (key, payload) ← operation_identity s stored
    found ← look_up s (alone "look up operation replay") key
    replay_or found payload (apply_new stored id confirmed key payload)

  -- `Status`.
  unfoldable pub operation_status : String → String → Exec Bytes R Operation
  operation_status principal id = do
    check s nothing (authorize s principal)
    r ← load_operation s (alone "load operation") id
    pure r.operation

  -- The test of the binding in `Recover`: an error of the store counts as a change.
  abbrev pub version_changed : StoredPlan Bytes → Result Failure BindingState → Bool
  version_changed plan (ok state) = not (state.binding.version == plan.plan.binding_version)
  version_changed plan (err _) = true

  abbrev pub check_binding_version : OperationRecord → StoredPlan Bytes → Exec Bytes R (Unit {0})
  check_binding_version r plan =
      if plan.binding_id == ""
      then pure tt
      else (try_state s plan.binding_id >>= λ answer.
          fail_if s (version_changed plan answer) r "binding_version_changed")

  abbrev pub failing : Result ServiceError (Unit {0}) → Bool
  failing (ok _) = false
  failing (err _) = true

  -- `Recover` of an operation that has been prepared only.
  unfoldable pub recover_prepared : OperationRecord → StoredPlan Bytes → Exec Bytes R Operation
  recover_prepared r plan = do
    now ← read_clock s
    fail_if s (failing (validate_plan s plan now)) r "stale_prepared_operation"
    fail_if s (unconfirmed plan) r "confirmation_required"
    check_binding_version r plan
    if r.kind == create then execute_create s r plan else carry_out s r plan

  -- What was under way is paused.
  abbrev pub paused : OperationRecord → Exec Bytes R OperationRecord
  paused r =
      if r.operation.status == applying || r.operation.status == verifying
      then move_operation s (meeting "mark interrupted operation") r.operation.id
          (applying ∷ verifying ∷ []) needs_reconciliation (patched "" "" true "interrupted_write")
      else pure r

  -- `Recover` of an operation whose write may have been sent.
  unfoldable pub recover_sent : OperationRecord → StoredPlan Bytes → Exec Bytes R Operation
  recover_sent given plan = do
    r ← paused given
    if not (r.operation.status == needs_reconciliation)
        then pure r.operation
        else if r.kind == create
        then reconcile_create s r plan
        else reconcile_update s r plan

  -- `Recover` of an operation that is not finished.
  unfoldable pub recover_open : OperationRecord → Exec Bytes R Operation
  recover_open r = do
    verify_downstream s (holding r)
    plan ← load_plan s (keeping r "load operation plan") r.plan_id
    if r.operation.status == prepared then recover_prepared r plan else recover_sent r plan

  -- `Recover`.
  unfoldable pub recover_operation : String → String → Exec Bytes R Operation
  recover_operation principal id = do
    check s nothing (authorize s principal)
    r ← load_operation s (alone "load operation") id
    if terminal r.operation.status then pure r.operation else recover_open r

-- The requests that reach the service. A process that dies in the middle of one is a world in which
-- every later call of that request fails; `restart` is what the next process does first.
pub data Request : Type 0 where
  preview_request : String → SourceSnapshot → String → Request
  apply_request : String → String → Bool → Request
  status_request : String → String → Request
  recover_request : String → String → Request
  restart_request : Request

module _ {Bytes R : Type 0} (s : Service Bytes R) where
  -- The world after a request.
  unfoldable pub serve : Request → World Bytes R → World Bytes R
  serve (preview_request principal snapshot binding_id) w =
      (preview_sync s principal snapshot binding_id w).1
  serve (apply_request principal id confirmed) w = (apply_sync s principal id confirmed w).1
  serve (status_request principal id) w = (operation_status s principal id w).1
  serve (recover_request principal id) w = (recover_operation s principal id w).1
  serve restart_request w = (resume s (alone "recover interrupted operations") w).1

  -- The world after requests, one after another.
  unfoldable pub history : List Request → World Bytes R → World Bytes R
  history [] w = w
  history (r ∷ rs) w = history rs (serve r w)

-- The world of a new installation.
abbrev pub new_world : {Bytes R : Type 0} → R → World Bytes R
new_world r = record { db = empty; remote = r; sent = [] }
