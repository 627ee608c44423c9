-- ===== src/Syncer/Silent.antt =====
-- internal/syncer/service.go: what follows a write, and the recovery of an operation that has been
-- sent, send nothing themselves.
use gpt_owu_bridge.Base.{String, Bool, Result}
use gpt_owu_bridge.Domain.{SourceSnapshot}
use gpt_owu_bridge.Storage.Types.{StoredPlan, OperationRecord, BindingState}
use gpt_owu_bridge.Owu.{Snapshot, CreateReceipt, UpdateReceipt, WriteError}
use gpt_owu_bridge.Syncer.Types.{Service, World}
use gpt_owu_bridge.Syncer.Create.{resumed, conclude_create, receive_creation, reconcile_create}
use gpt_owu_bridge.Syncer.Update.{
  conclude_update, receive_update, confirm_state, execute_no_change, compare_update,
  reconcile_update,
}
use gpt_owu_bridge.Syncer.Service.{
  confirmed_plan, check_binding_version, paused, recover_sent, operation_status, replay,
}
use gpt_owu_bridge.Syncer.Safe.{Safe, Stable}
use gpt_owu_bridge.Syncer.Blocks.{block_rules}

module _ {Bytes R : Type 0} (s : Service Bytes R) {P : World Bytes R → Type 0}
    (stable : Stable s.installation P) where
  Safe-resumed : (r : OperationRecord) (action : String) → Safe P (resumed s r action)
  Safe-resumed r action = search block_rules depth 8

  Safe-conclude_create :
      (r : OperationRecord) (plan : StoredPlan Bytes) (source : SourceSnapshot)
      (actual : Snapshot Bytes)
      → Safe P (conclude_create s r plan source actual)
  unfolding conclude_create
  Safe-conclude_create r plan source actual = search (block_rules, Safe-resumed) depth 14

  pub Safe-receive_creation :
      (r : OperationRecord) (plan : StoredPlan Bytes) (source : SourceSnapshot)
      (answer : Result WriteError (CreateReceipt Bytes))
      → Safe P (receive_creation s r plan source answer)
  unfolding receive_creation
  Safe-receive_creation r plan source answer = search (block_rules, Safe-conclude_create) depth 14

  Safe-reconcile_create :
      (r : OperationRecord) (plan : StoredPlan Bytes) → Safe P (reconcile_create s r plan)
  unfolding reconcile_create
  Safe-reconcile_create r plan = search (block_rules, Safe-conclude_create) depth 14

  Safe-conclude_update :
      (r : OperationRecord) (plan : StoredPlan Bytes) (state : BindingState)
      (actual : Snapshot Bytes)
      → Safe P (conclude_update s r plan state actual)
  unfolding conclude_update
  Safe-conclude_update r plan state actual = search (block_rules, Safe-resumed) depth 14

  pub Safe-receive_update :
      (r : OperationRecord) (plan : StoredPlan Bytes) (state : BindingState)
      (answer : Result WriteError (UpdateReceipt Bytes))
      → Safe P (receive_update s r plan state answer)
  unfolding receive_update
  Safe-receive_update r plan state answer = search (block_rules, Safe-conclude_update) depth 14

  Safe-confirm_state :
      (r : OperationRecord) (plan : StoredPlan Bytes) (state : BindingState)
      → Safe P (confirm_state s r plan state)
  unfolding confirm_state
  Safe-confirm_state r plan state = search block_rules depth 14

  pub Safe-execute_no_change :
      (r : OperationRecord) (plan : StoredPlan Bytes) → Safe P (execute_no_change s r plan)
  unfolding execute_no_change
  Safe-execute_no_change r plan = search (block_rules, Safe-confirm_state)

  Safe-compare_update :
      (r : OperationRecord) (plan : StoredPlan Bytes) (state : BindingState)
      (actual : Snapshot Bytes)
      → Safe P (compare_update s r plan state actual)
  unfolding compare_update
  Safe-compare_update r plan state actual = search (block_rules, Safe-conclude_update) depth 10

  Safe-reconcile_update :
      (r : OperationRecord) (plan : StoredPlan Bytes) → Safe P (reconcile_update s r plan)
  unfolding reconcile_update
  Safe-reconcile_update r plan = search (block_rules, Safe-compare_update) depth 10

  Safe-paused : (r : OperationRecord) → Safe P (paused s r)
  Safe-paused r = search block_rules depth 8

  pub Safe-recover_sent :
      (r : OperationRecord) (plan : StoredPlan Bytes) → Safe P (recover_sent s r plan)
  unfolding recover_sent
  Safe-recover_sent r plan =
      search (block_rules, Safe-paused, Safe-reconcile_create, Safe-reconcile_update) depth 10

  pub Safe-operation_status : (principal id : String) → Safe P (operation_status s principal id)
  unfolding operation_status
  Safe-operation_status principal id = search block_rules depth 10

  pub Safe-confirmed_plan :
      (plan : StoredPlan Bytes) (id : String) (confirmed : Bool)
      → Safe P (confirmed_plan s plan id confirmed)
  unfolding confirmed_plan
  Safe-confirmed_plan plan id confirmed = search block_rules depth 10

  pub Safe-replay :
      (existing : OperationRecord) (payload : String) → Safe P (replay s existing payload)
  Safe-replay existing payload = search block_rules depth 8

  pub Safe-check_binding_version :
      (r : OperationRecord) (plan : StoredPlan Bytes) → Safe P (check_binding_version s r plan)
  Safe-check_binding_version r plan = search block_rules depth 8
