-- ===== src/Syncer/Blocks.antt =====
-- internal/syncer/service.go: the parts of the methods that send nothing keep every stable property.
use gpt_owu_bridge.Base.{String, Option, none, some, Bool, true, false, Result, ok, err}
use gpt_owu_bridge.Domain.{Time, SourceSnapshot, SyncPlan}
use gpt_owu_bridge.Diff.Run.{PreviewError}
use gpt_owu_bridge.Storage.Types.{StoredPlan, OperationRecord, BindingState}
use gpt_owu_bridge.Owu.{Snapshot, WriteError, outcome_unknown, definite}
use gpt_owu_bridge.Syncer.Types.{Service, World}
use gpt_owu_bridge.Syncer.Moves.{
  fail_operation, unknown_operation, fail_if, unknown_if, or_failed, or_unknown, settled,
}
use gpt_owu_bridge.Syncer.Plans.{make_persisted_plan, persist_plan, operation_identity}
use gpt_owu_bridge.Syncer.Preview.{
  previewed, store_preview, preview_create, preview_bound, preview_update, preview_sync,
}
use gpt_owu_bridge.Syncer.Safe.{Safe, Stable, Safe-pure, Safe-stop}
use gpt_owu_bridge.Syncer.Kept.{kept_rules, Safe-move_operation}

module _ {Bytes R : Type 0} (s : Service Bytes R) {P : World Bytes R → Type 0}
    (stable : Stable s.installation P) where
  pub Safe-fail_operation {ℓ} :
      {A : Type ℓ} (r : OperationRecord) (code : String) → Safe P (fail_operation s {A = A} r code)
  unfolding fail_operation
  Safe-fail_operation r code = search kept_rules

  pub Safe-unknown_operation {ℓ} :
      {A : Type ℓ} (r : OperationRecord) (code message : String)
      → Safe P (unknown_operation s {A = A} r code message)
  unfolding unknown_operation
  Safe-unknown_operation r code message = search kept_rules

  pub Safe-fail_if : (b : Bool) (r : OperationRecord) (code : String) → Safe P (fail_if s b r code)
  Safe-fail_if true r code = Safe-fail_operation r code
  Safe-fail_if false r code = Safe-pure tt

  pub Safe-unknown_if :
      (b : Bool) (r : OperationRecord) (code message : String)
      → Safe P (unknown_if s b r code message)
  Safe-unknown_if true r code message = Safe-unknown_operation r code message
  Safe-unknown_if false r code message = Safe-pure tt

  pub Safe-or_failed {ℓ} :
      {A : Type ℓ} (a : Option A) (r : OperationRecord) (code : String)
      → Safe P (or_failed s a r code)
  Safe-or_failed none r code = Safe-fail_operation r code
  Safe-or_failed (some a) r code = Safe-pure a

  pub Safe-or_unknown {ℓ} :
      {A : Type ℓ} (a : Option A) (r : OperationRecord) (code message : String)
      → Safe P (or_unknown s a r code message)
  Safe-or_unknown none r code message = Safe-unknown_operation r code message
  Safe-or_unknown (some a) r code message = Safe-pure a

  pub Safe-settled {ℓ} :
      {A : Type ℓ} (a : Result WriteError A) (r : OperationRecord) (code unknown message : String)
      → Safe P (settled s a r code unknown message)
  Safe-settled (ok a) r code unknown message = Safe-pure a
  Safe-settled (err outcome_unknown) r code unknown message =
      Safe-unknown_operation r unknown message
  Safe-settled (err definite) r code unknown message = Safe-fail_operation r code

pub ruleset block_rules = (
  kept_rules, Safe-fail_operation, Safe-unknown_operation, Safe-fail_if, Safe-unknown_if,
  Safe-or_failed, Safe-or_unknown, Safe-settled,
)

module _ {Bytes R : Type 0} (s : Service Bytes R) {P : World Bytes R → Type 0}
    (stable : Stable s.installation P) where
  pub Safe-make_persisted_plan :
      (plan : SyncPlan) (now ttl : Time) → Safe P (make_persisted_plan s plan now ttl)
  unfolding make_persisted_plan
  Safe-make_persisted_plan plan now ttl = search block_rules

  Safe-persist_plan :
      (source : SourceSnapshot) (plan : StoredPlan Bytes) → Safe P (persist_plan s source plan)
  unfolding persist_plan
  Safe-persist_plan source plan = search block_rules

  pub Safe-operation_identity : (plan : StoredPlan Bytes) → Safe P (operation_identity s plan)
  unfolding operation_identity
  Safe-operation_identity plan = search block_rules

  Safe-previewed : (r : Result PreviewError SyncPlan) → Safe P (previewed s r)
  Safe-previewed (ok plan) = Safe-pure plan
  Safe-previewed (err e) = Safe-stop _

  Safe-store_preview :
      (plan : SyncPlan) (id : String) (source : SourceSnapshot) (previous : Option SourceSnapshot)
      (actual : Option (Snapshot Bytes)) (desired : Snapshot Bytes) (now : Time)
      → Safe P (store_preview s plan id source previous actual desired now)
  unfolding store_preview
  Safe-store_preview plan id source previous actual desired now =
      search (block_rules, Safe-persist_plan)

  Safe-preview_create :
      (source : SourceSnapshot) (now : Time) → Safe P (preview_create s source now)
  unfolding preview_create
  Safe-preview_create source now =
      search (block_rules, Safe-previewed, Safe-make_persisted_plan, Safe-store_preview) depth 14

  Safe-preview_bound :
      (source : SourceSnapshot) (id : String) (state : BindingState) (actual : Snapshot Bytes)
      (now : Time)
      → Safe P (preview_bound s source id state actual now)
  unfolding preview_bound
  Safe-preview_bound source id state actual now =
      search (block_rules, Safe-previewed, Safe-make_persisted_plan, Safe-store_preview) depth 14

  Safe-preview_update :
      (source : SourceSnapshot) (id : String) (now : Time) → Safe P (preview_update s source id now)
  unfolding preview_update
  Safe-preview_update source id now = search (block_rules, Safe-preview_bound) depth 14

  pub Safe-preview_sync :
      (principal : String) (source : SourceSnapshot) (id : String)
      → Safe P (preview_sync s principal source id)
  unfolding preview_sync
  Safe-preview_sync principal source id =
      search (block_rules, Safe-preview_create, Safe-preview_update) depth 14
