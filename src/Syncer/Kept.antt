-- ===== src/Syncer/Kept.antt =====
-- internal/syncer/service.go: the calls of the store and the target that send nothing keep every
-- stable property, and so do the blocks that are made of them.
use gpt_owu_bridge.Base.{ℕ, String, ◌≡◌, refl, subst, List, Bool, Result, ok, err, arith}
use gpt_owu_bridge.Domain.{Time, Binding, OperationStatus, SourceSnapshot}
use gpt_owu_bridge.Storage.Types.{
  StorageError, Installation, Platform, StoredPlan, OperationRecord, CreateRequest,
  PrepareOperationRequest, TransitionPatch, VerifiedCreate, TargetBaseline,
}
use gpt_owu_bridge.Storage.Tables.{Db}
use gpt_owu_bridge.Storage.Operations.{Failure, get_operation, get_operation_by_idempotency}
use gpt_owu_bridge.Storage.Allowed.{get_binding_state}
use gpt_owu_bridge.Storage.Transition.{transition_operation}
use gpt_owu_bridge.Storage.Bindings.{finalize_verified_create}
use gpt_owu_bridge.Storage.Rows.{plainly-found}
use gpt_owu_bridge.Storage.Evidence.{
  Keeps-refl, Keeps-Unchanged, Unchanged, put_source_snapshot-Unchanged, save_plan-Unchanged,
  confirm_plan-Unchanged,
}
use gpt_owu_bridge.Storage.Preserved.{
  Preserved, prepare_create-Preserved, prepare_binding_operation-Preserved,
  transition_operation-Preserved, recover_interrupted-Preserved,
}
use gpt_owu_bridge.Storage.Updated.{Advanced, Advanced-Keeps}
use gpt_owu_bridge.Storage.Finalized.{finalize_verified_create-Evidenced}
use gpt_owu_bridge.Storage.Completed.{complete_verified_update-Advanced}
use gpt_owu_bridge.Storage.Calls.{finalize-IsTrusted}
use gpt_owu_bridge.Syncer.Types.{ServiceError, Outcome, Service, World}
use gpt_owu_bridge.Syncer.Repository.{
  reading, writing, preparing, load_source, put_snapshot, put_plan, load_plan, confirm_stored,
  load_state, try_state, load_operation, look_up, trusted_target, prepare_creation,
  prepare_operation, move_operation, finalize_create, complete_update, resume, verify_downstream,
}
use gpt_owu_bridge.Syncer.Safe.{
  safe_rules, Safe, Stable, Safe-pure, Safe-stop, Safe-bind, Safe-if, Safe-need, Safe-check,
  Safe-read_clock, Safe-fresh_id, Safe-verify_identity, Safe-read_target,
}
use gpt_owu_bridge.Syncer.Asking.{Harmless, Safe-try_store, Safe-ask_store}

module _ {Bytes : Type 0} (i : Installation) where
  Unchanged-Advanced : (db db' : Db Bytes) → Unchanged db db' → Advanced i db db'
  Unchanged-Advanced db db' u = Advanced-Keeps i db db' (Keeps-Unchanged u) u.bindings_same

  Preserved-Advanced : (db db' : Db Bytes) → Preserved db db' → Advanced i db db'
  Preserved-Advanced db db' u = Advanced-Keeps i db db' u.keeps u.bindings_same

  Advanced-refl : (db : Db Bytes) → Advanced i db db
  Advanced-refl db = Advanced-Keeps i db db (Keeps-refl db) refl

  reading-Advanced {ℓ} :
      {A : Type ℓ} (db : Db Bytes) (r : Result StorageError A) (a : A) (db' : Db Bytes)
      → reading db r ≡ ok (a, db')
      → Advanced i db db'
  reading-Advanced db (ok b) a db' h =
      let same : db ≡ db' = ground arith in subst (Advanced i db) same (Advanced-refl db)
  reading-Advanced db (err e) a db' h = absurd (ground arith)

  pub writing-found :
      (r : Result StorageError (Db Bytes)) (a : Unit {0}) (db' : Db Bytes)
      → writing r ≡ ok (a, db')
      → r ≡ ok db'
  writing-found (ok b) a db' h = ground arith
  writing-found (err e) a db' h = absurd (ground arith)

  preparing-found :
      (r : Result Failure (OperationRecord × Bool × Db Bytes)) (a : OperationRecord × Bool)
      (db' : Db Bytes)
      → preparing r ≡ ok (a, db')
      → r ≡ ok (a.0, a.1, db')
  preparing-found (ok (r, created, b)) a db' h = ground arith
  preparing-found (err e) a db' h = absurd (ground arith)

  finalize-Advanced :
      (p : Platform Bytes) (v : VerifiedCreate) (now : Time) (db : Db Bytes) (b : Binding)
      (db' : Db Bytes)
      → finalize_verified_create p i v now db ≡ ok (b, db')
      → Advanced i db db'
  finalize-Advanced p v now db b db' h = record {
    keeps = (finalize_verified_create-Evidenced p i v now db b db' h).0;
    evidenced = finalize-IsTrusted p i v now db b db' h;
  }

module _ {Bytes R : Type 0} (s : Service Bytes R) {P : World Bytes R → Type 0}
    (stable : Stable s.installation P) where
  pub Safe-load_source : (o : Failure → Outcome) (hash : String) → Safe P (load_source s o hash)
  unfolding load_source
  Safe-load_source o hash =
      Safe-ask_store s stable o _ λ _ db a db' h. reading-Advanced s.installation db _ a db' h

  pub Safe-put_snapshot :
      (o : Failure → Outcome) (source : SourceSnapshot) → Safe P (put_snapshot s o source)
  unfolding put_snapshot
  Safe-put_snapshot o source = Safe-ask_store s stable o _ λ now db a db' h.
      Unchanged-Advanced s.installation db db' (
        put_source_snapshot-Unchanged s.platform source now db db'
          (writing-found s.installation _ a db' h))

  pub Safe-put_plan : (o : Failure → Outcome) (plan : StoredPlan Bytes) → Safe P (put_plan s o plan)
  unfolding put_plan
  Safe-put_plan o plan = Safe-ask_store s stable o _ λ now db a db' h.
      Unchanged-Advanced s.installation db db' (
        save_plan-Unchanged s.platform s.installation plan now db db'
          (writing-found s.installation _ a db' h))

  pub Safe-load_plan : (o : Failure → Outcome) (id : String) → Safe P (load_plan s o id)
  unfolding load_plan
  Safe-load_plan o id =
      Safe-ask_store s stable o _ λ _ db a db' h. reading-Advanced s.installation db _ a db' h

  pub Safe-confirm_stored :
      (o : Failure → Outcome) (id : String) (t : Time) → Safe P (confirm_stored s o id t)
  unfolding confirm_stored
  Safe-confirm_stored o id t = Safe-ask_store s stable o _ λ now db a db' h.
      Unchanged-Advanced s.installation db db'
        (confirm_plan-Unchanged s.platform s.installation id t now db db' a (plainly-found _ h))

  pub state-Harmless :
      (id : String)
      → Harmless s stable λ _ db. reading db (get_binding_state s.platform db s.installation id)
  state-Harmless id now db a db' h = reading-Advanced s.installation db _ a db' h

  pub Safe-load_state : (o : Failure → Outcome) (id : String) → Safe P (load_state s o id)
  unfolding load_state
  Safe-load_state o id =
      Safe-ask_store s stable o _ λ _ db a db' h. reading-Advanced s.installation db _ a db' h

  pub Safe-try_state : (id : String) → Safe P (try_state s id)
  unfolding try_state
  Safe-try_state id =
      Safe-try_store s stable _ λ _ db a db' h. reading-Advanced s.installation db _ a db' h

  pub operation-Harmless :
      (id : String) → Harmless s stable λ _ db. reading db (get_operation db id)
  operation-Harmless id now db a db' h = reading-Advanced s.installation db _ a db' h

  pub Safe-load_operation : (o : Failure → Outcome) (id : String) → Safe P (load_operation s o id)
  unfolding load_operation
  Safe-load_operation o id =
      Safe-ask_store s stable o _ λ _ db a db' h. reading-Advanced s.installation db _ a db' h

  pub Safe-look_up : (o : Failure → Outcome) (key : String) → Safe P (look_up s o key)
  unfolding look_up
  Safe-look_up o key = Safe-ask_store s stable o _ λ _ db a db' h.
      reading-Advanced s.installation db (ok (get_operation_by_idempotency db key)) a db' h

  pub Safe-trusted_target : (o : Failure → Outcome) (id : String) → Safe P (trusted_target s o id)
  unfolding trusted_target
  Safe-trusted_target o id =
      Safe-ask_store s stable o _ λ _ db a db' h. reading-Advanced s.installation db _ a db' h

  pub Safe-prepare_creation :
      (o : Failure → Outcome) (request : CreateRequest) → Safe P (prepare_creation s o request)
  unfolding prepare_creation
  Safe-prepare_creation o request = Safe-ask_store s stable o _ λ now db a db' h.
      Preserved-Advanced s.installation db db' (
        prepare_create-Preserved s.platform s.installation request now db a.0 a.1 db'
          (preparing-found s.installation _ a db' h))

  pub Safe-prepare_operation :
      (o : Failure → Outcome) (request : PrepareOperationRequest)
      → Safe P (prepare_operation s o request)
  unfolding prepare_operation
  Safe-prepare_operation o request = Safe-ask_store s stable o _ λ now db a db' h.
      Preserved-Advanced s.installation db db' (
        prepare_binding_operation-Preserved s.platform s.installation request now db a.0 a.1 db'
          (preparing-found s.installation _ a db' h))

  pub move_operation-Harmless :
      (id : String) (expected : List OperationStatus) (next : OperationStatus)
      (patch : TransitionPatch)
      → Harmless s stable λ now db. transition_operation id expected next patch now db
  move_operation-Harmless id expected next patch now db a db' h =
      Preserved-Advanced s.installation db db'
        (transition_operation-Preserved id expected next patch now db a db' h)

  pub Safe-move_operation :
      (o : Failure → Outcome) (id : String) (expected : List OperationStatus)
      (next : OperationStatus) (patch : TransitionPatch)
      → Safe P (move_operation s o id expected next patch)
  unfolding move_operation
  Safe-move_operation o id expected next patch =
      Safe-ask_store s stable o _ (move_operation-Harmless id expected next patch)

  pub Safe-finalize_create :
      (o : Failure → Outcome) (v : VerifiedCreate) → Safe P (finalize_create s o v)
  unfolding finalize_create
  Safe-finalize_create o v = Safe-ask_store s stable o _ λ now db a db' h.
      finalize-Advanced s.installation s.platform v now db a db' (plainly-found _ h)

  pub Safe-complete_update :
      (o : Failure → Outcome) (id : String) (v : TargetBaseline) (version : ℕ)
      → Safe P (complete_update s o id v version)
  unfolding complete_update
  Safe-complete_update o id v version = Safe-ask_store s stable o _ λ now db a db' h.
      complete_verified_update-Advanced s.platform s.installation id v version now db db'
        (writing-found s.installation _ a db' h)

  pub Safe-resume : (o : Failure → Outcome) → Safe P (resume s o)
  unfolding resume
  Safe-resume o = Safe-ask_store s stable o _ λ now db a db' h.
      Preserved-Advanced s.installation db db'
        (recover_interrupted-Preserved now db a db' (plainly-found _ h))

  pub Safe-verify_downstream : (o : ServiceError → Outcome) → Safe P (verify_downstream s o)
  unfolding verify_downstream
  Safe-verify_downstream o = search safe_rules

pub ruleset kept_rules = (
  safe_rules, Safe-load_source, Safe-put_snapshot, Safe-put_plan, Safe-load_plan,
  Safe-confirm_stored, Safe-load_state, Safe-try_state, Safe-load_operation, Safe-look_up,
  Safe-trusted_target, Safe-prepare_creation, Safe-prepare_operation, Safe-move_operation,
  Safe-finalize_create, Safe-complete_update, Safe-resume, Safe-verify_downstream,
)
