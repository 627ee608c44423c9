-- ===== src/Syncer/Verified.antt =====
-- internal/syncer/service.go: a write is reported as done only when the chat has been read back and
-- is as planned.
use gpt_owu_bridge.Base.{
  ℕ, String, ◌≡◌, ap, sym, ◌∙◌, some, true, false, not, ◌||◌, ◌==◌, text_eq, ok, arith,
}
use gpt_owu_bridge.Domain.{Operation, Binding, SourceSnapshot, succeeded}
use gpt_owu_bridge.Storage.Types.{
  StoredPlan, OperationRecord, BindingState, VerifiedCreate, TargetBaseline,
}
use gpt_owu_bridge.Storage.Tables.{Db, OperationRow, find_operation}
use gpt_owu_bridge.Storage.Operations.{Failure, get_operation, scan_operation}
use gpt_owu_bridge.Storage.Rows.{plainly-found}
use gpt_owu_bridge.Storage.Finalized.{finalize_verified_create-Succeeded}
use gpt_owu_bridge.Storage.Versions.{complete_verified_update-Succeeded}
use gpt_owu_bridge.Owu.{Snapshot, has_operation_marker}
use gpt_owu_bridge.Syncer.Types.{Outcome, Service, World}
use gpt_owu_bridge.Syncer.Checks.{matches_planned}
use gpt_owu_bridge.Syncer.Repository.{load_operation, finalize_create, complete_update}
use gpt_owu_bridge.Syncer.Create.{conclude_create}
use gpt_owu_bridge.Syncer.Update.{elsewhere, conclude_update}
use gpt_owu_bridge.Syncer.Answers.{bind-elim, pure-returns, unknown_if-passed, ask_store-worked}
use gpt_owu_bridge.Syncer.Kept.{writing-found}

module _ {Bytes R : Type 0} (s : Service Bytes R) where
  -- A stored operation that has succeeded.
  abbrev Done : Db Bytes → String → Type 0
  Done db id = (o : OperationRow) × (find_operation db id ≡ some o) × (o.status ≡ succeeded)

  completed-Done :
      (o : Failure → Outcome) (id : String) (v : TargetBaseline) (version : ℕ) (w : World Bytes R)
      {u : Unit {0}}
      → (complete_update s o id v version w).0 ≡ ok u
      → Done (complete_update s o id v version w).1.db id
  unfolding complete_update
  completed-Done o id v version w h =
      let (now, e) = ask_store-worked s o _ w h in
      complete_verified_update-Succeeded s.platform s.installation id v version now w.db _
        (writing-found s.installation _ _ _ e)

  finalized-Done :
      (o : Failure → Outcome) (v : VerifiedCreate) (w : World Bytes R) {b : Binding}
      → (finalize_create s o v w).0 ≡ ok b
      → Done (finalize_create s o v w).1.db v.operation_id
  unfolding finalize_create
  finalized-Done o v w {b} h =
      let (now, e) = ask_store-worked s o _ w h in
      finalize_verified_create-Succeeded s.platform s.installation v now w.db b _
        (plainly-found _ e)

  loaded-Done :
      (o : Failure → Outcome) (id : String) (w : World Bytes R) {r : OperationRecord}
      → (load_operation s o id w).0 ≡ ok r
      → Done w.db id
      → r.operation.status ≡ succeeded
  unfolding load_operation get_operation scan_operation
  loaded-Done o id w h (row, found, done) =
      let (now, e) = ask_store-worked s o _ w h in ground (arith, e)

  -- What has been read back when an update is reported as done.
  pub record UpdateVerified (r : OperationRecord) (plan : StoredPlan Bytes) (state : BindingState)
      (actual : Snapshot Bytes) (done : Operation) : Type 0 where
    pub same_chat : actual.chat_id ≡ state.binding.target_chat_id
    pub same_owner : actual.owner_id ≡ s.installation.owu_account_id
    pub marked : has_operation_marker s.documents actual r.operation.id false ≡ true
    pub planned : matches_planned s actual plan ≡ true
    pub succeeds : done.status ≡ succeeded

  -- An update is reported as done only for a chat that is the one of the binding and of the
  -- account, that carries the marker of the operation and is as planned; and the operation that
  -- is returned has succeeded.
  pub conclude_update-Verified :
      (r : OperationRecord) (plan : StoredPlan Bytes) (state : BindingState)
      (actual : Snapshot Bytes) (w : World Bytes R) (done : Operation)
      → (conclude_update s r plan state actual w).0 ≡ ok done
      → UpdateVerified r plan state actual done
  unfolding conclude_update
  conclude_update-Verified r plan state actual w done h = bind-elim _ _ w h λ _ e₁ h₁.
      bind-elim _ _ _ h₁ λ _ e₂ h₂. bind-elim _ _ _ h₂ λ moved _ h₃. bind-elim _ _ _ h₃ λ hash _ h₄.
        bind-elim _ _ _ h₄ λ now _ h₅. bind-elim _ _ _ h₅ λ _ e₆ h₆.
          bind-elim _ _ _ h₆ λ finished e₇ h₇.
            let here : elsewhere s actual state ≡ false = unknown_if-passed s _ _ _ _ _ e₁ in
            let matched : (not (has_operation_marker s.documents actual r.operation.id false)
                  || not (matches_planned s actual plan))
                ≡ false =
              unknown_if-passed s _ _ _ _ _ e₂ in
            let succeeds = loaded-Done _ _ _ e₇ (completed-Done _ _ _ _ _ e₆) in
            record {
              same_chat = ground arith;
              same_owner = ground arith;
              marked = ground arith;
              planned = ground arith;
              succeeds = sym (ap (λ x. x.status) (pure-returns finished.operation _ h₇)) ∙ succeeds;
            }

  pub record CreateVerified (r : OperationRecord) (plan : StoredPlan Bytes)
      (actual : Snapshot Bytes) (done : Operation) : Type 0 where
    pub same_chat : actual.chat_id ≡ r.target_chat_id
    pub same_owner : actual.owner_id ≡ s.installation.owu_account_id
    pub marked : has_operation_marker s.documents actual r.operation.id true ≡ true
    pub planned : matches_planned s actual plan ≡ true
    pub succeeds : done.status ≡ succeeded

  -- A creation is reported as done only for a chat that is the one of the receipt and of the
  -- account, that carries the marker of the operation and is as planned; and the operation that
  -- is returned has succeeded.
  pub conclude_create-Verified :
      (r : OperationRecord) (plan : StoredPlan Bytes) (source : SourceSnapshot)
      (actual : Snapshot Bytes) (w : World Bytes R) (done : Operation)
      → (conclude_create s r plan source actual w).0 ≡ ok done
      → CreateVerified r plan actual done
  unfolding conclude_create
  conclude_create-Verified r plan source actual w done h = bind-elim _ _ w h λ _ e₁ h₁.
      bind-elim _ _ _ h₁ λ _ e₂ h₂. bind-elim _ _ _ h₂ λ moved _ h₃. bind-elim _ _ _ h₃ λ id _ h₄.
        bind-elim _ _ _ h₄ λ binding e₅ h₅. bind-elim _ _ _ h₅ λ finished e₆ h₆.
          let here : (not (actual.chat_id == r.target_chat_id)
                || not (actual.owner_id == s.installation.owu_account_id))
              ≡ false =
            unknown_if-passed s _ _ _ _ _ e₁ in
          let matched : (not (has_operation_marker s.documents actual r.operation.id true)
                || not (matches_planned s actual plan))
              ≡ false =
            unknown_if-passed s _ _ _ _ _ e₂ in
          let succeeds = loaded-Done _ _ _ e₆ (finalized-Done _ _ _ e₅) in
          record {
            same_chat = ground arith;
            same_owner = ground arith;
            marked = ground arith;
            planned = ground arith;
            succeeds = sym (ap (λ x. x.status) (pure-returns finished.operation _ h₆)) ∙ succeeds;
          }
