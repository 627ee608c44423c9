-- ===== src/Storage/Evidence.antt =====
-- internal/storage: what stands behind each installed binding, and what the calls leave alone.
use gpt_owu_bridge.Base.{
  String, ◌≡◌, refl, ◌∙◌, inl, inr, ◌≢◌, List, [], ◌∷◌, Option, some, Bool, true, Bool-cases, ◌==◌,
  text_eq, find_first, ok, >>=-elim, arith,
}
use gpt_owu_bridge.Domain.{Time, MessageMapping, SourceSnapshot, prepared, succeeded}
use gpt_owu_bridge.Storage.Types.{create, kind_eq, status_eq, Installation, Platform, StoredPlan}
use gpt_owu_bridge.Storage.Tables.{
  Db, OperationRow, IntentRow, AllowRow, BindingRow, BaselineRow, MappingRow, find_operation,
  find_intent, modify_where, insert_mapping, insert_baseline,
}
use gpt_owu_bridge.Storage.Records.{put_source_snapshot, save_plan, confirm_plan}
use gpt_owu_bridge.Storage.Rows.{find_first-modify_where}
use gpt_owu_bridge.Storage.Mappings.{insert_mappings, mapping_row, replace_mappings}

module _ {Bytes : Type 0} where
  -- The look-up by the key of the allowlist.
  unfoldable pub find_allowed : Db Bytes → String → Option AllowRow
  find_allowed db id = find_first (λ a. a.target_chat_id == id) db.allowlist

  -- The evidence of a binding: the operation that created it has succeeded with a receipt, on the
  -- target of the binding, its intent was recorded, and the target is allowed for this binding.
  pub record Evidenced (installation : Installation) (db : Db Bytes) (b : BindingRow Bytes)
      : Type 0 where
    pub operation : OperationRow
    pub operation_found : find_operation db b.created_by_operation ≡ some operation
    pub made : operation.kind ≡ create
    pub done : operation.status ≡ succeeded
    pub receipt : operation.remote_receipt_id ≢ ""
    pub on_target : operation.target_chat_id ≡ b.target_chat_id
    pub on_binding : operation.binding_id ≡ b.binding_id
    pub intent : IntentRow
    pub intent_found : find_intent db b.created_by_operation ≡ some intent
    pub allowed : AllowRow
    pub allowed_found : find_allowed db b.target_chat_id ≡ some allowed
    pub allowed_binding : allowed.binding_id ≡ b.binding_id
    pub allowed_operation : allowed.creation_operation_id ≡ b.created_by_operation
    pub installed_here : b.installation_id ≡ installation.id
    pub owned : b.owner_id ≡ installation.owner_id

  -- An operation that is past its preparation.
  pub record Started (db : Db Bytes) (id : String) : Type 0 where
    pub operation : OperationRow
    pub found : find_operation db id ≡ some operation
    pub begun : operation.status ≢ prepared

  -- Everything that evidence rests on stays, and no operation goes back to its preparation.
  pub record Keeps (db db' : Db Bytes) : Type 0 where
    pub operations_kept :
        (id : String) (o : OperationRow)
        → find_operation db id ≡ some o
        → o.status ≡ succeeded
        → find_operation db' id ≡ some o
    pub intents_kept :
        (id : String) (i : IntentRow) → find_intent db id ≡ some i → find_intent db' id ≡ some i
    pub allowed_kept :
        (id : String) (a : AllowRow) → find_allowed db id ≡ some a → find_allowed db' id ≡ some a
    pub started_kept : (id : String) → Started db id → Started db' id

  -- An update of rows that prepares none.
  pub Started-modify_where :
      (db db' : Db Bytes) (p : OperationRow → Bool) (f : OperationRow → OperationRow)
      → db'.operations ≡ modify_where p f db.operations
      → ((r : OperationRow) → (f r).operation_id ≡ r.operation_id)
      → ((r : OperationRow) → p r ≡ true → r.status ≢ prepared → (f r).status ≢ prepared)
      → (id : String) → Started db id
      → Started db' id
  unfolding find_operation
  Started-modify_where db db' p f e same n id s =
      let o = s.operation in
      let key : (r : OperationRow) → ((f r).operation_id == id) ≡ (r.operation_id == id) =
        λ r. rw (same r) refl in
      let after = find_first-modify_where (λ r. r.operation_id == id) p f db.operations key in
      elim (Bool-cases (p o)) [
        | inl t ↦ record {
          operation = f o;
          found = rw e (after ∙ rw s.found (rw t refl));
          begun = n o t s.begun;
        }
        | inr t ↦ record {
          operation = o;
          found = rw e (after ∙ rw s.found (rw t refl));
          begun = s.begun;
        }
      ]

  pub Started-same :
      {db db' : Db Bytes}
      → db'.operations ≡ db.operations
      → (id : String) → Started db id
      → Started db' id
  unfolding find_operation
  Started-same e id s = record { operation = s.operation; found = rw e s.found; begun = s.begun }

  pub Keeps-refl : (db : Db Bytes) → Keeps db db
  Keeps-refl db = record {
    operations_kept = λ _ _ h _. h;
    intents_kept = λ _ _ h. h;
    allowed_kept = λ _ _ h. h;
    started_kept = λ _ h. h;
  }

  pub Keeps-trans : {a b c : Db Bytes} → Keeps a b → Keeps b c → Keeps a c
  Keeps-trans k l = record {
    operations_kept = λ id o h e. l.operations_kept id o (k.operations_kept id o h e) e;
    intents_kept = λ id i h. l.intents_kept id i (k.intents_kept id i h);
    allowed_kept = λ id i h. l.allowed_kept id i (k.allowed_kept id i h);
    started_kept = λ id h. l.started_kept id (k.started_kept id h);
  }

  -- A binding that keeps its names keeps its evidence.
  pub Evidenced-Keeps :
      (installation : Installation) (db db' : Db Bytes) (b : BindingRow Bytes)
      → Keeps db db'
      → Evidenced installation db b
      → Evidenced installation db' b
  Evidenced-Keeps installation db db' b k e = record {
    operation = e.operation;
    operation_found = k.operations_kept _ _ e.operation_found e.done;
    made = e.made;
    done = e.done;
    receipt = e.receipt;
    on_target = e.on_target;
    on_binding = e.on_binding;
    intent = e.intent;
    intent_found = k.intents_kept _ _ e.intent_found;
    allowed = e.allowed;
    allowed_found = k.allowed_kept _ _ e.allowed_found;
    allowed_binding = e.allowed_binding;
    allowed_operation = e.allowed_operation;
    installed_here = e.installed_here;
    owned = e.owned;
  }

  -- Tables that evidence reads are as before.
  pub record Unchanged (db db' : Db Bytes) : Type 0 where
    pub operations_same : db'.operations ≡ db.operations
    pub intents_same : db'.intents ≡ db.intents
    pub allowlist_same : db'.allowlist ≡ db.allowlist
    pub bindings_same : db'.bindings ≡ db.bindings

  pub Keeps-Unchanged : {db db' : Db Bytes} → Unchanged db db' → Keeps db db'
  unfolding find_operation find_intent find_allowed
  Keeps-Unchanged {db} {db'} u = record {
    operations_kept = λ id o h e. rw u.operations_same h;
    intents_kept = λ id i h. rw u.intents_same h;
    allowed_kept = λ id a h. rw u.allowlist_same h;
    started_kept = λ id s. Started-same u.operations_same id s;
  }

  pub put_source_snapshot-Unchanged :
      (p : Platform Bytes) (s : SourceSnapshot) (now : Time) (db db' : Db Bytes)
      → put_source_snapshot p s now db ≡ ok db'
      → Unchanged db db'
  unfolding put_source_snapshot
  put_source_snapshot-Unchanged p s now db db' h = record {
    operations_same = ground arith;
    intents_same = ground arith;
    allowlist_same = ground arith;
    bindings_same = ground arith;
  }

  pub save_plan-Unchanged :
      (p : Platform Bytes) (i : Installation) (plan : StoredPlan Bytes) (now : Time)
      (db db' : Db Bytes)
      → save_plan p i plan now db ≡ ok db'
      → Unchanged db db'
  unfolding save_plan
  save_plan-Unchanged p i plan now db db' h = record {
    operations_same = ground arith;
    intents_same = ground arith;
    allowlist_same = ground arith;
    bindings_same = ground arith;
  }

  pub confirm_plan-Unchanged :
      (p : Platform Bytes) (i : Installation) (id : String) (given clock : Time) (db db' : Db Bytes)
      (plan : StoredPlan Bytes)
      → confirm_plan p i id given clock db ≡ ok (plan, db')
      → Unchanged db db'
  unfolding confirm_plan
  confirm_plan-Unchanged p i id given clock db db' plan h = record {
    operations_same = ground arith;
    intents_same = ground arith;
    allowlist_same = ground arith;
    bindings_same = ground arith;
  }

  pub Unchanged-trans : {a b c : Db Bytes} → Unchanged a b → Unchanged b c → Unchanged a c
  Unchanged-trans u v = record {
    operations_same = v.operations_same ∙ u.operations_same;
    intents_same = v.intents_same ∙ u.intents_same;
    allowlist_same = v.allowlist_same ∙ u.allowlist_same;
    bindings_same = v.bindings_same ∙ u.bindings_same;
  }

  insert_mapping-Unchanged :
      (row : MappingRow) (db db' : Db Bytes) → insert_mapping db row ≡ ok db' → Unchanged db db'
  unfolding insert_mapping
  insert_mapping-Unchanged row db db' h = record {
    operations_same = ground arith;
    intents_same = ground arith;
    allowlist_same = ground arith;
    bindings_same = ground arith;
  }

  insert_mappings-Unchanged :
      (id : String) (ms : List MessageMapping) (db db' : Db Bytes)
      → insert_mappings id ms db ≡ ok db'
      → Unchanged db db'
  unfolding insert_mappings insert_mapping
  insert_mappings-Unchanged id [] db db' h = record {
    operations_same = ground arith;
    intents_same = ground arith;
    allowlist_same = ground arith;
    bindings_same = ground arith;
  }
  insert_mappings-Unchanged id (m ∷ ms) db db' h =
      >>=-elim (insert_mapping db (mapping_row id m)) _ h λ mid a b.
        Unchanged-trans (insert_mapping-Unchanged _ db mid a)
          (insert_mappings-Unchanged id ms mid db' b)

  pub replace_mappings-Unchanged :
      (id : String) (ms : List MessageMapping) (db db' : Db Bytes)
      → replace_mappings id ms db ≡ ok db'
      → Unchanged db db'
  unfolding replace_mappings
  replace_mappings-Unchanged id ms db db' h =
      let u = insert_mappings-Unchanged id ms _ db' h in
      record {
        operations_same = u.operations_same;
        intents_same = u.intents_same;
        allowlist_same = u.allowlist_same;
        bindings_same = u.bindings_same;
      }

  pub insert_baseline-Unchanged :
      (row : BaselineRow Bytes) (db db' : Db Bytes)
      → insert_baseline db row ≡ ok db'
      → Unchanged db db'
  unfolding insert_baseline
  insert_baseline-Unchanged row db db' h = record {
    operations_same = ground arith;
    intents_same = ground arith;
    allowlist_same = ground arith;
    bindings_same = ground arith;
  }
