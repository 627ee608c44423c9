-- ===== src/Storage/Preserved.antt =====
-- internal/storage/operations.go: the calls that make and move operations leave every binding,
-- and all that its evidence rests on.
use gpt_owu_bridge.Base.{
  String, ◌≡◌, refl, ◌∙◌, sym, ap, ◌≢◌, inl, inr, List, [], ◌∷◌, ◌++◌, Bool, true, false, not, ◌==◌,
  text_eq, ◌&&◌, joined, Bool-cases, ok, >>=-elim, arith, refused-elim, ==→eq,
}
use gpt_owu_bridge.Domain.{
  Time, OperationStatus, prepared, applying, verifying, succeeded, failed, needs_reconciliation,
}
use gpt_owu_bridge.Storage.Types.{
  create, update, archive, kind_eq, status_eq, Installation, Platform, CreateRequest, StoredPlan,
  PrepareOperationRequest, TransitionPatch, OperationRecord,
}
use gpt_owu_bridge.Storage.Tables.{
  Db, OperationRow, IntentRow, unresolved, find_operation, find_intent, insert_operation,
  insert_intent,
}
use gpt_owu_bridge.Storage.Operations.{transition_allowed, plainly, new_operation}
use gpt_owu_bridge.Storage.Prepare.{
  insert_prepared_operation, create_lock, new_intent, check_request, write_binding_operation,
  write_create, create_operation, prepare_create, binding_operation, prepare_binding_operation,
}
use gpt_owu_bridge.Storage.Transition.{
  interrupted, paused_row, mark_interrupted, recover_interrupted, transition_operation,
}
use gpt_owu_bridge.Storage.Rows.{plainly-found, find_first-append_some, find_first-spared}
use gpt_owu_bridge.Storage.Moves.{Moved, transition_operation-Moved}
use gpt_owu_bridge.Storage.Evidence.{
  find_allowed, Keeps, Keeps-refl, Keeps-trans, Started-modify_where, Started-same,
}

open-unfinished : (row : OperationRow) → unresolved row.status ≡ true → row.status ≢ succeeded
open-unfinished row h e = ground arith

-- No move leads to the preparation.
allowed-ahead : (s : OperationStatus) → transition_allowed s prepared ≡ false
unfolding transition_allowed
allowed-ahead prepared = refl
allowed-ahead applying = refl
allowed-ahead verifying = refl
allowed-ahead succeeded = refl
allowed-ahead failed = refl
allowed-ahead needs_reconciliation = refl

past :
    (row new : OperationRow) (next : OperationStatus) → Moved row new next → new.status ≢ prepared
past row new next m e =
    let here : next ≡ prepared = sym m.status ∙ e in
    absurd (cc (m.allowed, allowed-ahead row.status, ap (transition_allowed row.status) here))

module _ {Bytes : Type 0} where
  -- The evidence stays, and no binding changes.
  pub record Preserved (db db' : Db Bytes) : Type 0 where
    pub keeps : Keeps db db'
    pub bindings_same : db'.bindings ≡ db.bindings

  pub Preserved-refl : (db : Db Bytes) → Preserved db db
  Preserved-refl db = record { keeps = Keeps-refl db; bindings_same = refl }

  pub Preserved-trans : {a b c : Db Bytes} → Preserved a b → Preserved b c → Preserved a c
  Preserved-trans k l = record {
    keeps = Keeps-trans k.keeps l.keeps;
    bindings_same = l.bindings_same ∙ k.bindings_same;
  }

  insert_operation-Preserved :
      (row : OperationRow) (db db' : Db Bytes) → insert_operation db row ≡ ok db' → Preserved db db'
  unfolding insert_operation find_operation find_intent find_allowed
  insert_operation-Preserved row db db' h =
      let e : db'.operations ≡ db.operations ++ row ∷ [] = ground arith in
      let i : db'.intents ≡ db.intents = ground arith in
      let a : db'.allowlist ≡ db.allowlist = ground arith in
      record {
        keeps = record {
          operations_kept = λ id o f _. rw e (find_first-append_some _ db.operations _ o f);
          intents_kept = λ id r f. rw i f;
          allowed_kept = λ id r f. rw a f;
          started_kept = λ id s. record {
            operation = s.operation;
            found = rw e (find_first-append_some _ db.operations _ s.operation s.found);
            begun = s.begun;
          };
        };
        bindings_same = ground arith;
      }

  insert_intent-Preserved :
      (row : IntentRow) (db db' : Db Bytes) → insert_intent db row ≡ ok db' → Preserved db db'
  unfolding insert_intent find_operation find_intent find_allowed
  insert_intent-Preserved row db db' h =
      let e : db'.operations ≡ db.operations = ground arith in
      let i : db'.intents ≡ db.intents ++ row ∷ [] = ground arith in
      let a : db'.allowlist ≡ db.allowlist = ground arith in
      record {
        keeps = record {
          operations_kept = λ id o f _. rw e f;
          intents_kept = λ id r f. rw i (find_first-append_some _ db.intents _ r f);
          allowed_kept = λ id r f. rw a f;
          started_kept = λ id s. Started-same e id s;
        };
        bindings_same = ground arith;
      }

  insert_prepared_operation-Preserved :
      (p : Platform Bytes) (row : OperationRow) (db : Db Bytes) (r : OperationRecord)
      (db' : Db Bytes)
      → insert_prepared_operation p row db ≡ ok (r, db')
      → Preserved db db'
  unfolding insert_prepared_operation
  insert_prepared_operation-Preserved p row db r db' h =
      insert_operation-Preserved row db db' (ground arith)

  write_create-Preserved :
      (p : Platform Bytes) (i : Installation) (request : CreateRequest) (plan : StoredPlan Bytes)
      (alias : String) (now : Time) (db : Db Bytes) (r : OperationRecord) (new : Bool)
      (db' : Db Bytes)
      → write_create p i request plan alias now db ≡ ok (r, new, db')
      → Preserved db db'
  unfolding write_create
  write_create-Preserved p i request plan alias now db r new db' h =
      >>=-elim
        (plainly (
          insert_prepared_operation p
            (new_operation i.owner_id request.operation_id request.idempotency_key create ""
              (create_lock p alias) plan.plan.id request.payload_hash now)
            db))
        _ h
        λ made a k.
          Preserved-trans
            (insert_prepared_operation-Preserved p _ db made.0 made.1 (plainly-found _ a))
            (insert_intent-Preserved (new_intent p made.0 plan alias now) made.1 db'
              (ground (arith, k)))

  create_operation-Preserved :
      (p : Platform Bytes) (i : Installation) (request : CreateRequest) (now : Time) (db : Db Bytes)
      (r : OperationRecord) (new : Bool) (db' : Db Bytes)
      → create_operation p i request now db ≡ ok (r, new, db')
      → Preserved db db'
  unfolding create_operation
  create_operation-Preserved p i request now db r new db' h = grind (arith, write_create-Preserved)

  -- A creation writes the operation and its intent, or nothing.
  pub prepare_create-Preserved :
      (p : Platform Bytes) (i : Installation) (request : CreateRequest) (now : Time) (db : Db Bytes)
      (r : OperationRecord) (new : Bool) (db' : Db Bytes)
      → prepare_create p i request now db ≡ ok (r, new, db')
      → Preserved db db'
  unfolding prepare_create
  prepare_create-Preserved p i request now db r new db' h =
      >>=-elim
        (plainly (
          check_request p i request.owner_id request.operation_id request.idempotency_key
            request.payload_hash))
        _ h λ _ _ h₁. grind (arith, h₁, create_operation-Preserved, Preserved-refl db)

  write_binding_operation-Preserved :
      (p : Platform Bytes) (i : Installation) (request : PrepareOperationRequest)
      (plan : StoredPlan Bytes) (now : Time) (db : Db Bytes) (r : OperationRecord) (new : Bool)
      (db' : Db Bytes)
      → write_binding_operation p i request plan now db ≡ ok (r, new, db')
      → Preserved db db'
  unfolding write_binding_operation
  write_binding_operation-Preserved p i request plan now db r new db' h =
      insert_prepared_operation-Preserved p
        (new_operation i.owner_id request.operation_id request.idempotency_key request.kind
          request.binding_id (joined ("binding:" ∷ request.binding_id ∷ [])) plan.plan.id
          request.payload_hash now)
        db r db' (ground arith)

  binding_operation-Preserved :
      (p : Platform Bytes) (i : Installation) (request : PrepareOperationRequest) (now : Time)
      (db : Db Bytes) (r : OperationRecord) (new : Bool) (db' : Db Bytes)
      → binding_operation p i request now db ≡ ok (r, new, db')
      → Preserved db db'
  unfolding binding_operation
  binding_operation-Preserved p i request now db r new db' h =
      grind (arith, write_binding_operation-Preserved)

  pub prepare_binding_operation-Preserved :
      (p : Platform Bytes) (i : Installation) (request : PrepareOperationRequest) (now : Time)
      (db : Db Bytes) (r : OperationRecord) (new : Bool) (db' : Db Bytes)
      → prepare_binding_operation p i request now db ≡ ok (r, new, db')
      → Preserved db db'
  unfolding prepare_binding_operation
  prepare_binding_operation-Preserved p i request now db r new db' h =
      refused-elim (not (request.owner_id == "") && not (request.owner_id == i.owner_id)) _ _ h
        λ _ h₁.
          refused-elim (not (request.kind == update) && not (request.kind == archive)) _ _ h₁
            λ _ h₂. refused-elim (request.binding_id == "") _ _ h₂ λ _ h₃.
              >>=-elim
                (plainly (
                  check_request p i request.owner_id request.operation_id request.idempotency_key
                    request.payload_hash))
                _ h₃ λ _ _ h₄. grind (arith, h₄, binding_operation-Preserved, Preserved-refl db)

  pub transition_operation-Preserved :
      (id : String) (expected : List OperationStatus) (next : OperationStatus)
      (patch : TransitionPatch) (now : Time) (db : Db Bytes) (r : OperationRecord) (db' : Db Bytes)
      → transition_operation id expected next patch now db ≡ ok (r, db')
      → Preserved db db'
  unfolding transition_operation find_intent find_allowed
  transition_operation-Preserved id expected next patch now db r db' h =
      let (row, new, found, moved, _, _, _, others) =
        transition_operation-Moved id expected next patch now db r db' h in
      let i : db'.intents ≡ db.intents = ground arith in
      let a : db'.allowlist ≡ db.allowlist = ground arith in
      record {
        keeps = record {
          operations_kept = λ other o f s. elim (Bool-cases (other == id)) [
            | inl t ↦
                let same = ==→eq other id t in
                let here : row ≡ o = ground arith in
                absurd (open-unfinished row moved.open_before (ap OperationRow.status here ∙ s))
            | inr t ↦ others other ∙ rw t f
          ];
          intents_kept = λ _ _ f. rw i f;
          allowed_kept = λ _ _ f. rw a f;
          started_kept = λ other s. elim (Bool-cases (other == id)) [
            | inl t ↦ record {
              operation = new;
              found = others other ∙ rw t refl;
              begun = λ e. past row new next moved e;
            }
            | inr t ↦ record {
              operation = s.operation;
              found = others other ∙ rw t s.found;
              begun = s.begun;
            }
          ];
        };
        bindings_same = ground arith;
      }

  pub recover_interrupted-Preserved :
      (now : Time) (db : Db Bytes) (found : List OperationRecord) (db' : Db Bytes)
      → recover_interrupted now db ≡ ok (found, db')
      → Preserved db db'
  unfolding recover_interrupted mark_interrupted paused_row find_operation find_intent find_allowed
  recover_interrupted-Preserved now db found db' h =
      let e : db' ≡ mark_interrupted now db = ground arith in
      rw e record {
        keeps = record {
          operations_kept = λ id o f s.
              find_first-spared _ interrupted (paused_row now) db.operations o (λ _. refl) f
                (rw s refl);
          intents_kept = λ _ _ f. f;
          allowed_kept = λ _ _ f. f;
          started_kept =
              Started-modify_where db (mark_interrupted now db) interrupted (paused_row now) refl
                (λ _. refl) λ _ _ _ e. ground arith;
        };
        bindings_same = refl;
      }
