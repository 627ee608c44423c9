-- ===== src/Storage/Replay.antt =====
-- internal/storage/operations.go: a creation that is asked for again is answered from the first.
use gpt_owu_bridge.Base.{
  ◌≢◌, err, sym, ap, ne→==, String, ◌≡◌, refl, ◌∙◌, [], ◌∷◌, ◌++◌, none, some, Bool, true, false,
  ◌==◌, text_eq, find_first, ok, >>=-elim, arith, eq→==,
}
use gpt_owu_bridge.Domain.{Time}
use gpt_owu_bridge.Storage.Types.{
  idempotency_conflict, create, kind_eq, status_eq, Installation, Platform, CreateRequest,
  StoredPlan, OperationRecord,
}
use gpt_owu_bridge.Storage.Tables.{Db, OperationRow, IntentRow, insert_operation, insert_intent}
use gpt_owu_bridge.Storage.Operations.{
  failure_at, plainly, new_operation, scan_operation, operation_matches,
  get_operation_by_idempotency,
}
use gpt_owu_bridge.Storage.Prepare.{
  insert_prepared_operation, create_lock, new_intent, check_request, write_create, create_operation,
  prepare_create,
}
use gpt_owu_bridge.Storage.Rows.{plainly-found, find_first-append_new}

module _ {Bytes : Type 0} where
  insert_operation-effect :
      (row : OperationRow) (db db' : Db Bytes)
      → insert_operation db row ≡ ok db'
      → db'.operations ≡ db.operations ++ row ∷ []
  unfolding insert_operation
  insert_operation-effect row db db' h = ground arith

  insert_intent-effect :
      (row : IntentRow) (db db' : Db Bytes)
      → insert_intent db row ≡ ok db'
      → db'.operations ≡ db.operations
  unfolding insert_intent
  insert_intent-effect row db db' h = ground arith

  -- The row of a creation.
  abbrev create_row :
      Platform Bytes
      → Installation
      → CreateRequest
      → StoredPlan Bytes
      → String
      → Time
      → OperationRow
  create_row p i request plan alias now =
      new_operation i.owner_id request.operation_id request.idempotency_key create ""
        (create_lock p alias) plan.plan.id request.payload_hash now

  -- The operation that a new creation has left at the end of the table.
  record Written (p : Platform Bytes) (i : Installation) (request : CreateRequest) (now : Time)
      (db : Db Bytes) (r : OperationRecord) (db' : Db Bytes) : Type 0 where
    plan : StoredPlan Bytes
    alias : String
    written : r ≡ scan_operation (create_row p i request plan alias now)
    appended : db'.operations ≡ db.operations ++ create_row p i request plan alias now ∷ []

  write_create-Written :
      (p : Platform Bytes) (i : Installation) (request : CreateRequest) (plan : StoredPlan Bytes)
      (alias : String) (now : Time) (db : Db Bytes) (r : OperationRecord) (new : Bool)
      (db' : Db Bytes)
      → write_create p i request plan alias now db ≡ ok (r, new, db')
      → Written p i request now db r db'
  unfolding write_create insert_prepared_operation
  write_create-Written p i request plan alias now db r new db' h =
      >>=-elim (plainly (insert_prepared_operation p (create_row p i request plan alias now) db)) _
        h
        λ made a k.
          let row = create_row p i request plan alias now in
          let first : insert_operation db row ≡ ok made.1 = ground (arith, a) in
          let same : made.0 ≡ scan_operation row = ground (arith, a) in
          let last : insert_intent made.1 (new_intent p made.0 plan alias now) ≡ ok db' =
            ground (arith, k) in
          record {
            plan = plan;
            alias = alias;
            written = ground (arith, k, same);
            appended =
                insert_intent-effect _ made.1 db' last
                ∙ insert_operation-effect row db made.1 first;
          }

  create_operation-Written :
      (p : Platform Bytes) (i : Installation) (request : CreateRequest) (now : Time) (db : Db Bytes)
      (r : OperationRecord) (new : Bool) (db' : Db Bytes)
      → create_operation p i request now db ≡ ok (r, new, db')
      → Written p i request now db r db'
  unfolding create_operation
  create_operation-Written p i request now db r new db' h = grind (arith, write_create-Written)

  -- A creation that is new has passed its checks and found nothing under its key.
  prepare_create-new :
      (p : Platform Bytes) (i : Installation) (request : CreateRequest) (now : Time) (db : Db Bytes)
      (r : OperationRecord) (db' : Db Bytes)
      → prepare_create p i request now db ≡ ok (r, true, db')
      → (check_request p i request.owner_id request.operation_id request.idempotency_key
            request.payload_hash
          ≡ ok tt)
        × (find_first (λ o. o.idempotency_key == request.idempotency_key) db.operations ≡ none)
        × (create_operation p i request now db ≡ ok (r, true, db'))
  unfolding prepare_create get_operation_by_idempotency
  prepare_create-new p i request now db r db' h =
      >>=-elim
        (plainly (
          check_request p i request.owner_id request.operation_id request.idempotency_key
            request.payload_hash))
        _ h λ _ a h₁. (plainly-found _ a, ground (arith, h₁), ground (arith, h₁))

  -- A creation that was found again is answered with the record and no write.
  prepare_create-found :
      (p : Platform Bytes) (i : Installation) (request : CreateRequest) (now : Time) (db : Db Bytes)
      (row : OperationRow)
      → check_request p i request.owner_id request.operation_id request.idempotency_key
          request.payload_hash
        ≡ ok tt
      → find_first (λ o. o.idempotency_key == request.idempotency_key) db.operations ≡ some row
      → row.kind ≡ create
      → row.payload_hash ≡ request.payload_hash
      → prepare_create p i request now db ≡ ok (scan_operation row, false, db)
  unfolding prepare_create get_operation_by_idempotency operation_matches scan_operation
  prepare_create-found p i request now db row c f k e =
      let same = eq→== row.payload_hash request.payload_hash e in rw c (rw f (rw k (rw same refl)))

  -- A creation that succeeded as a new one gives, when it is asked for again at any time in the
  -- database that it left, the same record, marked as not new, and leaves the database as it is.
  pub prepare_create-replayed :
      (p : Platform Bytes) (i : Installation) (request : CreateRequest) (now later : Time)
      (db : Db Bytes) (r : OperationRecord) (db' : Db Bytes)
      → prepare_create p i request now db ≡ ok (r, true, db')
      → prepare_create p i request later db' ≡ ok (r, false, db')
  prepare_create-replayed p i request now later db r db' h =
      let (checked, free, made) = prepare_create-new p i request now db r db' h in
      let w = create_operation-Written p i request now db r true db' made in
      let row = create_row p i request w.plan w.alias now in
      let found =
        find_first-append_new (λ o. o.idempotency_key == request.idempotency_key) db.operations row
          free (eq→== request.idempotency_key _ refl) in
      rw w.written
        (prepare_create-found p i request later db' row checked (rw w.appended found) refl refl)

  prepare_create-refused :
      (p : Platform Bytes) (i : Installation) (other : CreateRequest) (now : Time) (db : Db Bytes)
      (row : OperationRow)
      → check_request p i other.owner_id other.operation_id other.idempotency_key other.payload_hash
        ≡ ok tt
      → find_first (λ o. o.idempotency_key == other.idempotency_key) db.operations ≡ some row
      → row.payload_hash ≢ other.payload_hash
      → prepare_create p i other now db ≡ err (failure_at (scan_operation row) idempotency_conflict)
  unfolding prepare_create get_operation_by_idempotency operation_matches scan_operation
  prepare_create-refused p i other now db row c f n =
      rw c (rw f (ground (arith, ne→== row.payload_hash other.payload_hash n)))

  -- After a creation that succeeded as a new one, another request that passes the checks of its
  -- texts and has the same idempotency key but another payload is refused as a conflict, at any
  -- time, with the record of the first.
  pub prepare_create-conflict :
      (p : Platform Bytes) (i : Installation) (request other : CreateRequest) (now later : Time)
      (db : Db Bytes) (r : OperationRecord) (db' : Db Bytes)
      → prepare_create p i request now db ≡ ok (r, true, db')
      → check_request p i other.owner_id other.operation_id other.idempotency_key other.payload_hash
        ≡ ok tt
      → request.idempotency_key ≡ other.idempotency_key
      → request.payload_hash ≢ other.payload_hash
      → prepare_create p i other later db' ≡ err (failure_at r idempotency_conflict)
  prepare_create-conflict p i request other now later db r db' h c same n =
      let (_, free, made) = prepare_create-new p i request now db r db' h in
      let w = create_operation-Written p i request now db r true db' made in
      let row = create_row p i request w.plan w.alias now in
      let found : find_first (λ o. o.idempotency_key == other.idempotency_key) db'.operations
          ≡ some row =
        rw w.appended (
          find_first-append_new (λ o. o.idempotency_key == other.idempotency_key) db.operations row
            (rw (← same) free) (eq→== request.idempotency_key _ same)) in
      prepare_create-refused p i other later db' row c found n
      ∙ ap (λ e. err (failure_at e idempotency_conflict)) (sym w.written)
