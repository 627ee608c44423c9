-- ===== src/Storage/Installed.antt =====
-- internal/storage/bindings.go: the two calls that complete an operation, and the evidence that
-- they leave behind.
use gpt_owu_bridge.Base.{
  String, ◌≡◌, refl, ◌∙◌, ◌≢◌, [], ◌∷◌, ◌++◌, none, some, false, ◌==◌, text_eq, nat_eq,
  if◌then◌else◌, ok, >>=-elim, arith, eq→==,
}
use gpt_owu_bridge.Domain.{Time, verifying, succeeded}
use gpt_owu_bridge.Storage.Types.{
  create, kind_eq, status_eq, Installation, Platform, VerifiedCreate, refused,
}
use gpt_owu_bridge.Storage.Tables.{
  Db, OperationRow, IntentRow, AllowRow, BindingRow, find_operation, find_intent, insert_binding,
  insert_allowed, insert_baseline,
}
use gpt_owu_bridge.Storage.Operations.{saved}
use gpt_owu_bridge.Storage.Mappings.{replace_mappings}
use gpt_owu_bridge.Storage.Bindings.{
  under_verification, new_binding, new_allowed, new_baseline, finish_create, finish_update,
  install_binding,
}
use gpt_owu_bridge.Storage.Rows.{
  find_first-append_some, find_first-append_new, find_first-spared, find_first-modified,
  find_first-holds, saved-found,
}
use gpt_owu_bridge.Storage.Evidence.{
  find_allowed, Evidenced, Keeps, Keeps-trans, Keeps-Unchanged, Started-modify_where, Started-same,
  Unchanged, Unchanged-trans, replace_mappings-Unchanged, insert_baseline-Unchanged,
}

-- The operation as `FinalizeVerifiedCreate` leaves it.
abbrev finished : OperationRow → String → String → Time → OperationRow
finished row binding receipt now = record row {
  status = succeeded;
  binding_id = binding;
  needs_readback = false;
  remote_receipt_id = receipt;
  verified_at = some now;
  updated_at = now;
}

module _ {Bytes : Type 0} where
  -- What `FinalizeVerifiedCreate` has checked before it writes.
  pub record Creatable (db : Db Bytes) (v : VerifiedCreate) (row : OperationRow) : Type 0 where
    pub row_found : find_operation db v.operation_id ≡ some row
    pub creates : row.kind ≡ create
    pub verifies : row.status ≡ verifying
    pub target : row.target_chat_id ≡ v.target_chat_id
    pub receipt : row.remote_receipt_id ≢ ""
    pub intent : IntentRow
    pub intent_found : find_intent db v.operation_id ≡ some intent

  insert_binding-effect :
      (row : BindingRow Bytes) (db db' : Db Bytes)
      → insert_binding db row ≡ ok db'
      → db' ≡ record db { bindings = db.bindings ++ row ∷ [] }
  unfolding insert_binding
  insert_binding-effect row db db' h = ground arith

  insert_allowed-effect :
      (row : AllowRow) (db db' : Db Bytes)
      → insert_allowed db row ≡ ok db'
      → (db' ≡ record db { allowlist = db.allowlist ++ row ∷ [] })
        × (find_allowed db row.target_chat_id ≡ none)
  unfolding insert_allowed find_allowed
  insert_allowed-effect row db db' h = (ground arith, ground arith)

  -- The completion of an operation spares those that have succeeded.
  finish_create-Keeps :
      (p : Platform Bytes) (id binding receipt : String) (now : Time) (db : Db Bytes)
      → Keeps db (finish_create p id binding receipt now db)
  unfolding find_operation find_intent find_allowed
  finish_create-Keeps p id binding receipt now db = record {
    operations_kept = λ other o f s.
        find_first-spared _ (under_verification id) _ db.operations o (λ _. refl) f (ground arith);
    intents_kept = λ _ _ f. f;
    allowed_kept = λ _ _ f. f;
    started_kept =
        Started-modify_where db (finish_create p id binding receipt now db) (under_verification id)
          _ refl (λ _. refl) λ _ _ _ e. ground arith;
  }

  pub finish_update-Keeps :
      (p : Platform Bytes) (id : String) (now : Time) (db : Db Bytes)
      → Keeps db (finish_update p id now db)
  unfolding find_operation find_intent find_allowed
  finish_update-Keeps p id now db = record {
    operations_kept = λ other o f s.
        find_first-spared _ (under_verification id) _ db.operations o (λ _. refl) f (ground arith);
    intents_kept = λ _ _ f. f;
    allowed_kept = λ _ _ f. f;
    started_kept =
        Started-modify_where db (finish_update p id now db) (under_verification id) _ refl
          (λ _. refl) λ _ _ _ e. ground arith;
  }

  -- The two rows that make a binding.
  pair-Keeps :
      (b : BindingRow Bytes) (a : AllowRow) (db db₁ db₂ : Db Bytes)
      → insert_binding db b ≡ ok db₁
      → insert_allowed db₁ a ≡ ok db₂
      → Keeps db db₂
        × (db₂.bindings ≡ db.bindings ++ b ∷ [])
        × (db₂.operations ≡ db.operations)
        × (find_allowed db₂ a.target_chat_id ≡ some a)
  unfolding find_operation find_intent find_allowed
  pair-Keeps b a db db₁ db₂ h k =
      let e₁ = insert_binding-effect b db db₁ h in
      let (e₂, free) = insert_allowed-effect a db₁ db₂ k in
      let o : db₂.operations ≡ db.operations = cc (e₁, e₂) in
      let i : db₂.intents ≡ db.intents = cc (e₁, e₂) in
      let l : db₂.allowlist ≡ db.allowlist ++ a ∷ [] = cc (e₁, e₂) in
      (
        record {
          operations_kept = λ _ _ f _. rw o f;
          intents_kept = λ _ _ f. rw i f;
          allowed_kept = λ id r f. rw l (find_first-append_some _ db.allowlist _ r f);
          started_kept = λ id s. Started-same o id s;
        },
        cc (e₁, e₂),
        o,
        rw e₂ (find_first-append_new _ db₁.allowlist a free (eq→== a.target_chat_id _ refl)),
      )

  finish_create-found :
      (p : Platform Bytes) (id binding receipt : String) (now : Time) (db : Db Bytes)
      (row : OperationRow)
      → find_operation db id ≡ some row
      → row.status ≡ verifying
      → find_operation (finish_create p id binding receipt now db) id
        ≡ some (finished row binding receipt now)
  unfolding find_operation
  finish_create-found p id binding receipt now db row f s =
      let here = find_first-holds (λ o. o.operation_id == id) db.operations row f in
      find_first-modified (λ o. o.operation_id == id) (under_verification id) _ db.operations row
        (λ _. refl) f (ground (arith, here))

  find_operation-same :
      (db db' : Db Bytes) (id : String)
      → db'.operations ≡ db.operations
      → find_operation db' id ≡ find_operation db id
  unfolding find_operation
  find_operation-same db db' id h = rw h refl

  -- The state after the rows are written and the operation is completed.
  completed-Evidenced :
      (p : Platform Bytes) (i : Installation) (v : VerifiedCreate) (row : OperationRow)
      (source_hash receipt : String) (identity : Bytes) (now : Time) (db db₁ db₂ db₃ : Db Bytes)
      → Creatable db v row
      → receipt ≢ ""
      → insert_binding db (new_binding p i v source_hash identity now) ≡ ok db₁
      → insert_allowed db₁ (new_allowed p i v now) ≡ ok db₂
      → Unchanged db₂ db₃
      → Keeps db (finish_create p v.operation_id v.binding_id receipt now db₃)
        × ((finish_create p v.operation_id v.binding_id receipt now db₃).bindings
            ≡ db.bindings ++ new_binding p i v source_hash identity now ∷ [])
        × Evidenced i
            (finish_create p v.operation_id v.binding_id receipt now db₃)
            (new_binding p i v source_hash identity now)
  completed-Evidenced p i v row source_hash receipt identity now db db₁ db₂ db₃ c r h k u =
      let db' = finish_create p v.operation_id v.binding_id receipt now db₃ in
      let (kept, bound, same, allow) = pair-Keeps _ _ db db₁ db₂ h k in
      let last = finish_create-Keeps p v.operation_id v.binding_id receipt now db₃ in
      let after = Keeps-trans (Keeps-Unchanged u) last in
      let here : find_operation db₃ v.operation_id ≡ some row =
        find_operation-same _ _ _ (u.operations_same ∙ same) ∙ c.row_found in
      (
        Keeps-trans kept after,
        u.bindings_same ∙ bound,
        record {
          operation = finished row v.binding_id receipt now;
          operation_found = finish_create-found p _ _ receipt now db₃ row here c.verifies;
          made = c.creates;
          done = refl;
          receipt = r;
          on_target = c.target;
          on_binding = refl;
          intent = c.intent;
          intent_found = (Keeps-trans kept after).intents_kept _ _ c.intent_found;
          allowed = new_allowed p i v now;
          allowed_found = after.allowed_kept _ _ allow;
          allowed_binding = refl;
          allowed_operation = refl;
          installed_here = refl;
          owned = refl;
        },
      )

  -- The writes of a verified creation add one binding, which has its evidence.
  pub install_binding-Evidenced :
      (p : Platform Bytes) (i : Installation) (v : VerifiedCreate) (row : OperationRow)
      (source_hash : String) (identity target : Bytes) (sum : String) (now : Time)
      (db db' : Db Bytes)
      → Creatable db v row
      → install_binding p i v row source_hash identity target sum now db ≡ ok db'
      → Keeps db db'
        × (b : BindingRow Bytes) × (db'.bindings ≡ db.bindings ++ b ∷ [])
        × Evidenced i db' b
        × (b.created_by_operation ≡ v.operation_id)
  unfolding install_binding
  install_binding-Evidenced p i v row source_hash identity target sum now db db' c h =
      let b = new_binding p i v source_hash identity now in
      let a = new_allowed p i v now in
      >>=-elim (saved (λ _. refused "install verified binding") (insert_binding db b)) _ h
        λ db₁ k₁ h₁.
          >>=-elim (saved (λ _. refused "install target allowlist entry") (insert_allowed db₁ a)) _
            h₁
            λ db₂ k₂ h₂.
              >>=-elim
                (saved (λ _. refused "save message mapping")
                  (replace_mappings v.binding_id v.message_mappings db₂))
                _ h₂
                λ db₃ k₃ h₃.
                  >>=-elim
                    (saved (λ _. refused "persist verified target baseline")
                      (insert_baseline db₃ (
                        new_baseline p v.operation_id v.binding_id 1 source_hash sum
                          v.verified_conflict_hash target now)))
                    _ h₃
                    λ db₄ k₄ h₄.
                      let u =
                        Unchanged-trans
                          (replace_mappings-Unchanged _ _ db₂ db₃ (saved-found _ _ k₃))
                          (insert_baseline-Unchanged _ db₃ db₄ (saved-found _ _ k₄)) in
                      let receipt =
                        if row.remote_receipt_id == ""
                        then v.remote_receipt_id
                        else row.remote_receipt_id in
                      let e : db' ≡ finish_create p v.operation_id v.binding_id receipt now db₄ =
                        cc (h₄) in
                      let done =
                        completed-Evidenced p i v row source_hash receipt identity now db db₁ db₂
                          db₄ c (ground (arith, c.receipt)) (saved-found _ _ k₁)
                          (saved-found _ _ k₂) u in
                      rw e (done.0, b, done.1, done.2, refl)
