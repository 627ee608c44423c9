-- ===== src/Storage/Finalized.antt =====
-- internal/storage/bindings.go: a finalized creation and the evidence that it leaves.
use gpt_owu_bridge.Base.{
  ◌≡◌, subst, ◌≢◌, [], ◌∷◌, ◌++◌, some, text_eq, nat_eq, ok, >>=-elim, >>-elim, arith,
}
use gpt_owu_bridge.Domain.{Time, Binding, verifying, succeeded}
use gpt_owu_bridge.Domain.Hash.{target_hash}
use gpt_owu_bridge.Storage.Types.{
  create, kind_eq, status_eq, Installation, Platform, VerifiedCreate, not_found, untrusted_target,
  refused,
}
use gpt_owu_bridge.Storage.Tables.{
  Db, OperationRow, IntentRow, BindingRow, find_operation, find_intent,
}
use gpt_owu_bridge.Storage.Records.{or_fail, get_source_snapshot}
use gpt_owu_bridge.Storage.Mappings.{validate_mappings}
use gpt_owu_bridge.Storage.Bindings.{
  check_verified, check_created, check_mapped, install_binding, finalize_verified_create,
}
use gpt_owu_bridge.Storage.Rows.{or_fail-found}
use gpt_owu_bridge.Storage.Evidence.{Evidenced, Keeps}
use gpt_owu_bridge.Storage.Installed.{Creatable, install_binding-Evidenced}

module _ {Bytes : Type 0} where
  check_created-Creatable :
      (p : Platform Bytes) (row : OperationRow) (v : VerifiedCreate) (db : Db Bytes)
      (intent : IntentRow)
      → check_created p row v ≡ ok tt
      → find_operation db v.operation_id ≡ some row
      → find_intent db v.operation_id ≡ some intent
      → Creatable db v row
  check_created-Creatable p row v db intent h f g =
      let k : (row.kind ≡ create) × (row.status ≡ verifying) = ground arith in
      let t : row.target_chat_id ≡ v.target_chat_id = ground arith in
      let r : row.remote_receipt_id ≢ "" = ground arith in
      record {
        row_found = f;
        creates = k.0;
        verifies = k.1;
        target = t;
        receipt = r;
        intent = intent;
        intent_found = g;
      }

  -- A creation that is finalized adds one binding, with its evidence, and leaves the others theirs.
  pub finalize_verified_create-Evidenced :
      (p : Platform Bytes) (i : Installation) (v : VerifiedCreate) (now : Time) (db : Db Bytes)
      (b : Binding) (db' : Db Bytes)
      → finalize_verified_create p i v now db ≡ ok (b, db')
      → Keeps db db'
        × (row : BindingRow Bytes) × (db'.bindings ≡ db.bindings ++ row ∷ [])
        × Evidenced i db' row
        × (row.created_by_operation ≡ v.operation_id)
  unfolding finalize_verified_create
  finalize_verified_create-Evidenced p i v now db b db' h = >>-elim (check_verified p v) _ h λ _ h₁.
      >>=-elim (or_fail (find_operation db v.operation_id) not_found) _ h₁ λ row f h₂.
        >>-elim (check_created p row v) _ h₂ λ c h₃.
          >>=-elim (or_fail (find_intent db v.operation_id) untrusted_target) _ h₃ λ intent g h₄.
            let ready =
              check_created-Creatable p row v db intent c (or_fail-found _ _ f)
                (or_fail-found _ _ g) in
            >>=-elim (get_source_snapshot p db intent.source_snapshot_hash) _ h₄ λ source _ h₅.
              >>-elim (validate_mappings source v.message_mappings) _ h₅ λ _ h₆.
                >>=-elim
                  (or_fail (target_hash p.codec v.verified_target)
                    (refused "marshal target snapshot"))
                  _ h₆
                  λ sum _ h₆'. >>-elim (check_mapped p source v) _ h₆' λ _ h₇.
                    >>=-elim
                      (or_fail
                        (p.codec.marshal_target
                          (record (v.verified_target) { business_hash = sum }))
                        (refused "marshal verified target"))
                      _ h₇
                      λ target _ h₈.
                        >>=-elim
                          (or_fail (p.codec.marshal_identity v.source_identity)
                            (refused "marshal source identity"))
                          _ h₈
                          λ identity _ h₉.
                            >>=-elim
                              (install_binding p i v row intent.source_snapshot_hash identity target
                                sum now db)
                              _ h₉
                              λ db'' k e.
                                let same : db' ≡ db'' = cc (e) in
                                rw same (
                                  install_binding-Evidenced p i v row _ identity target sum now db
                                    db'' ready k)

  -- The operation of a creation that is finalized has succeeded.
  pub finalize_verified_create-Succeeded :
      (p : Platform Bytes) (i : Installation) (v : VerifiedCreate) (now : Time) (db : Db Bytes)
      (b : Binding) (db' : Db Bytes)
      → finalize_verified_create p i v now db ≡ ok (b, db')
      → (o : OperationRow) × (find_operation db' v.operation_id ≡ some o) × (o.status ≡ succeeded)
  finalize_verified_create-Succeeded p i v now db b db' h =
      let (_, row, _, evidence, named) = finalize_verified_create-Evidenced p i v now db b db' h in
      (
        evidence.operation,
        subst (λ id. find_operation db' id ≡ some evidence.operation) named
            evidence.operation_found,
        evidence.done,
      )
