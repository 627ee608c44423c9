-- ===== src/Storage/Completed.antt =====
-- internal/storage/bindings.go: what a verified update has checked when it writes.
use gpt_owu_bridge.Base.{
  ℕ, String, ◌≡◌, some, not, ◌==◌, text_eq, nat_eq, ◌||◌, ◌&&◌, ok, >>=-elim, >>-elim, arith,
  refused-elim, refuse_if,
}
use gpt_owu_bridge.Domain.{Time, SourceSnapshot, verifying}
use gpt_owu_bridge.Domain.Hash.{target_hash}
use gpt_owu_bridge.Storage.Types.{
  update, kind_eq, status_eq, Installation, Platform, TargetBaseline, StoredPlan, not_found,
}
use gpt_owu_bridge.Storage.Tables.{Db, OperationRow, BindingRow, find_operation, find_binding}
use gpt_owu_bridge.Storage.Records.{or_fail, get_source_snapshot, get_plan}
use gpt_owu_bridge.Storage.Mappings.{validate_mappings, mappings_from_target}
use gpt_owu_bridge.Storage.Allowed.{validate_allowed_binding}
use gpt_owu_bridge.Storage.Bindings.{install_update, write_update, complete_verified_update}
use gpt_owu_bridge.Storage.Rows.{or_fail-found}
use gpt_owu_bridge.Storage.Updated.{Advanced, install_update-Advanced}

module _ {Bytes : Type 0} where
  -- What `CompleteVerifiedUpdate` has checked when it writes.
  pub record Updating (p : Platform Bytes) (i : Installation) (id : String) (v : TargetBaseline)
      (version : ℕ) (now : Time) (db db' : Db Bytes) : Type 0 where
    pub row : OperationRow
    pub row_found : find_operation db id ≡ some row
    pub updates : row.kind ≡ update
    pub verifies : row.status ≡ verifying
    pub allowed : validate_allowed_binding db i row.binding_id ≡ ok tt
    pub binding : BindingRow Bytes
    pub binding_found : find_binding db row.binding_id ≡ some binding
    pub current : binding.version ≡ version
    pub hash : String
    pub source : SourceSnapshot
    pub mapped : validate_mappings source (mappings_from_target v.snapshot) ≡ ok tt
    pub sum : String
    pub target : Bytes
    pub installed :
        install_update p id row.binding_id binding.version hash
          (mappings_from_target v.snapshot)
          sum
          v.conflict_hash
          target
          now
          db
        ≡ ok db'

  planned :
      (p : Platform Bytes) (i : Installation) (id : String) (v : TargetBaseline) (version : ℕ)
      (now : Time) (db db' : Db Bytes) (row : OperationRow) (binding : BindingRow Bytes)
      (plan : StoredPlan Bytes)
      → find_operation db id ≡ some row
      → row.kind ≡ update
      → row.status ≡ verifying
      → validate_allowed_binding db i row.binding_id ≡ ok tt
      → find_binding db row.binding_id ≡ some binding
      → binding.version ≡ version
      → write_update p id v version row binding plan now db ≡ ok db'
      → Updating p i id v version now db db'
  unfolding write_update
  planned p i id v version now db db' row binding plan f k s a g c h =
      >>-elim
        (refuse_if
          (not (plan.binding_id == row.binding_id) || not (plan.plan.binding_version == version)) _)
        _ h
        λ _ h₁. >>=-elim (get_source_snapshot p db plan.source_snapshot_hash) _ h₁ λ source _ h₂.
          >>=-elim (or_fail (target_hash p.codec v.snapshot) _) _ h₂ λ sum _ h₃.
            >>=-elim
              (or_fail (p.codec.marshal_target (record (v.snapshot) { business_hash = sum })) _) _
              h₃
              λ target _ h₄.
                >>-elim (validate_mappings source (mappings_from_target v.snapshot)) _ h₄ λ m h₅.
                  record {
                    row = row;
                    row_found = f;
                    updates = k;
                    verifies = s;
                    allowed = a;
                    binding = binding;
                    binding_found = g;
                    current = c;
                    hash = plan.source_snapshot_hash;
                    source = source;
                    mapped = m;
                    sum = sum;
                    target = target;
                    installed = h₅;
                  }

  pub complete_verified_update-Updating :
      (p : Platform Bytes) (i : Installation) (id : String) (v : TargetBaseline) (version : ℕ)
      (now : Time) (db db' : Db Bytes)
      → complete_verified_update p i id v version now db ≡ ok db'
      → Updating p i id v version now db db'
  unfolding complete_verified_update
  complete_verified_update-Updating p i id v version now db db' h =
      >>-elim (refuse_if (p.trim v.conflict_hash == "") _) _ h λ _ h₁.
        >>-elim (refuse_if v.snapshot.offline_simulation _) _ h₁ λ _ h₂.
          >>=-elim (or_fail (find_operation db id) not_found) _ h₂ λ row f h₃.
            refused-elim (not (row.kind == update) || not (row.status == verifying)) _ _ h₃ λ k h₄.
              >>-elim
                (refuse_if
                  (row.binding_id == ""
                    || not (v.binding_id == "") && not (v.binding_id == row.binding_id))
                  _)
                _ h₄
                λ _ h₅. >>-elim (validate_allowed_binding db i row.binding_id) _ h₅ λ a h₆.
                  >>=-elim (or_fail (find_binding db row.binding_id) _) _ h₆ λ binding g h₇.
                    refused-elim (not (binding.version == version)) _ _ h₇ λ c h₈.
                      >>=-elim (get_plan p db row.plan_id) _ h₈ λ plan _ h₉.
                        planned p i id v version now db db' row binding plan (or_fail-found _ _ f)
                          (ground (arith, k)) (ground (arith, k)) a (or_fail-found _ _ g)
                          (ground (arith, c)) h₉

  -- A verified update leaves the evidence of all bindings.
  pub complete_verified_update-Advanced :
      (p : Platform Bytes) (i : Installation) (id : String) (v : TargetBaseline) (version : ℕ)
      (now : Time) (db db' : Db Bytes)
      → complete_verified_update p i id v version now db ≡ ok db'
      → Advanced i db db'
  complete_verified_update-Advanced p i id v version now db db' h =
      let u = complete_verified_update-Updating p i id v version now db db' h in
      install_update-Advanced p i _ _ _ _ _ _ _ _ now db db' u.installed
