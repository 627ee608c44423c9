-- ===== src/Storage/Versions.antt =====
-- internal/storage/bindings.go: the version of a binding and its verified baseline after an update.
use gpt_owu_bridge.Base.{
  ℕ, suc, ◌^◌, ◌<◌, ◌≡◌, refl, ◌∙◌, ap, String, List, [], ◌∷◌, ◌++◌, Option, none, some, true,
  false, ◌==◌, text_eq, nat_eq, ◌&&◌, find_first, ok, >>=-elim, arith, eq→==,
}
use gpt_owu_bridge.Domain.{Time, MessageMapping, verifying, succeeded}
use gpt_owu_bridge.Storage.Types.{status_eq, Installation, Platform, TargetBaseline, refused}
use gpt_owu_bridge.Storage.Tables.{
  Db, OperationRow, BindingRow, BaselineRow, fits_version, find_operation, find_binding,
  insert_baseline,
}
use gpt_owu_bridge.Storage.Operations.{saved}
use gpt_owu_bridge.Storage.Mappings.{replace_mappings}
use gpt_owu_bridge.Storage.Bindings.{
  under_verification, advances, advance_binding, next_version, new_baseline, finish_update,
  install_update, complete_verified_update,
}
use gpt_owu_bridge.Storage.Rows.{
  find_first-modified, find_first-holds, find_first-append_new, saved-found,
}
use gpt_owu_bridge.Storage.Evidence.{
  Unchanged-trans, replace_mappings-Unchanged, insert_baseline-Unchanged,
}
use gpt_owu_bridge.Storage.Updated.{newer, advance_binding-effect}
use gpt_owu_bridge.Storage.Completed.{complete_verified_update-Updating}

-- The operation as `CompleteVerifiedUpdate` leaves it.
abbrev completed : OperationRow → Time → OperationRow
completed row now = record row {
  status = succeeded;
  needs_readback = false;
  verified_at = some now;
  updated_at = now;
}

module _ {Bytes : Type 0} where
  -- The look-up of a baseline by its binding and version.
  abbrev pub find_baseline : Db Bytes → String → ℕ → Option (BaselineRow Bytes)
  find_baseline db id version =
      find_first (λ r. r.binding_id == id && r.binding_version == version) db.baselines

  advance_binding-fits :
      (p : Platform Bytes) (id : String) (version next : ℕ) (hash : String) (now : Time)
      (db db' : Db Bytes)
      → advance_binding p id version next hash now db ≡ ok db'
      → fits_version next ≡ true
  unfolding advance_binding
  advance_binding-fits p id version next hash now db db' h = ground arith

  -- A version that the column can hold has not wrapped.
  next_version-suc :
      (p : Platform Bytes) (version : ℕ)
      → version < 2 ^ 64
      → fits_version (next_version p version) ≡ true
      → next_version p version ≡ suc version
  next_version-suc p version b h = ground arith

  -- The binding that was found is found with the next version.
  advance_binding-found :
      (p : Platform Bytes) (id : String) (next : ℕ) (hash : String) (now : Time) (db db' : Db Bytes)
      (b : BindingRow Bytes)
      → find_binding db id ≡ some b
      → advance_binding p id b.version next hash now db ≡ ok db'
      → find_binding db' id ≡ some (newer next hash now b)
  unfolding find_binding
  advance_binding-found p id next hash now db db' b f h =
      rw (advance_binding-effect p id b.version next hash now db db' h) (
        find_first-modified (λ r. r.binding_id == id) (advances p id b.version)
          (newer next hash now) db.bindings b (λ _. refl) f
          (rw (find_first-holds (λ r. r.binding_id == id) db.bindings b f)
            (eq→== b.version _ refl)))

  -- The baseline that was inserted is the one found for its binding and version.
  insert_baseline-found :
      (row : BaselineRow Bytes) (db db' : Db Bytes)
      → insert_baseline db row ≡ ok db'
      → find_baseline db' row.binding_id row.binding_version ≡ some row
  unfolding insert_baseline
  insert_baseline-found row db db' h =
      let e : db'.baselines ≡ db.baselines ++ row ∷ [] = ground arith in
      let free : find_baseline db row.binding_id row.binding_version ≡ none = ground arith in
      rw e (
        find_first-append_new _ db.baselines row free
          (rw (eq→== row.binding_id _ refl) (eq→== row.binding_version _ refl)))

  finish_update-found :
      (p : Platform Bytes) (id : String) (now : Time) (db : Db Bytes) (row : OperationRow)
      → find_operation db id ≡ some row
      → row.status ≡ verifying
      → find_operation (finish_update p id now db) id ≡ some (completed row now)
  unfolding find_operation
  finish_update-found p id now db row f s =
      find_first-modified (λ o. o.operation_id == id) (under_verification id) _ db.operations row
        (λ _. refl) f
        (ground (arith, s, find_first-holds (λ o. o.operation_id == id) db.operations row f))

  advance_binding-operations :
      (p : Platform Bytes) (id : String) (version next : ℕ) (hash : String) (now : Time)
      (db db' : Db Bytes)
      → advance_binding p id version next hash now db ≡ ok db'
      → db'.operations ≡ db.operations
  unfolding advance_binding
  advance_binding-operations p id version next hash now db db' h = ground arith

  operations-lookup :
      (db db' : Db Bytes) (id : String)
      → db'.operations ≡ db.operations
      → find_operation db' id ≡ find_operation db id
  unfolding find_operation
  operations-lookup db db' id h = rw h refl

  bindings-lookup :
      (db db' : Db Bytes) (id : String)
      → db'.bindings ≡ db.bindings
      → find_binding db' id ≡ find_binding db id
  unfolding find_binding
  bindings-lookup db db' id h = rw h refl

  -- What the writes of an update leave.
  record Left (p : Platform Bytes) (id : String) (row : OperationRow) (binding : BindingRow Bytes)
      (hash : String) (now : Time) (baseline : BaselineRow Bytes) (db' : Db Bytes) : Type 0 where
    fits : fits_version (next_version p binding.version) ≡ true
    row_left : find_operation db' id ≡ some (completed row now)
    binding_left :
        find_binding db' row.binding_id
        ≡ some (newer (next_version p binding.version) hash now binding)
    baseline_left : find_baseline db' baseline.binding_id baseline.binding_version ≡ some baseline

  install_update-Left :
      (p : Platform Bytes) (id : String) (row : OperationRow) (binding : BindingRow Bytes)
      (hash : String) (ms : List MessageMapping) (sum conflict : String) (target : Bytes)
      (now : Time) (db db' : Db Bytes)
      → find_operation db id ≡ some row
      → row.status ≡ verifying
      → find_binding db row.binding_id ≡ some binding
      → install_update p id row.binding_id binding.version hash ms sum conflict target now db
        ≡ ok db'
      → Left p id row binding hash now
          (new_baseline p id row.binding_id
            (next_version p binding.version)
            hash
            sum
            conflict
            target
            now)
          db'
  unfolding install_update find_binding
  install_update-Left p id row binding hash ms sum conflict target now db db' f s g h =
      let next = next_version p binding.version in
      let baseline = new_baseline p id row.binding_id next hash sum conflict target now in
      >>=-elim (advance_binding p row.binding_id binding.version next hash now db) _ h λ db₁ k₁ h₁.
        >>=-elim
          (saved (λ _. refused "save message mapping") (replace_mappings row.binding_id ms db₁)) _
          h₁
          λ db₂ k₂ h₂.
            >>=-elim
              (saved (λ _. refused "persist updated target baseline")
                (insert_baseline db₂ baseline))
              _ h₂
              λ db₃ k₃ h₃.
                let u =
                  Unchanged-trans (replace_mappings-Unchanged _ _ db₁ db₂ (saved-found _ _ k₂))
                    (insert_baseline-Unchanged _ db₂ db₃ (saved-found _ _ k₃)) in
                let same : db' ≡ finish_update p id now db₃ = cc (h₃) in
                let o =
                  operations-lookup db db₃ id
                    (u.operations_same ∙ advance_binding-operations p _ _ _ _ _ db db₁ k₁) in
                let b = bindings-lookup db₁ db₃ row.binding_id u.bindings_same in
                rw same record {
                  fits = advance_binding-fits p _ _ _ _ _ db db₁ k₁;
                  row_left = finish_update-found p id now db₃ row (o ∙ f) s;
                  binding_left = b ∙ advance_binding-found p _ next hash now db db₁ binding g k₁;
                  baseline_left = insert_baseline-found baseline db₂ db₃ (saved-found _ _ k₃);
                }

  -- What a completed update has found and left.
  pub record Renewed (id : String) (v : TargetBaseline) (version : ℕ) (now : Time)
      (db db' : Db Bytes) : Type 0 where
    pub row : OperationRow
    pub row_found : find_operation db id ≡ some row
    pub verified : row.status ≡ verifying
    pub row_left : find_operation db' id ≡ some (completed row now)
    pub binding : BindingRow Bytes
    pub binding_found : find_binding db row.binding_id ≡ some binding
    pub was_current : binding.version ≡ version
    pub hash : String
    pub binding_left : find_binding db' row.binding_id ≡ some (newer (suc version) hash now binding)
    pub baseline : BaselineRow Bytes
    pub baseline_left : find_baseline db' row.binding_id (suc version) ≡ some baseline
    pub baseline_operation : baseline.operation_id ≡ id
    pub baseline_conflict : baseline.conflict_hash ≡ v.conflict_hash

  -- The operation of an update that is completed has succeeded.
  pub complete_verified_update-Succeeded :
      (p : Platform Bytes) (i : Installation) (id : String) (v : TargetBaseline) (version : ℕ)
      (now : Time) (db db' : Db Bytes)
      → complete_verified_update p i id v version now db ≡ ok db'
      → (o : OperationRow) × (find_operation db' id ≡ some o) × (o.status ≡ succeeded)
  complete_verified_update-Succeeded p i id v version now db db' h =
      let u = complete_verified_update-Updating p i id v version now db db' h in
      let l =
        install_update-Left p id u.row u.binding u.hash _ u.sum v.conflict_hash u.target now db db'
          u.row_found u.verifies u.binding_found u.installed in
      (completed u.row now, l.row_left, refl)

  -- A verified update that succeeds, for a version of 64 bits, has found its operation under
  -- verification and its binding at this version; it leaves the operation as succeeded, the
  -- binding at the next version, which has not wrapped, and, for this version, a baseline that
  -- the operation has made with the conflict hash that was given.
  pub complete_verified_update-Renewed :
      (p : Platform Bytes) (i : Installation) (id : String) (v : TargetBaseline) (version : ℕ)
      (now : Time) (db db' : Db Bytes)
      → version < 2 ^ 64
      → complete_verified_update p i id v version now db ≡ ok db'
      → Renewed id v version now db db'
  complete_verified_update-Renewed p i id v version now db db' b h =
      let u = complete_verified_update-Updating p i id v version now db db' h in
      let l =
        install_update-Left p id u.row u.binding u.hash _ u.sum v.conflict_hash u.target now db db'
          u.row_found u.verifies u.binding_found u.installed in
      let next : next_version p u.binding.version ≡ suc version =
        next_version-suc p u.binding.version (rw u.current b) l.fits ∙ ap suc u.current in
      record {
        row = u.row;
        row_found = u.row_found;
        verified = u.verifies;
        row_left = l.row_left;
        binding = u.binding;
        binding_found = u.binding_found;
        was_current = u.current;
        hash = u.hash;
        binding_left = rw (← next) l.binding_left;
        baseline =
            new_baseline p id u.row.binding_id (suc version) u.hash u.sum v.conflict_hash u.target
              now;
        baseline_left = rw (← next) l.baseline_left;
        baseline_operation = refl;
        baseline_conflict = refl;
      }
