-- ===== src/Storage/Updated.antt =====
-- internal/storage/bindings.go: a verified update leaves every binding its evidence.
use gpt_owu_bridge.Base.{
  ℕ, String, ◌≡◌, refl, sym, subst, List, text_eq, nat_eq, ok, >>=-elim, arith, All, All-map,
}
use gpt_owu_bridge.Domain.{Time, MessageMapping}
use gpt_owu_bridge.Storage.Types.{kind_eq, status_eq, Installation, Platform, refused}
use gpt_owu_bridge.Storage.Tables.{
  Db, BindingRow, modify_where, find_operation, find_intent, insert_baseline,
}
use gpt_owu_bridge.Storage.Operations.{saved}
use gpt_owu_bridge.Storage.Mappings.{replace_mappings}
use gpt_owu_bridge.Storage.Bindings.{
  new_baseline, finish_update, advances, advance_binding, next_version, install_update,
}
use gpt_owu_bridge.Storage.Rows.{All-modify_where, saved-found}
use gpt_owu_bridge.Storage.Evidence.{
  find_allowed, Evidenced, Evidenced-Keeps, Keeps, Keeps-trans, Started-same, Keeps-Unchanged,
  Unchanged-trans, replace_mappings-Unchanged, insert_baseline-Unchanged,
}
use gpt_owu_bridge.Storage.Installed.{finish_update-Keeps}

module _ {Bytes : Type 0} where
  -- A binding, and the database, after the version has been advanced.
  abbrev pub newer : ℕ → String → Time → BindingRow Bytes → BindingRow Bytes
  newer next hash now r = record r {
    version = next;
    last_source_snapshot_hash = hash;
    updated_at = now;
  }

  abbrev pub advanced : Platform Bytes → String → ℕ → ℕ → String → Time → Db Bytes → Db Bytes
  advanced p id version next hash now db = record db {
    bindings = modify_where (advances p id version) (newer next hash now) db.bindings;
  }

  pub advance_binding-effect :
      (p : Platform Bytes) (id : String) (version next : ℕ) (hash : String) (now : Time)
      (db db' : Db Bytes)
      → advance_binding p id version next hash now db ≡ ok db'
      → db' ≡ advanced p id version next hash now db
  unfolding advance_binding
  advance_binding-effect p id version next hash now db db' h = ground arith

  -- Evidence is about the names of a binding, which an update does not touch.
  Evidenced-advance :
      (i : Installation) (db : Db Bytes) (next : ℕ) (hash : String) (now : Time)
      (b : BindingRow Bytes)
      → Evidenced i db b
      → Evidenced i db (newer next hash now b)
  Evidenced-advance i db next hash now b e = record {
    operation = e.operation;
    operation_found = e.operation_found;
    made = e.made;
    done = e.done;
    receipt = e.receipt;
    on_target = e.on_target;
    on_binding = e.on_binding;
    intent = e.intent;
    intent_found = e.intent_found;
    allowed = e.allowed;
    allowed_found = e.allowed_found;
    allowed_binding = e.allowed_binding;
    allowed_operation = e.allowed_operation;
    installed_here = e.installed_here;
    owned = e.owned;
  }

  -- The parts of an update that concern evidence.
  pub record Advanced (i : Installation) (db db' : Db Bytes) : Type 0 where
    pub keeps : Keeps db db'
    pub evidenced : All (Evidenced i db) db.bindings → All (Evidenced i db') db'.bindings

  advance_binding-Advanced :
      (p : Platform Bytes) (i : Installation) (id : String) (version next : ℕ) (hash : String)
      (now : Time) (db db' : Db Bytes)
      → advance_binding p id version next hash now db ≡ ok db'
      → Advanced i db db'
  unfolding find_operation find_intent find_allowed
  advance_binding-Advanced p i id version next hash now db db' h =
      let after = advanced p id version next hash now db in
      let kept : Keeps db after = record {
        operations_kept = λ _ _ f _. f;
        intents_kept = λ _ _ f. f;
        allowed_kept = λ _ _ f. f;
        started_kept = Started-same refl;
      } in
      let step : Advanced i db after = record {
        keeps = kept;
        evidenced = λ all.
            All-modify_where (Evidenced i after) (advances p id version) (newer next hash now)
              db.bindings (Evidenced-advance i after next hash now)
              (All-map db.bindings (λ b. Evidenced-Keeps i db after b kept) all);
      } in
      rw (advance_binding-effect p id version next hash now db db' h) step

  -- Steps that change no binding advance nothing.
  pub Advanced-Keeps :
      (i : Installation) (db db' : Db Bytes)
      → Keeps db db'
      → db'.bindings ≡ db.bindings
      → Advanced i db db'
  Advanced-Keeps i db db' k e = record {
    keeps = k;
    evidenced = λ all.
        subst (All (Evidenced i db')) (sym e)
          (All-map db.bindings (λ b. Evidenced-Keeps i db db' b k) all);
  }

  pub Advanced-trans :
      {i : Installation} {a b c : Db Bytes} → Advanced i a b → Advanced i b c → Advanced i a c
  Advanced-trans k l = record {
    keeps = Keeps-trans k.keeps l.keeps;
    evidenced = λ all. l.evidenced (k.evidenced all);
  }

  pub install_update-Advanced :
      (p : Platform Bytes) (i : Installation) (id binding_id : String) (version : ℕ) (hash : String)
      (ms : List MessageMapping) (sum conflict : String) (target : Bytes) (now : Time)
      (db db' : Db Bytes)
      → install_update p id binding_id version hash ms sum conflict target now db ≡ ok db'
      → Advanced i db db'
  unfolding install_update
  install_update-Advanced p i id binding_id version hash ms sum conflict target now db db' h =
      >>=-elim (advance_binding p binding_id version (next_version p version) hash now db) _ h
        λ db₁ k₁ h₁.
          >>=-elim
            (saved (λ _. refused "save message mapping") (replace_mappings binding_id ms db₁)) _ h₁
            λ db₂ k₂ h₂.
              >>=-elim
                (saved (λ _. refused "persist updated target baseline")
                  (insert_baseline db₂ (
                    new_baseline p id binding_id (next_version p version) hash sum conflict target
                      now)))
                _ h₂
                λ db₃ k₃ h₃.
                  let u =
                    Unchanged-trans (replace_mappings-Unchanged _ _ db₁ db₂ (saved-found _ _ k₂))
                      (insert_baseline-Unchanged _ db₂ db₃ (saved-found _ _ k₃)) in
                  let same : db' ≡ finish_update p id now db₃ = cc (h₃) in
                  rw same (
                    Advanced-trans (advance_binding-Advanced p i _ _ _ _ _ db db₁ k₁) (
                      Advanced-Keeps i db₁ _
                        (Keeps-trans (Keeps-Unchanged u) (finish_update-Keeps p id now db₃))
                        u.bindings_same))
