-- ===== src/Storage/Calls.antt =====
-- internal/storage: the calls that write, as the steps of a store that starts empty.
use gpt_owu_bridge.Base.{
  ℕ, ◌≡◌, refl, sym, subst, String, List, [], ◌∷◌, Result, ok, err, All, All-map,
}
use gpt_owu_bridge.Domain.{Time, SourceSnapshot, OperationStatus, Binding}
use gpt_owu_bridge.Storage.Types.{
  Installation, Platform, StoredPlan, CreateRequest, PrepareOperationRequest, TransitionPatch,
  VerifiedCreate, TargetBaseline,
}
use gpt_owu_bridge.Storage.Tables.{Db}
use gpt_owu_bridge.Storage.Records.{put_source_snapshot, save_plan, confirm_plan}
use gpt_owu_bridge.Storage.Prepare.{prepare_create, prepare_binding_operation}
use gpt_owu_bridge.Storage.Transition.{transition_operation, recover_interrupted}
use gpt_owu_bridge.Storage.Bindings.{finalize_verified_create, complete_verified_update}
use gpt_owu_bridge.Storage.Rows.{All-append}
use gpt_owu_bridge.Storage.Evidence.{
  Evidenced, Evidenced-Keeps, Keeps-Unchanged, Unchanged, put_source_snapshot-Unchanged,
  save_plan-Unchanged, confirm_plan-Unchanged,
}
use gpt_owu_bridge.Storage.Preserved.{
  Preserved, prepare_create-Preserved, prepare_binding_operation-Preserved,
  transition_operation-Preserved, recover_interrupted-Preserved,
}
use gpt_owu_bridge.Storage.Finalized.{finalize_verified_create-Evidenced}
use gpt_owu_bridge.Storage.Updated.{Advanced-Keeps}
use gpt_owu_bridge.Storage.Completed.{complete_verified_update-Advanced}

-- A call that writes, with the clock's time where the call reads it.
pub data Call (Bytes : Type 0) : Type 0 where
  put_source : SourceSnapshot → Time → Call Bytes
  save : StoredPlan Bytes → Time → Call Bytes
  confirm : String → Time → Time → Call Bytes
  prepare : CreateRequest → Time → Call Bytes
  prepare_binding : PrepareOperationRequest → Time → Call Bytes
  transition : String → List OperationStatus → OperationStatus → TransitionPatch → Time → Call Bytes
  recover : Time → Call Bytes
  finalize : VerifiedCreate → Time → Call Bytes
  complete : String → TargetBaseline → ℕ → Time → Call Bytes

module _ {Bytes : Type 0} where
  -- The database after a call: a call that fails has written nothing.
  abbrev after {ℓ κ} : {E : Type ℓ} {A : Type κ} → (A → Db Bytes) → Db Bytes → Result E A → Db Bytes
  after f db (ok a) = f a
  after f db (err e) = db

  unfoldable pub perform : Platform Bytes → Installation → Call Bytes → Db Bytes → Db Bytes
  perform p i (put_source s now) db = after (λ d. d) db (put_source_snapshot p s now db)
  perform p i (save plan now) db = after (λ d. d) db (save_plan p i plan now db)
  perform p i (confirm id given clock) db = after (λ r. r.1) db (confirm_plan p i id given clock db)
  perform p i (prepare request now) db = after (λ r. r.2) db (prepare_create p i request now db)
  perform p i (prepare_binding request now) db =
      after (λ r. r.2) db (prepare_binding_operation p i request now db)
  perform p i (transition id expected next patch now) db =
      after (λ r. r.1) db (transition_operation id expected next patch now db)
  perform p i (recover now) db = after (λ r. r.1) db (recover_interrupted now db)
  perform p i (finalize v now) db = after (λ r. r.1) db (finalize_verified_create p i v now db)
  perform p i (complete id v version now) db =
      after (λ d. d) db (complete_verified_update p i id v version now db)

  -- A run of calls, from a database.
  unfoldable pub run : Platform Bytes → Installation → List (Call Bytes) → Db Bytes → Db Bytes
  run p i [] db = db
  run p i (c ∷ cs) db = run p i cs (perform p i c db)

  abbrev pub empty : Db Bytes
  empty = record {
    sources = [];
    plans = [];
    operations = [];
    intents = [];
    bindings = [];
    allowlist = [];
    mappings = [];
    baselines = [];
  }

  -- All bindings of the database have their evidence.
  abbrev pub IsTrusted : Installation → Db Bytes → Type 0
  IsTrusted i db = All (Evidenced i db) db.bindings

  after-IsTrusted {ℓ κ} :
      {E : Type ℓ} {A : Type κ} (i : Installation) (f : A → Db Bytes) (db : Db Bytes)
      (r : Result E A)
      → IsTrusted i db
      → ((a : A) → r ≡ ok a → IsTrusted i (f a))
      → IsTrusted i (after f db r)
  after-IsTrusted i f db (ok a) t k = k a refl
  after-IsTrusted i f db (err e) t k = t

  Unchanged-IsTrusted :
      (i : Installation) (db db' : Db Bytes) → Unchanged db db' → IsTrusted i db → IsTrusted i db'
  Unchanged-IsTrusted i db db' u =
      (Advanced-Keeps i db db' (Keeps-Unchanged u) u.bindings_same).evidenced

  Preserved-IsTrusted :
      (i : Installation) (db db' : Db Bytes) → Preserved db db' → IsTrusted i db → IsTrusted i db'
  Preserved-IsTrusted i db db' u = (Advanced-Keeps i db db' u.keeps u.bindings_same).evidenced

  pub finalize-IsTrusted :
      (p : Platform Bytes) (i : Installation) (v : VerifiedCreate) (now : Time) (db : Db Bytes)
      (b : Binding) (db' : Db Bytes)
      → finalize_verified_create p i v now db ≡ ok (b, db')
      → IsTrusted i db
      → IsTrusted i db'
  finalize-IsTrusted p i v now db b db' h t =
      let (kept, row, bound, e, _) = finalize_verified_create-Evidenced p i v now db b db' h in
      subst (All (Evidenced i db')) (sym bound) (
        All-append (Evidenced i db') db.bindings (row ∷ [])
          (All-map db.bindings (λ r. Evidenced-Keeps i db db' r kept) t) (e, tt))

  pub perform-IsTrusted :
      (p : Platform Bytes) (i : Installation) (c : Call Bytes) (db : Db Bytes)
      → IsTrusted i db
      → IsTrusted i (perform p i c db)
  unfolding perform
  perform-IsTrusted p i (put_source s now) db t =
      after-IsTrusted i _ db (put_source_snapshot p s now db) t
        λ d h. Unchanged-IsTrusted i db d (put_source_snapshot-Unchanged p s now db d h) t
  perform-IsTrusted p i (save plan now) db t =
      after-IsTrusted i _ db (save_plan p i plan now db) t
        λ d h. Unchanged-IsTrusted i db d (save_plan-Unchanged p i plan now db d h) t
  perform-IsTrusted p i (confirm id given clock) db t =
      after-IsTrusted i _ db (confirm_plan p i id given clock db) t λ d h.
        Unchanged-IsTrusted i db d.1 (confirm_plan-Unchanged p i id given clock db d.1 d.0 h) t
  perform-IsTrusted p i (prepare request now) db t =
      after-IsTrusted i _ db (prepare_create p i request now db) t λ d h.
        Preserved-IsTrusted i db d.2 (prepare_create-Preserved p i request now db d.0 d.1 d.2 h) t
  perform-IsTrusted p i (prepare_binding request now) db t =
      after-IsTrusted i _ db (prepare_binding_operation p i request now db) t λ d h.
        Preserved-IsTrusted i db d.2
          (prepare_binding_operation-Preserved p i request now db d.0 d.1 d.2 h) t
  perform-IsTrusted p i (transition id expected next patch now) db t =
      after-IsTrusted i _ db (transition_operation id expected next patch now db) t λ d h.
        Preserved-IsTrusted i db d.1
          (transition_operation-Preserved id expected next patch now db d.0 d.1 h) t
  perform-IsTrusted p i (recover now) db t =
      after-IsTrusted i _ db (recover_interrupted now db) t
        λ d h. Preserved-IsTrusted i db d.1 (recover_interrupted-Preserved now db d.0 d.1 h) t
  perform-IsTrusted p i (finalize v now) db t =
      after-IsTrusted i _ db (finalize_verified_create p i v now db) t
        λ d h. finalize-IsTrusted p i v now db d.0 d.1 h t
  perform-IsTrusted p i (complete id v version now) db t =
      after-IsTrusted i _ db (complete_verified_update p i id v version now db) t
        λ d h. (complete_verified_update-Advanced p i id v version now db d h).evidenced t

  run-IsTrusted_from :
      (p : Platform Bytes) (i : Installation) (cs : List (Call Bytes)) (db : Db Bytes)
      → IsTrusted i db
      → IsTrusted i (run p i cs db)
  unfolding run
  run-IsTrusted_from p i [] db t = t
  run-IsTrusted_from p i (c ∷ cs) db t =
      run-IsTrusted_from p i cs (perform p i c db) (perform-IsTrusted p i c db t)

  -- After any sequence of the store's writing calls on an empty database, each call with
  -- arguments and times of its own, every binding has its evidence: the operation that created
  -- it is there and has succeeded on the binding's target with a receipt, its intent was
  -- recorded, and the target is allowed for this binding and this operation.
  pub run-IsTrusted :
      (p : Platform Bytes) (i : Installation) (cs : List (Call Bytes))
      → IsTrusted i (run p i cs empty)
  run-IsTrusted p i cs = run-IsTrusted_from p i cs empty tt
