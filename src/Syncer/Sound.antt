-- ===== src/Syncer/Sound.antt =====
-- internal/syncer/service.go: what the writes that have been sent have behind them in the store.
use gpt_owu_bridge.Base.{
  arith, subst, String, ◌≡◌, sym, ◌∙◌, ◌≢◌, List, [], ◌∷◌, map, some, All, All-map,
}
use mathlib.Core.Logic.Or
use mathlib.Core.List.{Mem, Nodup, Nodup-cons, not-mem-nil, mem-cons}
use gpt_owu_bridge.Domain.{prepared, succeeded}
use gpt_owu_bridge.Storage.Types.{create, Installation}
use gpt_owu_bridge.Storage.Tables.{Db, OperationRow, AllowRow, BindingRow, find_operation}
use gpt_owu_bridge.Storage.Evidence.{find_allowed, Evidenced, Keeps, Started}
use gpt_owu_bridge.Storage.Calls.{IsTrusted}
use gpt_owu_bridge.Syncer.Types.{Write, created, updated, operation_of, World}
use gpt_owu_bridge.Syncer.Safe.{Stable}

module _ {Bytes : Type 0} where
  -- A chat that this installation has made: a creation has succeeded on it with a receipt, and
  -- the allowlist names that creation for it.
  pub record Owned (db : Db Bytes) (target : String) : Type 0 where
    pub creation : String
    pub operation : OperationRow
    pub found : find_operation db creation ≡ some operation
    pub made : operation.kind ≡ create
    pub done : operation.status ≡ succeeded
    pub receipt : operation.remote_receipt_id ≢ ""
    pub on_target : operation.target_chat_id ≡ target
    pub allowed : AllowRow
    pub allowed_found : find_allowed db target ≡ some allowed
    pub allowed_creation : allowed.creation_operation_id ≡ creation

  Owned-Keeps : {db db' : Db Bytes} → Keeps db db' → (t : String) → Owned db t → Owned db' t
  Owned-Keeps k t o = record {
    creation = o.creation;
    operation = o.operation;
    found = k.operations_kept _ _ o.found o.done;
    made = o.made;
    done = o.done;
    receipt = o.receipt;
    on_target = o.on_target;
    allowed = o.allowed;
    allowed_found = k.allowed_kept _ _ o.allowed_found;
    allowed_creation = o.allowed_creation;
  }

  pub Owned-Evidenced :
      {i : Installation} {db : Db Bytes} (b : BindingRow Bytes)
      → Evidenced i db b
      → Owned db b.target_chat_id
  Owned-Evidenced b e = record {
    creation = b.created_by_operation;
    operation = e.operation;
    found = e.operation_found;
    made = e.made;
    done = e.done;
    receipt = e.receipt;
    on_target = e.on_target;
    allowed = e.allowed;
    allowed_found = e.allowed_found;
    allowed_creation = e.allowed_operation;
  }

  -- An update goes to a chat of this installation; a creation names none.
  abbrev pub Permitted : Db Bytes → Write → Type 0
  Permitted db (created id) = Unit
  Permitted db (updated id target) = Owned db target

  Permitted-Keeps :
      {db db' : Db Bytes} → Keeps db db' → (x : Write) → Permitted db x → Permitted db' x
  Permitted-Keeps k (created id) h = tt
  Permitted-Keeps k (updated id target) h = Owned-Keeps k target h

  -- The operation of a write is stored, and past its preparation.
  abbrev pub Recorded : Db Bytes → Write → Type 0
  Recorded db x = Started db (operation_of x)

module _ {Bytes R : Type 0} where
  -- What holds between any two calls; the targets are those that a method has looked up.
  pub record Sound (i : Installation) (targets : List String) (w : World Bytes R) : Type 0 where
    pub trusted : IsTrusted i w.db
    pub known : All (Owned w.db) targets
    pub recorded : All (Recorded w.db) w.sent
    pub permitted : All (Permitted w.db) w.sent
    pub once : Nodup (map operation_of w.sent)

  pub Sound-Stable : (i : Installation) (targets : List String) → Stable i (Sound i targets)
  Sound-Stable i targets = record {
    elsewhere = λ w r h. record {
      trusted = h.trusted;
      known = h.known;
      recorded = h.recorded;
      permitted = h.permitted;
      once = h.once;
    };
    advanced = λ w db r a h. record {
      trusted = a.evidenced h.trusted;
      known = All-map targets (Owned-Keeps a.keeps) h.known;
      recorded = All-map w.sent (λ x. a.keeps.started_kept (operation_of x)) h.recorded;
      permitted = All-map w.sent (Permitted-Keeps a.keeps) h.permitted;
      once = h.once;
    };
  }

  -- Fewer targets, and one more.
  pub Sound-forget :
      (i : Installation) (targets : List String) (w : World Bytes R)
      → Sound i targets w
      → Sound i [] w
  Sound-forget i targets w h = record {
    trusted = h.trusted;
    known = tt;
    recorded = h.recorded;
    permitted = h.permitted;
    once = h.once;
  }

  pub Sound-learn :
      (i : Installation) (target : String) (w : World Bytes R)
      → Owned w.db target
      → Sound i [] w
      → Sound i (target ∷ []) w
  Sound-learn i target w o h = record {
    trusted = h.trusted;
    known = (o, tt);
    recorded = h.recorded;
    permitted = h.permitted;
    once = h.once;
  }

  -- One more write, of an operation that has none.
  pub Sound-send :
      (i : Installation) (targets : List String) (x : Write) (r : R) (w : World Bytes R)
      → Recorded w.db x
      → Permitted w.db x
      → (Mem (operation_of x) (map operation_of w.sent) → ⊥)
      → Sound i targets w
      → Sound i targets (record w { remote = r; sent = x ∷ w.sent })
  Sound-send i targets x r w started permitted new h = record {
    trusted = h.trusted;
    known = h.known;
    recorded = (started, h.recorded);
    permitted = (permitted, h.permitted);
    once = Nodup-cons.1 (new, h.once);
  }

-- An operation of which no write is in a list is not among those of the list.
unsent :
    (id : String) (xs : List Write)
    → All (λ x. operation_of x ≢ id) xs
    → Mem id (map operation_of xs)
    → ⊥
unsent id [] h m = not-mem-nil m
unsent id (x ∷ xs) h m =
    Or.elim (λ x _. absurd x) (mem-cons.0 m) (λ e. h.0 (sym e)) (unsent id xs h.1)

unprepared :
    {Bytes : Type 0} (db : Db Bytes) (id : String) (row : OperationRow)
    → Started db id
    → find_operation db id ≡ some row
    → row.status ≡ prepared
    → ⊥
unprepared db id row s found still =
    let same : some s.operation ≡ some row = sym s.found ∙ found in s.begun (ground arith)

-- An operation that is still prepared has no write.
pub prepared-unsent :
    {Bytes : Type 0} (db : Db Bytes) (id : String) (row : OperationRow) (xs : List Write)
    → find_operation db id ≡ some row
    → row.status ≡ prepared
    → All (Recorded db) xs
    → Mem id (map operation_of xs)
    → ⊥
prepared-unsent db id row xs found still h =
    unsent id xs (All-map xs (λ x s e. unprepared db id row (subst (Started db) e s) found still) h)
