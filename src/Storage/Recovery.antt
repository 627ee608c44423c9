-- ===== src/Storage/Recovery.antt =====
-- internal/storage/operations.go: the recovery after an interruption.
use mathlib.Core.List.{Mem, mem-cons_self, mem-cons_of_mem}
use gpt_owu_bridge.Base.{
  Option, none, true, map, sym, ==→eq, ◌≢◌, ◌⊎◌, arith, All-mem, All-of_mem, ◌≡◌, refl, String,
  List, [], ◌∷◌, some, false, ◌==◌, text_eq, keep, find_first, All, All-map, subst, Bool-cases, inl,
  inr, ok, eq→==,
}
use gpt_owu_bridge.Domain.{Time, prepared, applying, verifying, needs_reconciliation}
use gpt_owu_bridge.Storage.Types.{status_eq, OperationRecord}
use gpt_owu_bridge.Storage.Tables.{Db, OperationRow, modify_where, find_operation}
use gpt_owu_bridge.Storage.Sort.{sort_by}
use gpt_owu_bridge.Storage.Operations.{scan_operation}
use gpt_owu_bridge.Storage.Transition.{
  interrupted, paused_row, mark_interrupted, read_each, recover_interrupted, recoverable, older,
}
use gpt_owu_bridge.Storage.Rows.{find_first-modify_where, find_first-holds, mapped, updated}
use gpt_owu_bridge.Storage.Listing.{All-sort_by, All-keep, All-both, mem-sort_by, mem-keep}

-- Something is found under the row's id.
abbrev HasRow : List OperationRow → OperationRow → Type 0
HasRow rows r =
    (row : OperationRow) × (find_first (λ o. o.operation_id == r.operation_id) rows ≡ some row)

rows-HasRow : (rows : List OperationRow) → All (HasRow rows) rows
unfolding find_first
rows-HasRow [] = tt
rows-HasRow (x ∷ xs) = (
  (x, rw (eq→== x.operation_id _ refl) refl),
  All-map xs
      (λ r h. elim (Bool-cases (x.operation_id == r.operation_id)) [
        | inl t ↦ (x, rw t refl)
        | inr t ↦ (h.0, rw t h.1)
      ])
      (rows-HasRow xs),
)

paused-settled :
    (now : Time) (rows : List OperationRow)
    → All (λ r. interrupted r ≡ false) (modify_where interrupted (paused_row now) rows)
unfolding modify_where paused_row
paused-settled now [] = tt
paused-settled now (r ∷ rows) = elim (Bool-cases (interrupted r)) [
  | inl t ↦ rw t (refl, paused-settled now rows)
  | inr t ↦ rw t (t, paused-settled now rows)
]

abbrev pub WasInterrupted : OperationRow → Type 0
WasInterrupted row = (row.status ≡ applying) ⊎ (row.status ≡ verifying)

abbrev pub CanResume : OperationRow → Type 0
CanResume row = (row.status ≡ prepared) ⊎ (row.status ≡ needs_reconciliation)

-- What an interrupted operation has become: it waits for a readback, an error that it had is kept,
-- and so is all else.
pub record Paused (now : Time) (old new : OperationRow) : Type 0 where
  pub waiting : new.status ≡ needs_reconciliation
  pub to_read : new.needs_readback ≡ true
  pub error :
      ((old.last_error_code ≡ "") × (new.last_error_code ≡ "process_interrupted"))
      ⊎ ((old.last_error_code ≢ "") × (new.last_error_code ≡ old.last_error_code))
  pub at_time : new.updated_at ≡ now
  pub all_else : new ≡ record old {
    status = new.status;
    needs_readback = new.needs_readback;
    last_error_code = new.last_error_code;
    updated_at = new.updated_at;
  }

-- What is found under an id before and after: a row that was interrupted is paused, another stays.
abbrev pub Recovered : Time → Option OperationRow → Option OperationRow → Type 0
Recovered now (some old) (some new) =
    (WasInterrupted old × Paused now old new)
    ⊎ ((old.status ≢ applying) × (old.status ≢ verifying) × (new ≡ old))
Recovered now none none = Unit
Recovered now _ _ = ⊥

error_of :
    (r : OperationRow) (now : Time)
    → ((r.last_error_code ≡ "") × ((paused_row now r).last_error_code ≡ "process_interrupted"))
      ⊎ ((r.last_error_code ≢ "") × ((paused_row now r).last_error_code ≡ r.last_error_code))
unfolding paused_row
error_of r now = elim (Bool-cases (r.last_error_code == "")) [
  | inl t ↦ inl (==→eq _ _ t, rw t refl)
  | inr t ↦ inr (λ e. ground (arith, t, eq→== _ _ e), rw t refl)
]

paused_row-Paused : (now : Time) (r : OperationRow) → Paused now r (paused_row now r)
unfolding paused_row
paused_row-Paused now r = record {
  waiting = refl;
  to_read = refl;
  error = error_of r now;
  at_time = refl;
  all_else = refl;
}

updated-Recovered :
    (now : Time) (o : Option OperationRow)
    → Recovered now o (mapped (updated interrupted (paused_row now)) o)
updated-Recovered now none = tt
updated-Recovered now (some r) = elim (Bool-cases (interrupted r)) [
  | inl t ↦ rw t (inl (ground (arith, t), paused_row-Paused now r))
  | inr t ↦ rw t (inr (ground (arith, t), ground (arith, t), refl))
]

abbrev ids_of : List OperationRecord → List String
ids_of = map (λ r. r.operation.id)

module _ {Bytes : Type 0} where
  -- The record is what is stored under the id of an operation that can be taken up.
  abbrev pub Listed : Db Bytes → OperationRecord → Type 0
  Listed db r =
      (row : OperationRow) × (stored : OperationRow) × Mem row db.operations
      × CanResume row
      × (row.operation_id ≡ r.operation.id)
      × (find_operation db r.operation.id ≡ some stored)
      × (r ≡ scan_operation stored)

  abbrev Takes : Db Bytes → OperationRow → Type 0
  Takes db row = (HasRow db.operations row × Mem row db.operations) × (recoverable row ≡ true)

  read_each-Listed :
      (db : Db Bytes) (rows : List OperationRow)
      → All (Takes db) rows
      → (found : List OperationRecord) × (read_each db rows ≡ ok found)
        × All (Listed db) found
        × All (λ row. Mem row.operation_id (ids_of found)) rows
  unfolding read_each find_operation scan_operation
  read_each-Listed db [] h = ([], refl, tt, tt)
  read_each-Listed db (r ∷ rows) h =
      let (rest, e, listed, there) = read_each-Listed db rows h.1 in
      let stored = h.0.0.0.0 in
      let at_id = h.0.0.0.1 in
      let same : stored.operation_id ≡ r.operation_id =
        ==→eq _ _
          (find_first-holds (λ o. o.operation_id == r.operation_id) db.operations stored at_id) in
      (
        scan_operation stored ∷ rest,
        rw at_id (rw e refl),
        (
          (
            r,
            stored,
            h.0.0.1,
            ground (arith, h.0.1),
            sym same,
            subst (λ k. find_operation db k ≡ some stored) (sym same) at_id,
            refl,
          ),
          listed,
        ),
        (
          rw (sym same) mem-cons_self,
          All-map rows (λ row m. mem-cons_of_mem stored.operation_id m) there,
        ),
      )

  -- What a recovery leaves and returns.
  pub record Settled (now : Time) (db db' : Db Bytes) (found : List OperationRecord) : Type 0 where
    pub none_under_way : All (λ r. interrupted r ≡ false) db'.operations
    pub each_recovered :
        (id : String) → Recovered now (find_operation db id) (find_operation db' id)
    pub others_kept : db' ≡ record db { operations = db'.operations }
    pub only_resumable : All (Listed db') found
    pub all_resumable :
        All
          (λ row.
            Mem row.operation_id (ids_of found)
            ⊎ ((row.status ≢ prepared) × (row.status ≢ needs_reconciliation)))
          db'.operations

  abbrev pub Settles : Time → Db Bytes → Type 0
  Settles now db =
      (found : List OperationRecord) × (db' : Db Bytes) × (recover_interrupted now db
        ≡ ok (found, db'))
      × Settled now db db' found

  -- The recovery always succeeds, and leaves no operation applying or verifying. Each that was is
  -- found under its id as one that needs reconciliation and a readback, with its error or, where it
  -- had none, that of an interruption, and each other as it was. The list that it returns names each
  -- operation that is then prepared or in need of reconciliation, and no other, by what is stored
  -- under its id.
  pub recover_interrupted-Settles : (now : Time) (db : Db Bytes) → Settles now db
  unfolding recover_interrupted mark_interrupted find_operation paused_row
  recover_interrupted-Settles now db =
      let marked = mark_interrupted now db in
      let rows = sort_by older (keep recoverable marked.operations) in
      let good = All-keep _ recoverable marked.operations (
        All-both (HasRow marked.operations) _ marked.operations (rows-HasRow marked.operations)
          (All-of_mem marked.operations (λ r m. m))) in
      let (found, e, listed, there) =
        read_each-Listed marked rows (All-sort_by (Takes marked) older _ good) in
      (
        found,
        marked,
        rw e refl,
        record {
          none_under_way = paused-settled now db.operations;
          each_recovered = λ id.
              rw
                (find_first-modify_where (λ o. o.operation_id == id) interrupted (paused_row now)
                  db.operations (λ _. refl))
                (updated-Recovered now (find_first (λ o. o.operation_id == id) db.operations));
          others_kept = refl;
          only_resumable = listed;
          all_resumable = All-of_mem marked.operations λ row m.
              elim (Bool-cases (recoverable row)) [
                | inl t ↦ inl (
                    All-mem row rows (λ _. hlevel) there
                      (mem-sort_by older row _ (mem-keep recoverable row _ m t)))
                | inr t ↦ inr (ground (arith, t), ground (arith, t))
              ];
        },
      )
