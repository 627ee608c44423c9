-- ===== src/Storage/Moves.antt =====
-- internal/storage/operations.go: what a move of an operation does, and what it never does.
use gpt_owu_bridge.Base.{
  suc, String, ◌≡◌, refl, ◌⊎◌, inl, inr, List, some, true, not, ◌==◌, ◌&&◌, false, ◌||◌, text_eq,
  if◌then◌else◌, ok, >>=-elim, arith, nonempty, Bool-cases, refused-elim, refuse_if-passed,
  contains, ==→eq, eq→==,
}
use gpt_owu_bridge.Domain.{
  Time, OperationStatus, prepared, applying, verifying, succeeded, failed, needs_reconciliation,
}
use gpt_owu_bridge.Storage.Types.{
  create, kind_eq, status_eq, OperationRecord, TransitionPatch, not_found,
}
use gpt_owu_bridge.Storage.Tables.{Db, OperationRow, unresolved, find_operation}
use gpt_owu_bridge.Storage.Records.{or_fail}
use gpt_owu_bridge.Storage.Operations.{transition_allowed, plainly, scan_operation}
use gpt_owu_bridge.Storage.Transition.{
  settable, set_once, moved_row, check_move, updated_row, update_operation, transition_operation,
}
use gpt_owu_bridge.Storage.Rows.{
  find_first-modified, find_first-untouched, find_first-holds, or_fail-found, plainly-found,
}

-- A text that is set is never replaced.
abbrev pub Settled : String → String → Type 0
Settled old new = (old ≡ "") ⊎ (new ≡ old)

-- What a move has found, and the row that it leaves.
pub record Moved (row new : OperationRow) (next : OperationStatus) : Type 0 where
  pub allowed : transition_allowed row.status next ≡ true
  pub open_before : unresolved row.status ≡ true
  pub status : new.status ≡ next
  pub same_id : new.operation_id ≡ row.operation_id
  pub same_owner : new.owner_id ≡ row.owner_id
  pub same_key : new.idempotency_key ≡ row.idempotency_key
  pub same_kind : new.kind ≡ row.kind
  pub same_binding : new.binding_id ≡ row.binding_id
  pub target_settled : Settled row.target_chat_id new.target_chat_id
  pub receipt_settled : Settled row.remote_receipt_id new.remote_receipt_id
  pub target_known : (row.kind == create && next == verifying && new.target_chat_id == "") ≡ false
  pub attempts :
      new.attempt_count ≡ (if next == applying then suc row.attempt_count else row.attempt_count)
  pub paused_reads : (next == needs_reconciliation && not new.needs_readback) ≡ false

set_once-Settled : (old new : String) → settable old new ≡ true → Settled old (set_once old new)
set_once-Settled old new h = elim (Bool-cases (new == "")) [
  | inl t ↦ inr (ground arith)
  | inr t ↦ elim (Bool-cases (old == "")) [
    | inl u ↦ inl (==→eq _ _ u)
    | inr u ↦ inr (ground (arith, ==→eq old new))
  ]
]

allowed-unresolved : (s t : OperationStatus) → transition_allowed s t ≡ true → unresolved s ≡ true
unfolding transition_allowed
allowed-unresolved prepared t h = refl
allowed-unresolved applying t h = refl
allowed-unresolved verifying t h = refl
allowed-unresolved needs_reconciliation t h = refl
allowed-unresolved succeeded t h = absurd (cc)
allowed-unresolved failed t h = absurd (cc)

pub check_move-Moved :
    (row : OperationRow) (expected : List OperationStatus) (next : OperationStatus)
    (patch : TransitionPatch) (now : Time)
    → check_move row expected next patch ≡ ok tt
    → (contains expected row.status ≡ true) × Moved row (moved_row row next patch now) next
unfolding check_move moved_row
check_move-Moved row expected next patch now h =
    refused-elim (not (contains expected row.status) || not (transition_allowed row.status next)) _
      _ h
      λ a h₁. refused-elim (not (settable row.target_chat_id patch.target_chat_id)) _ _ h₁ λ b h₂.
        refused-elim (not (settable row.remote_receipt_id patch.remote_receipt_id)) _ _ h₂ λ c h₃.
          let d = refuse_if-passed _ _ h₃ in
          let allowed : transition_allowed row.status next ≡ true = ground arith in
          (
            ground arith,
            record {
              allowed = allowed;
              open_before = allowed-unresolved row.status next allowed;
              status = refl;
              same_id = refl;
              same_owner = refl;
              same_key = refl;
              same_kind = refl;
              same_binding = refl;
              target_settled = set_once-Settled _ _ (ground arith);
              receipt_settled = set_once-Settled _ _ (ground arith);
              target_known = ground arith;
              attempts = refl;
              paused_reads = ground arith;
            },
          )

-- The row that a move has found and the row that it leaves: what the call returns, and what is
-- found afterwards.
abbrev pub Shifted :
    {Bytes : Type 0}
    → String
    → List OperationStatus
    → OperationStatus
    → Db Bytes
    → OperationRecord
    → Db Bytes
    → Type 0
Shifted id expected next db r db' =
    (row new : OperationRow) × (find_operation db id ≡ some row)
    × Moved row new next
    × (contains expected row.status ≡ true)
    × (r ≡ scan_operation new)
    × (find_operation db' id ≡ some new)
    × ((other : String)
        → find_operation db' other ≡ (if other == id then some new else find_operation db other))

-- A successful move of an operation has found the operation, the checks of the state machine
-- hold of its row and the row that is left, which is also what the call returns and what is
-- found under the id afterwards; the row of each other id is as before.
pub transition_operation-Moved :
    {Bytes : Type 0} (id : String) (expected : List OperationStatus) (next : OperationStatus)
    (patch : TransitionPatch) (now : Time) (db : Db Bytes) (r : OperationRecord) (db' : Db Bytes)
    → transition_operation id expected next patch now db ≡ ok (r, db')
    → Shifted id expected next db r db'
unfolding transition_operation find_operation moved_row
transition_operation-Moved id expected next patch now db r db' h =
    refused-elim (not (nonempty expected)) _ _ h λ _ h₁.
      >>=-elim (plainly (or_fail (find_operation db id) not_found)) _ h₁ λ row b h₂.
        >>=-elim (check_move row expected next patch) _ h₂ λ _ c d.
          let new = moved_row row next patch now in
          let found : find_operation db id ≡ some row =
            or_fail-found _ not_found (plainly-found _ b) in
          let (here, moved) = check_move-Moved row expected next patch now c in
          let key : row.operation_id ≡ id =
            ground (arith, find_first-holds (λ o. o.operation_id == id) db.operations row found) in
          let db'-eq : db' ≡ update_operation new db = cc (d) in
          let left : find_operation db' id ≡ some new = rw db'-eq (
            find_first-modified (λ o. o.operation_id == id)
              (λ o. o.operation_id == new.operation_id) (updated_row new) db.operations row
              (λ _. refl) found (rw key (eq→== id id refl))) in
          (
            row,
            new,
            found,
            moved,
            here,
            ground (arith, d),
            left,
            λ other. elim (Bool-cases (other == id)) [
              | inl t ↦ rw t (rw (==→eq other id t) left)
              | inr t ↦ rw t (
                  rw db'-eq (
                    find_first-untouched (λ o. o.operation_id == other)
                      (λ o. o.operation_id == new.operation_id) (updated_row new) db.operations
                      (λ _. refl) (λ o e. ground (arith, key, ==→eq o.operation_id other e))))
            ],
          )
