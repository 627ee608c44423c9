-- ===== src/Syncer/Quiet.antt =====
-- internal/syncer/service.go: the requests that change nothing, and those that send nothing.
use gpt_owu_bridge.Base.{
  String, ◌≡◌, refl, ◌≢◌, List, Option, none, some, Bool, true, false, ◌==◌, text_eq, Result, ok,
  err, arith, ne→==,
}
use gpt_owu_bridge.Domain.{prepared}
use gpt_owu_bridge.Storage.Types.{Installation, OperationRecord, status_eq}
use gpt_owu_bridge.Storage.Tables.{Db, OperationRow, find_operation}
use gpt_owu_bridge.Storage.Operations.{get_operation, scan_operation}
use gpt_owu_bridge.Syncer.Types.{ServiceError, Outcome, Service, World, Write}
use gpt_owu_bridge.Syncer.Exec.{Exec, ◌>>=◌, pure, stop}
use gpt_owu_bridge.Syncer.Checks.{authorize, terminal}
use gpt_owu_bridge.Syncer.Repository.{nothing, alone, check, reading, load_operation}
use gpt_owu_bridge.Syncer.Preview.{preview_sync}
use gpt_owu_bridge.Syncer.Service.{
  Request, preview_request, apply_request, status_request, recover_request, restart_request, serve,
  apply_sync, operation_status, recover_open, recover_operation,
}
use gpt_owu_bridge.Syncer.Safe.{Safe, Stable, Safe-if, Safe-pure}
use gpt_owu_bridge.Syncer.Asking.{ask_store-next}
use gpt_owu_bridge.Syncer.Kept.{Safe-resume, operation-Harmless}
use gpt_owu_bridge.Syncer.Blocks.{block_rules, Safe-preview_sync}
use gpt_owu_bridge.Syncer.Silent.{Safe-operation_status, Safe-recover_sent}

-- Who a request comes from.
abbrev pub principal_of : Request → Option String
principal_of (preview_request principal snapshot id) = some principal
principal_of (apply_request principal id confirmed) = some principal
principal_of (status_request principal id) = some principal
principal_of (recover_request principal id) = some principal
principal_of restart_request = none

-- The requests that only look at the target.
abbrev pub looks : Request → Bool
looks (preview_request principal snapshot id) = true
looks (apply_request principal id confirmed) = false
looks (status_request principal id) = true
looks (recover_request principal id) = false
looks restart_request = true

module _ {Bytes R : Type 0} where
  -- The writes are those of a list.
  abbrev SentIs : List Write → World Bytes R → Type 0
  SentIs l w = w.sent ≡ l

  SentIs-Stable : (i : Installation) (l : List Write) → Stable i (SentIs l)
  SentIs-Stable i l = record { elsewhere = λ w r h. h; advanced = λ w db r a h. h }

module _ {Bytes R : Type 0} (s : Service Bytes R) where
  check-next {ℓ} :
      {A : Type ℓ} (o : ServiceError → Outcome) (r : Result ServiceError (Unit {0}))
      (k : Unit {0} → Exec Bytes R A) (w : World Bytes R) (Q : World Bytes R → Type 0)
      → Q w
      → (r ≡ ok tt → Q (k tt w).1)
      → Q ((check s o r >>= k) w).1
  unfolding ◌>>=◌ pure stop
  check-next o (ok tt) k w Q h next = next refl
  check-next o (err e) k w Q h next = h

  authorized :
      (principal : String) → authorize s principal ≡ ok tt → principal ≡ s.installation.owner_id
  unfolding authorize
  authorized principal h = ground arith

  -- A request in the name of anyone but the owner changes nothing: no call of the store or the
  -- target is made.
  pub serve-refused :
      (request : Request) (w : World Bytes R) (principal : String)
      → principal_of request ≡ some principal
      → principal ≢ s.installation.owner_id
      → serve s request w ≡ w
  unfolding serve preview_sync apply_sync operation_status recover_operation
  serve-refused (preview_request other snapshot id) w principal h apart =
      check-next nothing (authorize s other) _ w (λ x. x ≡ w) refl
        λ e. absurd (apart (ground (arith, authorized other e)))
  serve-refused (apply_request other id confirmed) w principal h apart =
      check-next nothing (authorize s other) _ w (λ x. x ≡ w) refl
        λ e. absurd (apart (ground (arith, authorized other e)))
  serve-refused (status_request other id) w principal h apart =
      check-next nothing (authorize s other) _ w (λ x. x ≡ w) refl
        λ e. absurd (apart (ground (arith, authorized other e)))
  serve-refused (recover_request other id) w principal h apart =
      check-next nothing (authorize s other) _ w (λ x. x ≡ w) refl
        λ e. absurd (apart (ground (arith, authorized other e)))
  serve-refused restart_request w principal h apart = absurd (ground arith)

  -- A preview, a query and a restart send no write.
  pub serve-looks :
      (request : Request) (w : World Bytes R)
      → looks request ≡ true
      → (serve s request w).sent ≡ w.sent
  unfolding serve
  serve-looks (preview_request principal snapshot id) w h =
      (Safe-preview_sync s (SentIs-Stable s.installation w.sent) principal snapshot id).at w refl
  serve-looks (apply_request principal id confirmed) w h = absurd (ground arith)
  serve-looks (status_request principal id) w h =
      (Safe-operation_status s (SentIs-Stable s.installation w.sent) principal id).at w refl
  serve-looks (recover_request principal id) w h = absurd (ground arith)
  serve-looks restart_request w h =
      (Safe-resume s (SentIs-Stable s.installation w.sent) _).at w refl

  Safe-recover_open :
      (l : List Write) (r : OperationRecord)
      → (r.operation.status == prepared) ≡ false
      → Safe (SentIs l) (recover_open s r)
  unfolding recover_open
  Safe-recover_open l r h =
      rw h (search (block_rules, SentIs-Stable s.installation, Safe-recover_sent) depth 10)

  loaded-status :
      (db db' : Db Bytes) (id : String) (row : OperationRow) (r : OperationRecord)
      → reading db (get_operation db id) ≡ ok (r, db')
      → find_operation db id ≡ some row
      → r.operation.status ≡ row.status
  unfolding get_operation scan_operation
  loaded-status db db' id row r h found = ground arith

  -- The recovery of an operation that is past its preparation sends no write, whatever the store
  -- and the target answer.
  pub recover_operation-sent :
      (principal id : String) (w : World Bytes R) (row : OperationRow)
      → find_operation w.db id ≡ some row
      → row.status ≢ prepared
      → (recover_operation s principal id w).1.sent ≡ w.sent
  unfolding recover_operation load_operation
  recover_operation-sent principal id w row found begun =
      check-next nothing (authorize s principal) _ w (SentIs w.sent) refl λ _.
        ask_store-next s (SentIs-Stable s.installation w.sent) (alone "load operation") _ _ w
          (SentIs w.sent) (operation-Harmless s (SentIs-Stable s.installation w.sent) id) refl
          (λ _ x. x)
          λ r now w' e _ h.
            (Safe-if (terminal r.operation.status) _ _ (Safe-pure r.operation) (
                Safe-recover_open w.sent r
                  (rw (loaded-status w.db w'.db id row r e found) (ne→== _ _ begun)))).at
              w' h
