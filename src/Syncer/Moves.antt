-- ===== src/Syncer/Moves.antt =====
-- internal/syncer/service.go: how an operation that cannot go on is put aside.
use gpt_owu_bridge.Base.{String, [], ◌∷◌, Option, none, some, Bool, true, false, Result, ok, err}
use gpt_owu_bridge.Domain.{prepared, applying, verifying, failed, needs_reconciliation}
use gpt_owu_bridge.Storage.Types.{OperationRecord, TransitionPatch}
use gpt_owu_bridge.Owu.{WriteError, outcome_unknown, definite}
use gpt_owu_bridge.Syncer.Types.{Service}
use gpt_owu_bridge.Syncer.Exec.{Exec, pure, stop, ◌>>=◌}
use gpt_owu_bridge.Syncer.Checks.{report}
use gpt_owu_bridge.Syncer.Repository.{holding, keeping, move_operation}

abbrev pub patched : String → String → Bool → String → TransitionPatch
patched target receipt readback code = record {
  target_chat_id = target;
  remote_receipt_id = receipt;
  needs_readback = some readback;
  error_code = code;
  verified_at = none;
}

module _ {Bytes R : Type 0} (s : Service Bytes R) where
  -- `failOperation`; the cause is dropped.
  unfoldable pub fail_operation {ℓ} : {A : Type ℓ} → OperationRecord → String → Exec Bytes R A
  fail_operation r code =
      move_operation s (keeping r "persist failed operation") r.operation.id
        (prepared ∷ applying ∷ verifying ∷ needs_reconciliation ∷ []) failed
        (patched "" "" false code)
      >>= λ updated. stop (
          holding updated (
            report code "the sync operation failed without a verified result"
              "create a fresh preview after correcting the reported condition" false
              updated.operation.id))

  -- `unknownOperation`.
  unfoldable pub unknown_operation {ℓ} :
      {A : Type ℓ} → OperationRecord → String → String → Exec Bytes R A
  unknown_operation r code message =
      move_operation s (keeping r "persist uncertain operation") r.operation.id
        (applying ∷ verifying ∷ needs_reconciliation ∷ []) needs_reconciliation
        (patched "" "" true code)
      >>= λ updated. stop (
          holding updated (
            report code message
              "use status or recovery; the service will not blindly retry the write" false
              updated.operation.id))

  -- `if test { return s.failOperation(…) }`, and the same for `unknownOperation`.
  abbrev pub fail_if : Bool → OperationRecord → String → Exec Bytes R (Unit {0})
  fail_if true r code = fail_operation r code
  fail_if false r code = pure tt

  abbrev pub unknown_if : Bool → OperationRecord → String → String → Exec Bytes R (Unit {0})
  unknown_if true r code message = unknown_operation r code message
  unknown_if false r code message = pure tt

  -- A value, or an operation put aside where there is none.
  abbrev pub or_failed {ℓ} : {A : Type ℓ} → Option A → OperationRecord → String → Exec Bytes R A
  or_failed (some a) r code = pure a
  or_failed none r code = fail_operation r code

  abbrev pub or_unknown {ℓ} :
      {A : Type ℓ} → Option A → OperationRecord → String → String → Exec Bytes R A
  or_unknown (some a) r code message = pure a
  or_unknown none r code message = unknown_operation r code message

  -- How a write that has not succeeded is put aside.
  abbrev pub settled {ℓ} :
      {A : Type ℓ}
      → Result WriteError A
      → OperationRecord
      → String
      → String
      → String
      → Exec Bytes R A
  settled (ok a) r code unknown_code message = pure a
  settled (err outcome_unknown) r code unknown_code message =
      unknown_operation r unknown_code message
  settled (err definite) r code unknown_code message = fail_operation r code
