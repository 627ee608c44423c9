-- ===== src/Examples/Storage.antt =====
-- The theorems on the store, at the store of the examples.
use mathlib.Core.List.{Nodup}
use native.Mathlib.Decide.{ℕ_discrete}
use gpt_owu_bridge.Base.{
  ◌≡◌, refl, ◌↔◌, length, map, [], ◌∷◌, ok, err, false, find_first, contains, Text-discrete, arith,
  All, keep, insert, lookup, filter_map, index_by,
}
use gpt_owu_bridge.Domain.Hash.{source_hash, target_hash, hashed_source, hashed_target}
use gpt_owu_bridge.Storage.Tables.{
  modify_where, find_operation, find_intent, find_binding, find_source, find_plan, find_blocker,
  insert_operation, insert_intent, insert_binding, insert_allowed, insert_mapping, insert_baseline,
}
use gpt_owu_bridge.Storage.Records.{
  get_source_snapshot, put_source_snapshot, stored_plan_payload_hash, get_plan, save_plan,
  source_alias, store_source, store_plan, existing_source,
}
use gpt_owu_bridge.Storage.Operations.{
  scan_operation, new_operation, failure_at, transition_allowed, get_operation_by_idempotency,
  validate_executable_plan,
}
use gpt_owu_bridge.Storage.Prepare.{
  insert_prepared_operation, write_create, create_operation, prepare_create,
}
use gpt_owu_bridge.Storage.Transition.{moved_row, check_move, transition_operation}
use gpt_owu_bridge.Storage.Allowed.{tally, is_evidence, evidence_count, validate_allowed_binding}
use gpt_owu_bridge.Storage.Mappings.{
  check_mappings, validate_mappings, mappings_from_target, all_agree, same_mappings,
  insert_mappings, replace_mappings,
}
use gpt_owu_bridge.Storage.Bindings.{
  install_binding, finalize_verified_create, advance_binding, install_update, write_update,
  complete_verified_update,
}
use gpt_owu_bridge.Storage.Calls.{
  run, perform, empty, IsTrusted, run-IsTrusted, complete, transition,
}
use gpt_owu_bridge.Examples.Store.{
  platform, home, history, planned_store, bound_store, verifying_store, prepared_store, creation,
  patch, renewed, created, hashed_share,
}
use gpt_owu_bridge.Storage.Moves.{Shifted, transition_operation-Moved}
use gpt_owu_bridge.Storage.Replay.{prepare_create-replayed, prepare_create-conflict}
use gpt_owu_bridge.Storage.Versions.{Renewed, complete_verified_update-Renewed}
use gpt_owu_bridge.Storage.Recovery.{Settles, recover_interrupted-Settles}
use gpt_owu_bridge.Storage.Mapped.{Known, sources_of, targets_of, validate_mappings_iff}
use gpt_owu_bridge.Storage.Types.{create, CreateRequest, idempotency_conflict, OperationRecord}
use gpt_owu_bridge.Domain.{prepared, applying}

run-IsTrusted_example : IsTrusted home (run platform home history empty)
run-IsTrusted_example = run-IsTrusted platform home history

planned_count : length planned_store.plans ≡ 1
unfolding run perform put_source_snapshot source_hash hashed_source store_source existing_source
    find_source find_first Text-discrete save_plan get_source_snapshot target_hash hashed_target
    stored_plan_payload_hash store_plan find_plan ℕ_discrete
planned_count = refl

bound_count : length bound_store.bindings ≡ 1
unfolding run perform put_source_snapshot source_hash hashed_source store_source existing_source
    find_source find_first Text-discrete save_plan get_source_snapshot target_hash hashed_target
    stored_plan_payload_hash store_plan find_plan prepare_create get_operation_by_idempotency
    create_operation get_plan validate_executable_plan source_alias write_create
    insert_prepared_operation find_blocker insert_operation insert_intent scan_operation
    transition_operation find_operation moved_row check_move transition_allowed contains
    modify_where finalize_verified_create find_intent validate_mappings check_mappings
    mappings_from_target same_mappings all_agree install_binding insert_binding insert_allowed
    replace_mappings insert_mappings insert_mapping insert_baseline keep filter_map lookup insert
    index_by ℕ_discrete
bound_count = refl

abbrev first_record : OperationRecord
first_record = scan_operation (new_operation "me" "o1" "k1" create "" "" "p1" "h1" 3)

prepare_create-replayed_example :
    prepare_create platform home creation 8 prepared_store
    ≡ ok (first_record, false, prepared_store)
unfolding run perform put_source_snapshot source_hash hashed_source store_source existing_source
    find_source find_first Text-discrete save_plan get_source_snapshot target_hash hashed_target
    stored_plan_payload_hash store_plan find_plan prepare_create get_operation_by_idempotency
    create_operation get_plan validate_executable_plan source_alias write_create
    insert_prepared_operation find_blocker insert_operation insert_intent scan_operation
    transition_operation find_operation moved_row check_move transition_allowed contains
    modify_where finalize_verified_create find_intent validate_mappings check_mappings
    mappings_from_target same_mappings all_agree install_binding insert_binding insert_allowed
    replace_mappings insert_mappings insert_mapping insert_baseline keep filter_map lookup insert
    index_by ℕ_discrete
prepare_create-replayed_example =
    prepare_create-replayed platform home creation 3 8 planned_store first_record prepared_store
      refl

abbrev second_creation : CreateRequest
second_creation = record creation { operation_id = "o9"; payload_hash = "h9" }

prepare_create-conflict_example :
    prepare_create platform home second_creation 8 prepared_store
    ≡ err (failure_at first_record idempotency_conflict)
unfolding run perform put_source_snapshot source_hash hashed_source store_source existing_source
    find_source find_first Text-discrete save_plan get_source_snapshot target_hash hashed_target
    stored_plan_payload_hash store_plan find_plan prepare_create get_operation_by_idempotency
    create_operation get_plan validate_executable_plan source_alias write_create
    insert_prepared_operation find_blocker insert_operation insert_intent scan_operation
    transition_operation find_operation moved_row check_move transition_allowed contains
    modify_where finalize_verified_create find_intent validate_mappings check_mappings
    mappings_from_target same_mappings all_agree install_binding insert_binding insert_allowed
    replace_mappings insert_mappings insert_mapping insert_baseline keep filter_map lookup insert
    index_by ℕ_discrete
prepare_create-conflict_example =
    prepare_create-conflict platform home creation second_creation 3 8 planned_store first_record
      prepared_store refl refl refl (λ e. cc)

abbrev applied_record : OperationRecord
applied_record = record first_record {
  operation = record (first_record.operation) { status = applying; attempt_count = 1 };
  updated_at = 4;
}

transition_operation-Moved_example :
    Shifted "o1"
      (prepared ∷ [])
      applying
      prepared_store
      applied_record
      (perform platform home (transition "o1" (prepared ∷ []) applying (patch "") 4) prepared_store)
unfolding run perform put_source_snapshot source_hash hashed_source store_source existing_source
    find_source find_first Text-discrete save_plan get_source_snapshot target_hash hashed_target
    stored_plan_payload_hash store_plan find_plan prepare_create get_operation_by_idempotency
    create_operation get_plan validate_executable_plan source_alias write_create
    insert_prepared_operation find_blocker insert_operation insert_intent scan_operation
    transition_operation find_operation moved_row check_move transition_allowed contains
    modify_where finalize_verified_create find_intent validate_mappings check_mappings
    mappings_from_target same_mappings all_agree install_binding insert_binding insert_allowed
    replace_mappings insert_mappings insert_mapping insert_baseline keep filter_map lookup insert
    index_by ℕ_discrete
transition_operation-Moved_example =
    transition_operation-Moved "o1" (prepared ∷ []) applying (patch "") 4 prepared_store
      applied_record
      (perform platform home (transition "o1" (prepared ∷ []) applying (patch "") 4) prepared_store)
      refl

complete_verified_update-Renewed_example :
    Renewed "o2" renewed 1 9 verifying_store
      (perform platform home (complete "o2" renewed 1 9) verifying_store)
unfolding perform source_hash hashed_source find_source find_first Text-discrete get_source_snapshot
    target_hash hashed_target stored_plan_payload_hash find_plan get_plan find_operation contains
    modify_where validate_mappings check_mappings mappings_from_target replace_mappings
    insert_mappings insert_mapping insert_baseline keep filter_map ℕ_discrete
    validate_allowed_binding evidence_count tally is_evidence find_binding complete_verified_update
    write_update install_update advance_binding
complete_verified_update-Renewed_example =
    complete_verified_update-Renewed platform home "o2" renewed 1 9 verifying_store
      (perform platform home (complete "o2" renewed 1 9) verifying_store) (ground arith) refl

recover_interrupted-Settles_example :
    Settles 9
      (perform platform home (transition "o1" (prepared ∷ []) applying (patch "") 4) prepared_store)
recover_interrupted-Settles_example =
    recover_interrupted-Settles 9
      (perform platform home (transition "o1" (prepared ∷ []) applying (patch "") 4) prepared_store)

validate_mappings_iff_example :
    (validate_mappings hashed_share created.message_mappings ≡ ok tt) ↔ (
      All (Known (map (λ m. m.id) hashed_share.messages)) created.message_mappings
      × Nodup (sources_of created.message_mappings)
      × Nodup (targets_of created.message_mappings))
validate_mappings_iff_example = validate_mappings_iff hashed_share created.message_mappings
