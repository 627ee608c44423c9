-- ===== src/Examples/Finished.antt =====
-- An update and a creation that are read back and finished.
use native.Mathlib.Decide.{ℕ_discrete}
use gpt_owu_bridge.Storage.Allowed.{validate_allowed_binding, evidence_count, is_evidence, tally}
use gpt_owu_bridge.Storage.Bindings.{
  complete_verified_update, advance_binding, install_update, write_update, finalize_verified_create,
  install_binding,
}
use gpt_owu_bridge.Syncer.Repository.{load_operation, complete_update, finalize_create}
use gpt_owu_bridge.Storage.Records.{get_source_snapshot, get_plan, stored_plan_payload_hash}
use gpt_owu_bridge.Storage.Mappings.{
  check_mappings, insert_mappings, mappings_from_target, replace_mappings, validate_mappings,
  same_mappings, all_agree,
}
use gpt_owu_bridge.Storage.Tables.{
  find_operation, find_source, insert_baseline, insert_mapping, modify_where, find_binding,
  find_plan, find_intent, insert_binding, insert_allowed,
}
use gpt_owu_bridge.Domain.Hash.{target_hash, hashed_source, hashed_target, source_hash}
use gpt_owu_bridge.Syncer.Checks.{matches_planned}
use gpt_owu_bridge.Syncer.Exec.{◌>>=◌, pure, ask_store, try_store, read_clock, fresh_id}
use gpt_owu_bridge.Base.{
  String, [], ◌∷◌, refl, some, false, joined, Text-discrete, find_first, keep, filter_map, contains,
  lookup, insert, index_by,
}
use gpt_owu_bridge.Base.Int.{pos}
use gpt_owu_bridge.Domain.{Operation, verifying, succeeded}
use gpt_owu_bridge.Storage.Types.{OperationRecord, BindingState, create, update}
use gpt_owu_bridge.Storage.Operations.{new_operation, scan_operation, get_operation}
use gpt_owu_bridge.Owu.{Snapshot, has_operation_marker, match_snapshot}
use gpt_owu_bridge.Syncer.Types.{World}
use gpt_owu_bridge.Syncer.Create.{conclude_create}
use gpt_owu_bridge.Syncer.Update.{conclude_update}
use gpt_owu_bridge.Syncer.Verified.{
  UpdateVerified, CreateVerified, conclude_update-Verified, conclude_create-Verified,
}
use gpt_owu_bridge.Examples.Store.{
  Payload, of_text, verifying_store, plan_named, live_chat, hashed_share, created, renewed,
}
use gpt_owu_bridge.Examples.World.{Remote, service, start}

abbrev read_chat : Snapshot Payload
read_chat = record {
  chat_id = "t";
  owner_id = "acc";
  archived = false;
  pinned = false;
  folder_id = "";
  chat_updated_at = pos 0;
  normalized = live_chat;
  raw_chat = of_text "{}";
  raw_envelope = of_text "{}";
  conflict_hash = "talk";
}

abbrev finished : String → String → String → String → Operation
finished id key binding receipt = record {
  id = id;
  idempotency_key = key;
  binding_id = binding;
  status = succeeded;
  attempt_count = 0;
  needs_readback = false;
  last_error_code = "";
  remote_receipt_id = receipt;
  verified_at = some 5;
}

abbrev updating : OperationRecord
updating =
    scan_operation
      (record (new_operation "me" "o2" "k2" update "b" "l2" "p2" "h2" 7) { status = verifying })

abbrev bound : BindingState
bound = record {
  binding = record {
    id = "b";
    installation_id = "i";
    principal_id = "me";
    owu_site_id = "site";
    owu_account_id = "acc";
    target_chat_id = "t";
    created_by_operation = "o1";
    source_identity = created.source_identity;
    message_mappings = created.message_mappings;
    title_policy = created.title_policy;
    version = 1;
  };
  source_snapshot = hashed_share;
  target_baseline = renewed;
}

abbrev update_world : World Payload Remote
update_world = record { db = verifying_store; remote = start; sent = [] }

conclude_update-Verified_example :
    UpdateVerified service updating
      (plan_named "p2" "b" 1)
      bound
      read_chat
      (finished "o2" "k2" "b" "")
unfolding joined ◌>>=◌ Text-discrete pure has_operation_marker matches_planned match_snapshot
    target_hash ask_store try_store find_operation find_first keep hashed_source hashed_target
    source_hash check_mappings insert_mappings mappings_from_target replace_mappings
    validate_mappings get_operation get_source_snapshot find_source insert_baseline insert_mapping
    modify_where load_operation filter_map ℕ_discrete scan_operation conclude_update read_clock
    complete_update complete_verified_update validate_allowed_binding evidence_count is_evidence
    tally advance_binding install_update write_update get_plan stored_plan_payload_hash find_binding
    find_plan contains
conclude_update-Verified_example =
    conclude_update-Verified service updating (plan_named "p2" "b" 1) bound read_chat update_world
      (finished "o2" "k2" "b" "") refl

abbrev creating : OperationRecord
creating = scan_operation (record (new_operation "me" "o1" "k1" create "" "" "p1" "h1" 3) {
  status = verifying;
  attempt_count = 1;
  target_chat_id = "t";
  remote_receipt_id = "t";
})

abbrev create_world : World Payload Remote
create_world = record {
  db = record {
    sources = verifying_store.sources;
    plans = [];
    operations =
        record (new_operation "me" "o1" "k1" create "" "" "p1" "h1" 3) {
          status = verifying;
          attempt_count = 1;
          target_chat_id = "t";
          remote_receipt_id = "t";
        }
        ∷ [];
    intents = verifying_store.intents;
    bindings = [];
    allowlist = [];
    mappings = [];
    baselines = [];
  };
  remote = start;
  sent = [];
}

conclude_create-Verified_example :
    CreateVerified service creating
      (plan_named "p1" "" 0)
      read_chat
      (record (finished "o1" "k1" "binding" "t") { attempt_count = 1 })
unfolding joined ◌>>=◌ Text-discrete pure has_operation_marker matches_planned match_snapshot
    target_hash ask_store try_store find_operation find_first keep hashed_source hashed_target
    source_hash check_mappings insert_mappings mappings_from_target replace_mappings
    validate_mappings get_operation get_source_snapshot find_source insert_baseline insert_mapping
    modify_where load_operation filter_map ℕ_discrete scan_operation conclude_create fresh_id
    finalize_create finalize_verified_create find_intent same_mappings all_agree install_binding
    insert_binding insert_allowed lookup insert index_by contains
conclude_create-Verified_example =
    conclude_create-Verified service creating (plan_named "p1" "" 0) hashed_share read_chat
      create_world (record (finished "o1" "k1" "binding" "t") { attempt_count = 1 }) refl
