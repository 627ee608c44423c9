-- ===== src/Storage/Records.antt =====
-- internal/storage/records.go: source snapshots and sync plans. The installation of the store and
-- the clock are arguments; a call that writes returns the new database.
use gpt_owu_bridge.Base.{
  ◌^◌, String, [], ◌∷◌, ◌++◌, Option, none, some, Bool, true, false, not, ◌&&◌, ◌||◌, ◌==◌, text_eq,
  nat_eq, if◌then◌else◌, ltb, joined, Result, ok, err, ◌>>=◌, ◌>>◌, refuse_if,
}
use gpt_owu_bridge.Domain.{Time, SourceSnapshot}
use gpt_owu_bridge.Domain.Hash.{source_hash, target_hash}
use gpt_owu_bridge.Storage.Types.{
  StorageError, identity_mismatch, corrupt, not_found, immutable_conflict, plan_expired,
  binding_version_changed, refused, Installation, StoredPlan, Platform,
}
use gpt_owu_bridge.Storage.Tables.{
  Db, SourceRow, PlanRow, exists, modify_where, find_source, find_plan, find_binding,
}

-- A value that its maker may lack, or the error.
abbrev pub or_fail {ℓ} : {A : Type ℓ} → Option A → StorageError → Result StorageError A
or_fail none e = err e
or_fail (some a) e = ok a

module _ {Bytes : Type 0} (p : Platform Bytes) where
  -- `getSourceSnapshot`: the stored snapshot must still have the hash that it is found by.
  unfoldable pub get_source_snapshot : Db Bytes → String → Result StorageError SourceSnapshot
  get_source_snapshot db hash = do
    row ← or_fail (find_source db hash) not_found
    snapshot ← or_fail (p.codec.unmarshal_source row.payload) (refused "decode source snapshot")
    computed ← or_fail (source_hash p.codec snapshot) corrupt
    refuse_if (not (computed == hash) || not (snapshot.business_hash == hash)) corrupt
    ok snapshot

  -- The check of a row that is there already.
  unfoldable pub existing_source : SourceSnapshot → SourceRow Bytes → Result StorageError (Unit {0})
  existing_source snapshot row = do
    stored ← or_fail (p.codec.unmarshal_source row.payload) corrupt
    hash ← or_fail (source_hash p.codec stored) corrupt
    refuse_if
        (not (hash == snapshot.business_hash)
          || not (stored.business_hash == snapshot.business_hash))
        corrupt

  unfoldable pub store_source :
      SourceSnapshot → Time → Bytes → Db Bytes → Result StorageError (Db Bytes)
  store_source snapshot now payload db = elim (find_source db snapshot.business_hash) [
    | some row ↦ existing_source snapshot row >>= λ _. ok db
    | none ↦ ok (record db {
      sources =
          db.sources
          ++ record { business_hash = snapshot.business_hash; payload = payload; created_at = now }
            ∷ [];
    })
  ]

  -- `PutSourceSnapshot`.
  unfoldable pub put_source_snapshot :
      SourceSnapshot → Time → Db Bytes → Result StorageError (Db Bytes)
  unfolding existing_source store_source
  put_source_snapshot snapshot now db = do
    computed ← or_fail (source_hash p.codec snapshot) (refused "marshal source snapshot")
    refuse_if (snapshot.business_hash == "" || not (snapshot.business_hash == computed))
        (refused "source snapshot business hash is missing or invalid")
    payload ← or_fail (p.codec.marshal_source snapshot) (refused "marshal source snapshot")
    store_source snapshot now payload db

  -- `storedPlanPayloadHash`.
  unfoldable pub stored_plan_payload_hash : StoredPlan Bytes → Option String
  stored_plan_payload_hash plan =
      elim (p.marshal_stored (record plan { payload_hash = ""; confirmed_at = none })) [
        | none ↦ none
        | some payload ↦ some (p.codec.sha256_hex payload)
      ]

  -- The record that a row of `sync_plans` is read into, its two columns of JSON decoded.
  abbrev pub read_plan : PlanRow Bytes → Result StorageError (StoredPlan Bytes)
  read_plan row = do
    plan ← or_fail (p.codec.unmarshal_plan row.plan) corrupt
    desired ← or_fail (p.codec.unmarshal_target row.desired_target) corrupt
    ok (record {
      plan = record plan { binding_version = row.binding_version; expires_at = row.expires_at };
      owner_id = row.owner_id;
      binding_id = row.binding_id;
      source_snapshot_hash = row.source_snapshot_hash;
      previous_snapshot_hash = row.previous_snapshot_hash;
      expected_target_hash = row.expected_target_hash;
      expected_target_conflict_hash = row.expected_target_conflict_hash;
      desired_target = desired;
      desired_conflict_hash = row.desired_conflict_hash;
      desired_raw_chat = row.desired_raw_chat;
      desired_raw_envelope = row.desired_raw_envelope;
      desired_archived = row.desired_archived;
      desired_pinned = row.desired_pinned;
      desired_folder_id = row.desired_folder_id;
      payload_hash = row.payload_hash;
      confirmation_required = row.confirmation_required;
      confirmed_at = row.confirmed_at;
      created_at = row.created_at;
    })

  -- `getPlan`: the record must still have the hash that was stored with it.
  unfoldable pub get_plan : Db Bytes → String → Result StorageError (StoredPlan Bytes)
  get_plan db id = do
    row ← or_fail (find_plan db id) not_found
    result ← read_plan row
    computed ← or_fail (stored_plan_payload_hash result) corrupt
    refuse_if (not (computed == result.payload_hash)) corrupt
    ok result

  -- The row of a plan, for times within the range of `UnixNano`.
  abbrev pub plan_row : StoredPlan Bytes → Bytes → Bytes → PlanRow Bytes
  plan_row plan plan_json desired_json = record {
    plan_id = plan.plan.id;
    owner_id = plan.owner_id;
    binding_id = plan.binding_id;
    source_snapshot_hash = plan.source_snapshot_hash;
    previous_snapshot_hash = plan.previous_snapshot_hash;
    expected_target_hash = plan.expected_target_hash;
    expected_target_conflict_hash = plan.expected_target_conflict_hash;
    desired_target = desired_json;
    desired_conflict_hash = plan.desired_conflict_hash;
    desired_raw_chat = plan.desired_raw_chat;
    desired_raw_envelope = plan.desired_raw_envelope;
    desired_archived = plan.desired_archived;
    desired_pinned = plan.desired_pinned;
    desired_folder_id = plan.desired_folder_id;
    plan = plan_json;
    payload_hash = plan.payload_hash;
    binding_version = plan.plan.binding_version;
    confirmation_required = plan.confirmation_required;
    confirmed_at = none;
    created_at = plan.created_at;
    expires_at = plan.plan.expires_at;
  }

  -- The checks of `SavePlan` on the plan alone, once the owner is filled in.
  abbrev pub check_plan : Installation → StoredPlan Bytes → Result StorageError (Unit {0})
  check_plan installation plan = do
    refuse_if (not (plan.owner_id == installation.owner_id)) identity_mismatch
    refuse_if (not (plan.plan.source_snapshot_hash == plan.source_snapshot_hash))
        (refused "stored plan source snapshot does not match domain plan")
    refuse_if (plan.plan.expires_at == 0) (refused "plan expiry is required")
    refuse_if plan.desired_target.offline_simulation
        (refused "offline simulation target cannot be persisted as an executable plan")
    refuse_if (p.is_empty plan.desired_raw_chat || not (p.valid_json plan.desired_raw_chat))
        (refused "desired raw OWU chat must be valid JSON")
    refuse_if
        (not (p.is_empty plan.desired_raw_envelope) && not (p.valid_json plan.desired_raw_envelope))
        (refused "desired raw OWU envelope must be valid JSON when present")

  -- The source snapshots that the plan names must be there.
  abbrev pub check_sources : Db Bytes → StoredPlan Bytes → Result StorageError (Unit {0})
  check_sources db plan = do
    _ ← get_source_snapshot db plan.source_snapshot_hash
    if plan.previous_snapshot_hash == ""
        then ok tt
        else get_source_snapshot db plan.previous_snapshot_hash >>= λ _. ok tt

  -- The row that is inserted, or the check of the row that has the plan's id already.
  unfoldable pub store_plan :
      StoredPlan Bytes → Bytes → Bytes → Db Bytes → Result StorageError (Db Bytes)
  store_plan plan plan_json desired_json db = elim (find_plan db plan.plan.id) [
    | none ↦
        if not (exists (λ r. r.business_hash == plan.source_snapshot_hash) db.sources)
          || not (ltb plan.plan.binding_version (2 ^ 63))
        then err (refused "save sync plan")
        else ok (record db { plans = db.plans ++ plan_row plan plan_json desired_json ∷ [] })
    | some _ ↦ do
      existing ← get_plan db plan.plan.id
      refuse_if (not (existing.payload_hash == plan.payload_hash)) immutable_conflict
      ok db
  ]

  -- What is stored of a plan: the owner filled in, the hash of the desired target computed anew,
  -- the time of its making filled in, and no confirmation.
  abbrev prepared_plan : StoredPlan Bytes → String → Time → StoredPlan Bytes
  prepared_plan plan desired_hash now = record plan {
    desired_target = record (plan.desired_target) { business_hash = desired_hash };
    created_at = if plan.created_at == 0 then now else plan.created_at;
    confirmed_at = none;
  }

  abbrev with_owner : Installation → StoredPlan Bytes → StoredPlan Bytes
  with_owner installation plan =
      if plan.owner_id == "" then record plan { owner_id = installation.owner_id } else plan

  -- `SavePlan`.
  unfoldable pub save_plan :
      Installation → StoredPlan Bytes → Time → Db Bytes → Result StorageError (Db Bytes)
  unfolding store_plan
  save_plan installation given now db = do
    let plan = with_owner installation given
    refuse_if (given.plan.id == "" || given.source_snapshot_hash == "")
        (refused "plan ID and source snapshot hash are required")
    check_plan installation plan
    check_sources db plan
    desired_hash ←
        or_fail (target_hash p.codec plan.desired_target) (refused "marshal target snapshot")
    let saved = prepared_plan plan desired_hash now
    computed ← or_fail (stored_plan_payload_hash saved) (refused "marshal plan payload")
    refuse_if (not (saved.payload_hash == "") && not (saved.payload_hash == computed))
        (refused "plan payload hash is invalid")
    plan_json ← or_fail (p.codec.marshal_plan saved.plan) (refused "marshal sync plan")
    desired_json ←
        or_fail (p.codec.marshal_target saved.desired_target) (refused "marshal desired target")
    store_plan (record saved { payload_hash = computed }) plan_json desired_json db

  -- The binding of the plan must still have the version that the plan was made for.
  abbrev pub check_version :
      Installation → Db Bytes → StoredPlan Bytes → Result StorageError (Unit {0})
  check_version installation db plan =
      if plan.binding_id == ""
      then refuse_if (not (plan.plan.binding_version == 0)) binding_version_changed
      else elim (find_binding db plan.binding_id) [
        | none ↦ err not_found
        | some row ↦
            if not (row.owner_id == installation.owner_id)
            then err not_found
            else refuse_if (not (row.version == plan.plan.binding_version)) binding_version_changed
      ]

  -- `UPDATE sync_plans SET confirmed_at_ns = ? WHERE plan_id = ? AND confirmed_at_ns IS NULL`.
  abbrev pub mark_confirmed : String → Time → Db Bytes → Db Bytes
  mark_confirmed id now db = record db {
    plans =
        modify_where (λ r. r.plan_id == id && elim r.confirmed_at [ none ↦ true | some _ ↦ false ])
          (λ r. record r { confirmed_at = some now }) db.plans;
  }

  abbrev awaits_confirmation : StoredPlan Bytes → Bool
  awaits_confirmation plan =
      plan.confirmation_required && elim plan.confirmed_at [ none ↦ true | some _ ↦ false ]

  -- `ConfirmPlan`, at a given time, or at the clock's if it is zero.
  unfoldable pub confirm_plan :
      Installation
      → String
      → Time
      → Time
      → Db Bytes
      → Result StorageError (StoredPlan Bytes × Db Bytes)
  confirm_plan installation id given clock db = do
    let now = if given == 0 then clock else given
    plan ← get_plan db id
    refuse_if (not (plan.owner_id == installation.owner_id)) identity_mismatch
    refuse_if (not (ltb now plan.plan.expires_at)) plan_expired
    check_version installation db plan
    if awaits_confirmation plan
        then get_plan (mark_confirmed id now db) id >>= (λ q. ok (q, mark_confirmed id now db))
        else ok (plan, db)

  -- `sourceAlias`.
  unfoldable pub source_alias : SourceSnapshot → Result StorageError String
  source_alias snapshot = do
    refuse_if (p.trim snapshot.source_type == "" || p.trim snapshot.share_id == "")
        (refused "source type and share ID are required for a trusted create intent")
    ok (joined (snapshot.source_type ∷ ":" ∷ snapshot.share_id ∷ []))
