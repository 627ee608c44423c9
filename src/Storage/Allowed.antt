-- ===== src/Storage/Allowed.antt =====
-- internal/storage/bindings.go: reads of a binding, which go through the evidence of its creation.
use gpt_owu_bridge.Base.{
  ℕ, ◌+◌, String, List, [], ◌∷◌, map, Bool, not, ◌&&◌, ◌||◌, ◌==◌, text_eq, nat_eq, if◌then◌else◌,
  find_first, keep, Result, ok, ◌>>=◌, ◌>>◌, refuse_if,
}
use gpt_owu_bridge.Domain.{Binding, MessageMapping, succeeded}
use gpt_owu_bridge.Domain.Hash.{Codec, target_hash}
use gpt_owu_bridge.Storage.Types.{
  StorageError, corrupt, not_found, untrusted_target, refused, Installation, create, kind_eq,
  status_eq, TargetBaseline, BindingState, Platform,
}
use gpt_owu_bridge.Storage.Tables.{Db, OperationRow, IntentRow, BindingRow, AllowRow, find_binding}
use gpt_owu_bridge.Storage.Records.{or_fail, get_source_snapshot}
use gpt_owu_bridge.Storage.Sort.{sort_by, text_before}

-- The number of rows that a `COUNT(*)` over one more joined table adds.
unfoldable pub tally {ℓ} : {A : Type ℓ} → (A → ℕ) → List A → ℕ
tally f [] = 0
tally f (x ∷ xs) = f x + tally f xs

-- The condition of the joins and of the `WHERE` clause, at one row of each table.
unfoldable pub is_evidence :
    {Bytes : Type 0}
    → Installation
    → String
    → BindingRow Bytes
    → AllowRow
    → IntentRow
    → OperationRow
    → Bool
is_evidence installation id b a ci o =
    a.binding_id == b.binding_id
    && a.target_chat_id == b.target_chat_id
    && ci.operation_id == b.created_by_operation
    && o.operation_id == ci.operation_id
    && b.binding_id == id
    && b.installation_id == installation.id
    && b.owner_id == installation.owner_id
    && b.owu_site_id == installation.owu_site_id
    && b.owu_account_id == installation.owu_account_id
    && a.installation_id == b.installation_id
    && a.owner_id == b.owner_id
    && a.owu_site_id == b.owu_site_id
    && a.owu_account_id == b.owu_account_id
    && a.creation_operation_id == b.created_by_operation
    && o.owner_id == b.owner_id
    && o.kind == create
    && o.status == succeeded
    && o.binding_id == b.binding_id
    && o.target_chat_id == b.target_chat_id
    && not (o.remote_receipt_id == "")

module _ {Bytes : Type 0} where
  -- The `COUNT(*)` of `validateAllowedBinding`.
  unfoldable pub evidence_count : Db Bytes → Installation → String → ℕ
  evidence_count db installation id =
      tally
        (λ b.
          tally
            (λ a.
              tally
                (λ ci.
                  tally (λ o. if is_evidence installation id b a ci o then 1 else 0) db.operations)
                db.intents)
            db.allowlist)
        db.bindings

  unfoldable pub validate_allowed_binding :
      Db Bytes → Installation → String → Result StorageError (Unit {0})
  validate_allowed_binding db installation id =
      refuse_if (not (evidence_count db installation id == 1)) untrusted_target

  -- `getTargetBaseline`: the stored snapshot must still have its hash, and carry it.
  unfoldable pub get_target_baseline :
      Codec Bytes → Db Bytes → String → ℕ → Result StorageError TargetBaseline
  get_target_baseline c db id version = do
    row ←
        or_fail (find_first (λ r. r.binding_id == id && r.binding_version == version) db.baselines)
          not_found
    snapshot ← or_fail (c.unmarshal_target row.snapshot) corrupt
    computed ← or_fail (target_hash c snapshot) corrupt
    refuse_if
        (not (computed == row.snapshot_hash) || not (snapshot.business_hash == row.snapshot_hash))
        corrupt
    ok (record {
      binding_id = id;
      snapshot = snapshot;
      snapshot_hash = row.snapshot_hash;
      conflict_hash = row.conflict_hash;
      source_snapshot_hash = row.source_snapshot_hash;
      binding_version = version;
      operation_id = row.operation_id;
      verified_at = row.verified_at;
    })

  -- `SELECT … FROM message_mappings WHERE binding_id = ? ORDER BY source_message_id`.
  unfoldable pub mappings_of : Db Bytes → String → List MessageMapping
  mappings_of db id =
      map
        (λ r. record {
          source_message_id = r.source_message_id;
          target_message_id = r.target_message_id;
        })
        (sort_by (λ r s. text_before r.source_message_id s.source_message_id)
          (keep (λ r. r.binding_id == id) db.mappings))

  -- `getBinding`.
  unfoldable pub get_binding :
      Codec Bytes → Db Bytes → Installation → String → Result StorageError Binding
  get_binding c db installation id = do
    validate_allowed_binding db installation id
    row ← or_fail (find_binding db id) not_found
    identity ← or_fail (c.unmarshal_identity row.source_identity) corrupt
    ok (record {
      id = row.binding_id;
      installation_id = row.installation_id;
      principal_id = row.owner_id;
      owu_site_id = row.owu_site_id;
      owu_account_id = row.owu_account_id;
      target_chat_id = row.target_chat_id;
      created_by_operation = row.created_by_operation;
      source_identity = identity;
      message_mappings = mappings_of db id;
      title_policy = row.title_policy;
      version = row.version;
    })

  -- `GetBindingState`.
  unfoldable pub get_binding_state :
      Platform Bytes → Db Bytes → Installation → String → Result StorageError BindingState
  get_binding_state p db installation id = do
    binding ← get_binding p.codec db installation id
    row ← or_fail (find_binding db id) (refused "read binding source baseline")
    source ← get_source_snapshot p db row.last_source_snapshot_hash
    baseline ← get_target_baseline p.codec db id binding.version
    ok (record { binding = binding; source_snapshot = source; target_baseline = baseline })
