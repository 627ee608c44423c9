-- ===== src/Syncer/Preview.antt =====
-- internal/syncer/service.go: `Preview`.
use gpt_owu_bridge.Base.{
  String, [], ◌∷◌, ◌++◌, Option, none, some, Bool, true, false, not, ◌||◌, ◌==◌, text_eq, Result,
  ok, err, if◌then◌else◌,
}
use gpt_owu_bridge.Domain.{
  Time, SourceSnapshot, SyncPlan, TargetSnapshot, conflict, no_change, ready,
  needs_binding_confirmation,
}
use gpt_owu_bridge.Domain.Hash.{target_hash}
use gpt_owu_bridge.Diff.Run.{Options, PreviewError, preview}
use gpt_owu_bridge.Storage.Types.{BindingState}
use gpt_owu_bridge.Owu.{Snapshot}
use gpt_owu_bridge.Syncer.Types.{preview_error, plain_error, Service}
use gpt_owu_bridge.Syncer.Exec.{
  Exec, pure, stop, ◌>>=◌, ◌>>◌, stop_if, need, read_clock, read_target,
}
use gpt_owu_bridge.Syncer.Checks.{
  report, plan_status_eq, verified_same_source, matches_baseline, authorize, validate_binding,
  normalize_source,
}
use gpt_owu_bridge.Syncer.Repository.{nothing, alone, check, load_state, verify_downstream}
use gpt_owu_bridge.Syncer.Plans.{make_persisted_plan, make_stored_plan, persist_plan}

-- The options of a preview without a binding.
abbrev first_options : Time → Options
first_options now = record {
  now = now;
  title_policy = "";
  binding_version = 0;
  stable_source_ids = false;
}

-- A plan that may be applied.
abbrev applicable : SyncPlan → String → SyncPlan
applicable plan action = record plan {
  read_only = false;
  allowed_actions = "apply_sync" ∷ [];
  next_action = action;
}

-- The plan of a first synchronisation waits for a confirmation only.
unfoldable pub first_plan : SyncPlan → SyncPlan
first_plan plan =
    if plan.status == needs_binding_confirmation
    then record (applicable plan
        "review the source range, then apply this exact plan with explicit confirmation") {
          status = ready;
        }
    else plan

-- What a changed target document makes of a plan.
unfoldable pub conflicting_plan : SyncPlan → SyncPlan
conflicting_plan plan = record plan {
  diff = record (plan.diff) {
    target_conflicts =
        plan.diff.target_conflicts
        ++ record {
          source_id = "";
          kind = "target_state_changed";
          detail = "the complete target document differs from the last verified baseline";
        }
          ∷ [];
  };
  status = conflict;
  read_only = true;
  allowed_actions = [];
  next_action = "resolve the target change before creating another sync plan";
}

abbrev pub may_apply : SyncPlan → Bool
may_apply plan = plan.status == ready || plan.status == no_change

unfoldable pub update_plan : SyncPlan → SyncPlan
update_plan plan =
    if may_apply plan
    then applicable plan (
        if plan.status == ready
        then "apply this exact plan with explicit confirmation"
        else "apply to record a verified no-change operation, or take no action")
    else plan

module _ {Bytes R : Type 0} (s : Service Bytes R) where
  abbrev pub previewed : Result PreviewError SyncPlan → Exec Bytes R SyncPlan
  previewed (ok plan) = pure plan
  previewed (err e) = stop (nothing (preview_error e))

  -- The last part of both branches.
  unfoldable pub store_preview :
      SyncPlan
      → String
      → SourceSnapshot
      → Option SourceSnapshot
      → Option (Snapshot Bytes)
      → Snapshot Bytes
      → Time
      → Exec Bytes R SyncPlan
  store_preview plan binding_id snapshot previous actual desired now = do
    stored ←
        need (make_stored_plan s plan binding_id snapshot previous actual desired now true)
          (nothing (plain_error "hash target snapshot"))
    persist_plan s snapshot (record stored { owner_id = s.installation.owner_id })
    pure plan

  -- `Preview` without a binding.
  unfoldable pub preview_create : SourceSnapshot → Time → Exec Bytes R SyncPlan
  preview_create snapshot now = do
    found ← previewed (preview s.platform.codec now (first_options now) none snapshot none none)
    desired ←
        need (s.documents.build_snapshot snapshot none)
          (nothing (plain_error "build target snapshot"))
    plan ← make_persisted_plan s found now s.plan_ttl
    store_preview (first_plan plan) "" snapshot none none desired now

  -- The chat that the preview takes as the target.
  abbrev pub desired_target :
      SyncPlan → SourceSnapshot → Snapshot Bytes → Exec Bytes R (Snapshot Bytes)
  desired_target plan snapshot actual =
      if may_apply plan
      then need (s.documents.build_snapshot snapshot (some actual))
          (nothing (plain_error "build target update"))
      else pure actual

  abbrev simulated : TargetSnapshot → TargetSnapshot
  simulated target = record target { offline_simulation = true }

  -- The preview of a bound target that has been read.
  unfoldable pub preview_bound :
      SourceSnapshot → String → BindingState → Snapshot Bytes → Time → Exec Bytes R SyncPlan
  preview_bound snapshot binding_id state actual now = do
    found ← previewed (
        preview s.platform.codec now
          (record {
            now = now;
            title_policy = state.binding.title_policy;
            binding_version = state.binding.version;
            stable_source_ids =
                s.stable_ids
                || verified_same_source state.source_snapshot.identity snapshot.identity;
          })
          (some state.source_snapshot) snapshot (some (simulated state.target_baseline.snapshot))
          (some (simulated actual.normalized)))
    plan ← make_persisted_plan s found now s.plan_ttl
    let judged =
        if matches_baseline actual state.target_baseline then plan else conflicting_plan plan
    hash ←
        need (target_hash s.platform.codec actual.normalized)
          (nothing (plain_error "hash target snapshot"))
    let based = record judged { target_baseline_hash = hash }
    desired ← desired_target based snapshot actual
    store_preview (update_plan based) binding_id snapshot (some state.source_snapshot) (some actual)
        desired now

  -- `Preview` of a binding.
  unfoldable pub preview_update : SourceSnapshot → String → Time → Exec Bytes R SyncPlan
  preview_update snapshot binding_id now = do
    state ← load_state s (alone "load binding") binding_id
    check s nothing (validate_binding s state.binding)
    answer ← read_target s state.binding.target_chat_id
    actual ← need answer (
        nothing (
          report "target_unavailable" "the managed target could not be read"
            "retry preview after Open WebUI is available" true ""))
    stop_if
        (not (actual.chat_id == state.binding.target_chat_id)
          || not (actual.owner_id == s.installation.owu_account_id))
        (nothing (
          report "target_identity_mismatch" "the target belongs to a different Open WebUI account"
            "restore the configured account identity" false ""))
    preview_bound snapshot binding_id state actual now

  -- `Preview`.
  unfoldable pub preview_sync : String → SourceSnapshot → String → Exec Bytes R SyncPlan
  preview_sync principal given binding_id = do
    check s nothing (authorize s principal)
    verify_downstream s nothing
    snapshot ← need (normalize_source s given) (
        nothing (
          report "invalid_source_snapshot" "the source snapshot is internally inconsistent"
            "refresh and parse the share again" false ""))
    now ← read_clock s
    if binding_id == "" then preview_create snapshot now else preview_update snapshot binding_id now
