-- ===== src/Diff/Run.antt =====
-- internal/diff/preview.go: `Preview`. The clock that it reads when no time is given is an
-- argument. Its write of the hash through the pointer to the previous snapshot is the snapshot
-- that `check_previous` returns.
use gpt_owu_bridge.Base.{
  ℕ, ◌+◌, ◌*◌, ◌^◌, String, List, [], ◌∷◌, ◌++◌, map, Option, none, some, Bool, true, false, not,
  ◌&&◌, ◌||◌, ◌==◌, text_eq, nat_eq, if◌then◌else◌, nonempty, Result, ok, err, ◌>>=◌, ◌>>◌,
  refuse_if,
}
use gpt_owu_bridge.Domain.{
  Time, SourceSnapshot, TargetSnapshot, MessageChange, Diff, SyncPlan, PlanStatus,
  needs_binding_confirmation, unsupported_content, conflict, no_change, ready, title_follow_source,
  title_target_override, policy_version,
}
use gpt_owu_bridge.Domain.Hash.{Codec, source_hash, target_hash}
use gpt_owu_bridge.Diff.Validate.{SourceError, TargetError, validate_source, validate_target}
use gpt_owu_bridge.Diff.Compare.{
  index_source, change, same_relative_order, scope_reduced, moved_sources, modified, added,
}
use gpt_owu_bridge.Diff.Target.{Targets, compare_target, title_change, plan_id}

pub record Options : Type 0 where
  pub now : Time
  pub title_policy : String
  pub binding_version : ℕ
  pub stable_source_ids : Bool

pub data PreviewError : Type 0 where
  hash_failed current_hash_mismatch previous_hash_mismatch : PreviewError
  targets_apart not_offline unknown_title_policy : PreviewError
  invalid_source invalid_previous : SourceError → PreviewError
  invalid_baseline invalid_target : TargetError → PreviewError

-- The error of a check, as the error of the preview that makes it.
abbrev pub raised {ℓ} :
    {E : Type ℓ} → (E → PreviewError) → Result E (Unit {0}) → Result PreviewError (Unit {0})
raised f (ok u) = ok u
raised f (err e) = err (f e)

-- Fifteen minutes, in nanoseconds.
abbrev plan_lifetime : Time
plan_lifetime = 15 * 60 * 10 ^ 9

-- The baseline and the target come together, as offline simulations.
unfoldable pub paired : Option TargetSnapshot → Option TargetSnapshot → Result PreviewError Targets
paired none none = ok none
paired (some baseline) (some target) =
    if not baseline.offline_simulation || not target.offline_simulation
    then err not_offline
    else ok (some (baseline, target))
paired none (some target) = err targets_apart
paired (some baseline) none = err targets_apart

abbrev pub policy_of : Options → String
policy_of options = if options.title_policy == "" then title_follow_source else options.title_policy

abbrev pub known_policy : String → Bool
known_policy policy = policy == title_follow_source || policy == title_target_override

-- A target change wins over any other reason not to apply, but for unsupported content.
unfoldable pub settle : SourceSnapshot → Diff → PlanStatus
settle current diff =
    if current.coverage.status == "partial"
    then unsupported_content
    else if nonempty diff.scope_reduced || nonempty diff.target_conflicts
    then conflict
    else if not
        (nonempty diff.added || nonempty diff.modified || diff.title_change == "sync_source")
    then no_change
    else ready

abbrev pub next_action : PlanStatus → String
next_action unsupported_content = "review unsupported source items; this preview cannot be applied"
next_action conflict = "resolve the reported range or target conflict; no target write is allowed"
next_action no_change = "none; if ChatGPT changed, update the share snapshot first"
next_action ready = "read-only local preview only; production apply is not implemented"
next_action needs_binding_confirmation =
    "review the source range; production binding confirmation is not implemented in M1"

-- The conflicts that concern the two source snapshots as wholes.
abbrev when : Bool → MessageChange → List MessageChange
when true x = x ∷ []
when false x = []

unfoldable pub identity_conflicts : SourceSnapshot → SourceSnapshot → List MessageChange
identity_conflicts previous current =
    when
      (not (previous.identity.candidate_id == "")
        && not (current.identity.candidate_id == "")
        && not (previous.identity.candidate_id == current.identity.candidate_id))
      (change "" "source_identity_changed"
        "candidate source identity changed; do not reuse the existing target")
    ++ when (not (previous.parser_version == current.parser_version)) (
        change "" "parser_version_changed"
          "parser policy changed; re-review coverage before applying")

unfoldable pub order_conflicts : Options → SourceSnapshot → SourceSnapshot → List MessageChange
order_conflicts options previous current =
    when (not (same_relative_order previous.messages current.messages))
      (change "" "source_order_changed" "existing source message order changed")
    ++ when (not options.stable_source_ids && not (previous.business_hash == current.business_hash))
        (change "" "source_identity_unverified"
          "automatic ID matching is disabled unless the offline fixture explicitly declares stable source IDs")

-- What `compareTarget` adds, and the title of the target.
abbrev pub target_conflicts : SourceSnapshot → SourceSnapshot → Targets → List MessageChange
target_conflicts previous current none = []
target_conflicts previous current (some (baseline, target)) =
    compare_target (index_source previous.messages) (index_source current.messages) baseline target

abbrev target_title : Targets → String
target_title none = ""
target_title (some (_, target)) = target.title

-- The difference of a snapshot from an earlier one.
unfoldable pub difference : Options → SourceSnapshot → SourceSnapshot → Targets → Diff
difference options previous current targets = record {
  added = added (index_source previous.messages) current.messages;
  modified = modified (index_source current.messages) previous.messages;
  scope_reduced = scope_reduced (index_source current.messages) previous.messages;
  target_conflicts =
      identity_conflicts previous current
      ++ (moved_sources (index_source current.messages) previous.messages
          ++ (order_conflicts options previous current
              ++ target_conflicts previous current targets));
  title_change = title_change previous.title current.title targets (policy_of options);
  previous_title = previous.title;
  source_title = current.title;
  target_title = target_title targets;
}

-- The difference of a first snapshot.
unfoldable pub first_difference : SourceSnapshot → Diff
first_difference current = record {
  added = map (λ message. change message.id "add" "") current.messages;
  modified = [];
  scope_reduced = [];
  target_conflicts = [];
  title_change = "set_source";
  previous_title = "";
  source_title = current.title;
  target_title = "";
}

abbrev first_status : SourceSnapshot → PlanStatus
first_status current =
    if current.coverage.status == "partial" then unsupported_content else needs_binding_confirmation

abbrev first_action : SourceSnapshot → String
first_action current =
    if current.coverage.status == "partial"
    then "review unsupported source items before any future binding"
    else next_action needs_binding_confirmation

module _ {Bytes : Type 0} (c : Codec Bytes) where
  -- The snapshot with its hash, which a hash that is there must agree with.
  unfoldable pub hashed : PreviewError → SourceSnapshot → Result PreviewError SourceSnapshot
  hashed mismatch snapshot = elim (source_hash c snapshot) [
    | none ↦ err hash_failed
    | some hash ↦
        if not (snapshot.business_hash == "") && not (snapshot.business_hash == hash)
        then err mismatch
        else ok (record snapshot { business_hash = hash })
  ]

  unfoldable pub check_previous : SourceSnapshot → Result PreviewError SourceSnapshot
  check_previous previous = do
    raised invalid_previous (validate_source previous)
    hashed previous_hash_mismatch previous

  unfoldable pub check_targets : Targets → Result PreviewError (Unit {0})
  check_targets none = ok tt
  check_targets (some (baseline, target)) = do
    raised invalid_baseline (validate_target baseline)
    raised invalid_target (validate_target target)

  abbrev pub baseline_hash : Targets → Result PreviewError String
  baseline_hash none = ok ""
  baseline_hash (some (baseline, _)) = elim (target_hash c baseline) [
    | none ↦ err hash_failed
    | some hash ↦ ok hash
  ]

  -- The plan of a difference, with its id.
  unfoldable pub make_plan :
      Time → Options → SourceSnapshot → Targets → String → Diff → PlanStatus → String → SyncPlan
  make_plan clock options current targets hash diff status action = record plan {
    id = plan_id c plan targets;
  }
    where
      plan : SyncPlan
      plan = record {
        id = "";
        read_only = true;
        status = status;
        source_snapshot_hash = current.business_hash;
        binding_version = options.binding_version;
        target_baseline_hash = hash;
        parser_version = current.parser_version;
        policy_version = policy_version;
        diff = diff;
        allowed_actions = [];
        next_action = action;
        expires_at = (if options.now == 0 then clock else options.now) + plan_lifetime;
      }

  -- The plan, once the inputs have been checked.
  unfoldable pub plan_for :
      Time → Options → Option SourceSnapshot → SourceSnapshot → Targets → String → SyncPlan
  plan_for clock options none current targets hash =
      make_plan clock options current targets hash (first_difference current) (first_status current)
        (first_action current)
  plan_for clock options (some previous) current targets hash =
      let diff = difference options previous current targets in
      make_plan clock options current targets hash diff (settle current diff)
        (next_action (settle current diff))

  abbrev pub previous_checked : Option SourceSnapshot → Result PreviewError (Option SourceSnapshot)
  previous_checked none = ok none
  previous_checked (some previous) = check_previous previous >>= λ p. ok (some p)

  unfoldable pub preview :
      Time
      → Options
      → Option SourceSnapshot
      → SourceSnapshot
      → Option TargetSnapshot
      → Option TargetSnapshot
      → Result PreviewError SyncPlan
  preview clock options previous current baseline target = do
    current' ← hashed current_hash_mismatch current
    targets ← paired baseline target
    refuse_if (not (known_policy (policy_of options))) unknown_title_policy
    raised invalid_source (validate_source current')
    previous' ← previous_checked previous
    check_targets targets
    hash ← baseline_hash targets
    ok (plan_for clock options previous' current' targets hash)
